-- ===== src/DeltaDebugger/Samples.antt =====
-- Runs of crates/delta-debugger/src/lib.rs, after its own tests.
use mathlib.Core.List.{Sublist}
use wire_assume.Prelude.{
  ◌==◌, if◌then◌else◌, length, ok, err, ℕ, suc, ◌+◌, ◌<◌, ◌≡◌, refl, ◌≢◌, ◌↔◌, Bool, false, ◌&&◌,
  ◌||◌, none, some, List, [], ◌∷◌, arith,
}
use wire_assume.DeltaDebugger.{
  TestOutcome, first_match, pass, fail, slice, complement, partitions, ddmin, MinimizeResult,
  initial_outcome_mismatch, minimize_success,
}
use wire_assume.DeltaDebugger.Partitions.{pieces, pieces-partitions}
use wire_assume.DeltaDebugger.Termination.{ddmin-total}
use wire_assume.DeltaDebugger.Outcome.{
  ddmin-sublist, ddmin_reaches_target, ddmin_refuses_iff, ddmin-nonempty,
}
use wire_assume.DeltaDebugger.Minimal.{IsOneMinimal, ddmin-IsOneMinimal, ddmin-not-IsOneMinimal}
use wire_assume.DeltaDebugger.Calls.{ddmin_tests_executed}
use wire_assume.DeltaDebugger.Async.{
  Future, ddmin_async, ddmin_async-eq-ddmin, minimize_success_async, minimize_success_async-eq,
}

abbrev has : ℕ → List ℕ → Bool
has a [] = false
has a (x ∷ xs) = (x == a) || has a xs

abbrev six : List ℕ
six = 1 ∷ 2 ∷ 3 ∷ 4 ∷ 5 ∷ 6 ∷ []

abbrev five : List ℕ
five = 1 ∷ 2 ∷ 3 ∷ 4 ∷ 5 ∷ []

-- Fails while 3 is among the items, and counts its calls.
abbrev trigger : List ℕ → TestOutcome
trigger xs = if has 3 xs then fail else pass

-- Passes while the items 1 and 3 are there.
abbrev needed : List ℕ → TestOutcome
needed xs = if has 1 xs && has 3 xs then pass else fail

abbrev counting : (List ℕ → TestOutcome) → ℕ → List ℕ → TestOutcome × ℕ
counting p calls xs = (p xs, suc calls)

program : Unit {0}
unfolding ddmin partitions slice complement first_match
program = tt

abbrev to_three : MinimizeResult ℕ
to_three = record { items = 3 ∷ []; tests_executed = 4 }

abbrev to_one_and_three : MinimizeResult ℕ
to_one_and_three = record { items = 1 ∷ 3 ∷ []; tests_executed = 13 }

abbrev to_last : MinimizeResult ℕ
to_last = record { items = 5 ∷ []; tests_executed = 3 }

ddmin-six : ddmin (counting trigger) fail 0 six ≡ some (ok to_three, 4)
unfolding program
ddmin-six = refl

ddmin-five : ddmin (counting needed) pass 0 five ≡ some (ok to_one_and_three, 13)
unfolding program
ddmin-five = refl

ddmin-five_always : ddmin (counting (λ _. pass)) pass 0 five ≡ some (ok to_last, 3)
unfolding program
ddmin-five_always = refl

pieces-partitions_example : pieces six (partitions 6 4) ≡ six
pieces-partitions_example = pieces-partitions six 4 (omega arith)

ddmin-total_example : ddmin (counting trigger) fail 0 six ≢ none
ddmin-total_example = ddmin-total (counting trigger) fail 0 six

ddmin-sublist_example : Sublist (1 ∷ 3 ∷ []) five
ddmin-sublist_example = ddmin-sublist (counting needed) pass 0 13 five to_one_and_three ddmin-five

ddmin_reaches_target_example : needed (1 ∷ 3 ∷ []) ≡ pass
ddmin_reaches_target_example =
    ddmin_reaches_target (counting needed) pass needed (λ s xs. refl) 0 13 five to_one_and_three
      ddmin-five

ddmin_refuses_iff_example :
    (ddmin (counting trigger) pass 0 six ≡ some (err initial_outcome_mismatch, 1))
    ↔ ((fail ≢ pass) × ((counting trigger 0 six).1 ≡ 1))
ddmin_refuses_iff_example = ddmin_refuses_iff (counting trigger) pass 0 1 six

ddmin-nonempty_example : 0 < length to_last.items
ddmin-nonempty_example =
    ddmin-nonempty (counting (λ _. pass)) pass 0 3 five to_last (omega arith) ddmin-five_always

ddmin_tests_executed_example : 13 ≡ 0 + 13
ddmin_tests_executed_example =
    ddmin_tests_executed (counting needed) pass (λ calls. calls) (λ s xs. refl) 0 13 five
      to_one_and_three ddmin-five

ddmin-IsOneMinimal_example : IsOneMinimal (counting needed) pass needed (λ s xs. refl) (1 ∷ 3 ∷ [])
ddmin-IsOneMinimal_example =
    ddmin-IsOneMinimal (counting needed) pass needed (λ s xs. refl) 0 13 five to_one_and_three
      ddmin-five (omega arith)

ddmin-not-IsOneMinimal_example :
    ¬ IsOneMinimal (counting (λ _. pass)) pass (λ _. pass) (λ s xs. refl) (5 ∷ [])
ddmin-not-IsOneMinimal_example =
    ddmin-not-IsOneMinimal (counting (λ _. pass)) pass (λ _. pass) (λ s xs. refl) (λ xs. refl) 0 3
      five to_last (omega arith) ddmin-five_always

-- A test that is polled once before it answers.
abbrev polled : List ℕ → Future ℕ TestOutcome
polled xs = Future.pending (λ calls. suc calls) (λ calls. Future.ready (needed xs))

ddmin_async-eq-ddmin_example :
    ddmin_async polled pass 0 five ≡ ddmin (λ s xs. (needed xs, suc s)) pass 0 five
ddmin_async-eq-ddmin_example = ddmin_async-eq-ddmin polled pass 0 five

minimize_success_async-eq_example :
    minimize_success_async polled 0 five ≡ minimize_success (λ s xs. (needed xs, suc s)) 0 five
minimize_success_async-eq_example = minimize_success_async-eq polled 0 five
