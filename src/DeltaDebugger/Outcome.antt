-- ===== src/DeltaDebugger/Outcome.antt =====
-- What `ddmin` of crates/delta-debugger/src/lib.rs returns, and when it refuses.
use mathlib.Core.List.Sublist
use mathlib.Core.List.{Sublist}
use wire_assume.Prelude.{
  All-mp, Bool-cases, length, All, ok, err, ℕ, ◌≤◌, ◌<◌, ◌≡◌, refl, sym, subst, ◌≢◌, ◌↔◌, ◌⊎◌, inl,
  inr, true, some, List, arith,
}
use wire_assume.DeltaDebugger.{
  TestOutcome, outcome_eq, partitions, slice, complement, ddmin, MinimizeResult,
  initial_outcome_mismatch,
}
use wire_assume.DeltaDebugger.Partitions.{
  IsRange, partitions-IsRange, slice-nonempty, complement-nonempty,
}
use wire_assume.DeltaDebugger.Search.{first_match-All, first_match-hit}
use wire_assume.DeltaDebugger.Sublists.{slice-sublist, complement-sublist}
use wire_assume.DeltaDebugger.Rounds.{Keeps, ddmin-Keeps}

pub outcome_eq→≡ : (a b : TestOutcome) → outcome_eq a b ≡ true → a ≡ b
outcome_eq→≡ TestOutcome.pass b h = ground arith
outcome_eq→≡ _ b h = ground arith

pub outcome_eq_refl : (a : TestOutcome) → outcome_eq a a ≡ true
outcome_eq_refl TestOutcome.pass = refl
outcome_eq_refl _ = refl

module _ {A : Type 0} (xs : List A) (n : ℕ) (many : 2 ≤ n) (fits : n ≤ length xs) where
  cut_nonempty :
      (cut : List A → ℕ × ℕ → List A)
      → (cut ≡ slice) ⊎ (cut ≡ complement)
      → All (λ r. 0 < length (cut xs r)) (partitions (length xs) n)
  cut_nonempty cut (inl e) =
      subst (λ k. All (λ r. 0 < length (k xs r)) (partitions (length xs) n)) (sym e)
        (slice-nonempty xs n many fits)
  cut_nonempty cut (inr e) =
      subst (λ k. All (λ r. 0 < length (k xs r)) (partitions (length xs) n)) (sym e)
        (complement-nonempty xs n many fits)

module _ {S A : Type 0} (test : S → List A → TestOutcome × S) (target : TestOutcome) where
  sublist-Keeps : (items : List A) → Keeps test target (λ xs. Sublist xs items)
  sublist-Keeps items = record {
    finds = λ cut xs n tests s c many fits which kept hit. elim which [
      | inl e ↦
          first_match-All test target (cut xs) (λ ys. Sublist ys items) (partitions (length xs) n)
            tests s c
            (subst (λ k. All (λ r. Sublist (k xs r) items) (partitions (length xs) n)) (sym e)
              (All-mp (IsRange (length xs) _) _ _ (λ r _. Sublist.trans (slice-sublist xs r) kept)
                (partitions-IsRange (length xs) n (omega arith) fits)))
            hit
      | inr e ↦
          first_match-All test target (cut xs) (λ ys. Sublist ys items) (partitions (length xs) n)
            tests s c
            (subst (λ k. All (λ r. Sublist (k xs r) items) (partitions (length xs) n)) (sym e)
              (All-mp (IsRange (length xs) _) _ _
                (λ r h. Sublist.trans (complement-sublist xs r h.nonempty) kept)
                (partitions-IsRange (length xs) n (omega arith) fits)))
            hit
    ];
  }

  -- The items that `ddmin` returns are some of the given ones, in the given order.
  pub ddmin-sublist :
      (s s' : S) (items : List A) (m : MinimizeResult A)
      → ddmin test target s items ≡ some (ok m, s')
      → Sublist m.items items
  ddmin-sublist s s' items m e =
      ddmin-Keeps test target (λ xs. Sublist xs items) (sublist-Keeps items) s s' items m
        (λ _. Sublist.refl items) e

  nonempty-Keeps : Keeps test target (λ xs. 0 < length xs)
  nonempty-Keeps = record {
    finds = λ cut xs n tests s c many fits which kept hit.
        first_match-All test target (cut xs) (λ ys. 0 < length ys) (partitions (length xs) n) tests
          s c (cut_nonempty xs n many fits cut which) hit;
  }

  -- From a list that is not empty `ddmin` never returns the empty list, whatever the test answers.
  pub ddmin-nonempty :
      (s s' : S) (items : List A) (m : MinimizeResult A)
      → 0 < length items
      → ddmin test target s items ≡ some (ok m, s')
      → 0 < length m.items
  ddmin-nonempty s s' items m some_items e =
      ddmin-Keeps test target (λ xs. 0 < length xs) nonempty-Keeps s s' items m (λ _. some_items) e

  -- If the test's answer depends on the items alone, then the items that `ddmin` returns have the
  -- target outcome.
  pub ddmin_reaches_target :
      (p : List A → TestOutcome)
      → ((s : S) (xs : List A) → (test s xs).0 ≡ p xs)
      → (s s' : S) (items : List A) (m : MinimizeResult A)
      → ddmin test target s items ≡ some (ok m, s')
      → p m.items ≡ target
  ddmin_reaches_target p agrees s s' items m e = outcome_eq→≡ (p m.items) target (
      ddmin-Keeps test target (λ xs. outcome_eq (p xs) target ≡ true)
        (record {
          finds = λ cut xs n tests s c _ _ _ _ hit.
              first_match-hit test target (cut xs) p agrees (partitions (length xs) n) tests s c
                hit;
        })
        s s' items m (λ h. rw (← agrees s items) h) e)

  -- `ddmin` refuses its input exactly when the first test does not give the target outcome, and leaves
  -- the world as that test leaves it.
  pub ddmin_refuses_iff :
      (s s' : S) (items : List A)
      → (ddmin test target s items ≡ some (err initial_outcome_mismatch, s'))
        ↔ (((test s items).0 ≢ target) × ((test s items).1 ≡ s'))
  unfolding ddmin
  ddmin_refuses_iff s s' items =
      let o = (test s items).0 in
      (
        λ e. (λ same. ground (arith, outcome_eq_refl target), ground arith),
        λ h. elim (Bool-cases (outcome_eq o target)) [
          | inl same ↦ absurd (h.0 (outcome_eq→≡ o target same))
          | inr other ↦ rw (other, h.1)
        ],
      )
