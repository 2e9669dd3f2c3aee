-- ===== src/DeltaDebugger/Minimal.antt =====
-- How small the result of `ddmin` of crates/delta-debugger/src/lib.rs is.
use wire_assume.Prelude.{
  ltb, ltb→lt, Bool-cases, length, All, ok, ℕ, zero, suc, ◌+◌, ◌≤◌, ◌<◌, min, ◌≡◌, ap, ◌≢◌, ◌⊎◌,
  inl, inr, false, none, some, List, arith,
}
use wire_assume.DeltaDebugger.{
  TestOutcome, outcome_eq, Reducer, first_match, partitions, complement, try_subsets,
  try_complements, iterate, run_loop, ddmin, enough_fuel, MinimizeResult,
}
use wire_assume.DeltaDebugger.Partitions.{partitions-singles}
use wire_assume.DeltaDebugger.Search.{first_match-miss}
use wire_assume.DeltaDebugger.Outcome.{outcome_eq_refl, ddmin-nonempty}
use wire_assume.DeltaDebugger.Rounds.{ddmin-Succeeds}

module _ {S A : Type 0} (test : S → List A → TestOutcome × S) (target : TestOutcome)
    (p : List A → TestOutcome) (agrees : (s : S) (xs : List A) → (test s xs).0 ≡ p xs) where
  -- No list with one element less has the target outcome.
  pub record IsOneMinimal (items : List A) : Type 0 where
    pub without : (i : ℕ) → i < length items → p (complement items (i, i + 1)) ≢ target

  misses-IsOneMinimal :
      (items : List A) (n : ℕ)
      → n ≡ length items
      → All (λ r. outcome_eq (p (complement items r)) target ≡ false) (partitions (length items) n)
      → IsOneMinimal items
  misses-IsOneMinimal items n full all = record {
    without = λ i h hit.
        let all' : All (λ r. outcome_eq (p (complement items r)) target ≡ false)
            (partitions (length items) (length items)) =
          rw full at all in
        let missed =
          partitions-singles (λ r. outcome_eq (p (complement items r)) target ≡ false)
            (length items) i all' h in
        cc (missed, ap (λ o. outcome_eq o target) hit, outcome_eq_refl target);
  }

  try_complements-stops :
      (items : List A) (n tests : ℕ) (s : S)
      → n ≤ length items
      → (try_complements test target items n tests s).0 ≡ false
      → ((try_complements test target items n tests s).1.current ≡ items)
        × (n ≡ length items)
        × ((first_match test target
              (complement items)
              (partitions (length items) n)
              tests
              s).candidate
            ≡ none)
  unfolding try_complements try_subsets
  try_complements-stops items n tests s fits stops = ground arith

  -- A round that ends the loop leaves fewer than two items, or has tried to drop each of them.
  iterate-IsOneMinimal :
      (r : Reducer S A)
      → (iterate test target r).0 ≡ false
      → (length (iterate test target r).1.current < 2)
        ⊎ IsOneMinimal (iterate test target r).1.current
  unfolding iterate
  iterate-IsOneMinimal r stops = elim (Bool-cases (ltb (length r.current) 2)) [
    | inl small ↦ rw small (inl (ltb→lt _ _ small))
    | inr large ↦
        let stops' = rw large at stops in
        let (same, full, none_found) =
          try_complements-stops r.current (min r.n (length r.current)) r.tests r.world (omega arith)
            stops' in
        rw (large, same)
          (inr (
            misses-IsOneMinimal r.current (min r.n (length r.current)) full (
              first_match-miss test target (complement r.current) p agrees
                (partitions (length r.current) (min r.n (length r.current))) r.tests r.world
                none_found)))
  ]

  run_loop-IsOneMinimal :
      (fuel : ℕ) (r r' : Reducer S A)
      → run_loop test target fuel r ≡ some r'
      → (length r'.current < 2) ⊎ IsOneMinimal r'.current
  unfolding run_loop
  run_loop-IsOneMinimal zero r r' e = cc
  run_loop-IsOneMinimal (suc fuel) r r' e = elim (Bool-cases (iterate test target r).0) [
    | inl again ↦ run_loop-IsOneMinimal fuel (iterate test target r).1 r' (ground arith)
    | inr done ↦
        let last : (iterate test target r).1 ≡ r' = ground arith in
        rw last at (iterate-IsOneMinimal r done)
  ]

  -- If the test's answer depends on the items alone, then a result of two items or more is 1-minimal:
  -- without any one of its items it no longer has the target outcome.
  pub ddmin-IsOneMinimal :
      (s s' : S) (items : List A) (m : MinimizeResult A)
      → ddmin test target s items ≡ some (ok m, s')
      → 2 ≤ length m.items
      → IsOneMinimal m.items
  ddmin-IsOneMinimal s s' items m e large =
      let run = ddmin-Succeeds test target s s' items m e in
      elim run.exit [
        | inl (small, same, _) ↦
            absurd (omega (arith, ap (λ (k : MinimizeResult A). length k.items) same))
        | inr (r, ends, same, _) ↦
            elim (run_loop-IsOneMinimal (enough_fuel test target items) _ r ends) [
              | inl small ↦
                  absurd (omega (arith, ap (λ (k : MinimizeResult A). length k.items) same))
              | inr minimal ↦ rw same minimal
            ]
      ]

  -- Where every list has the target outcome, the result for a list that is not empty is not 1-minimal:
  -- it is never shortened to the empty list.
  pub ddmin-not-IsOneMinimal :
      ((xs : List A) → p xs ≡ target)
      → (s s' : S) (items : List A) (m : MinimizeResult A) → 0 < length items
      → ddmin test target s items ≡ some (ok m, s')
      → ¬ IsOneMinimal m.items
  ddmin-not-IsOneMinimal always s s' items m some_items e minimal =
      minimal.without 0 (ddmin-nonempty test target s s' items m some_items e)
        (always (complement m.items (0, 0 + 1)))
