-- ===== src/DeltaDebugger/Termination.antt =====
-- The main loop of crates/delta-debugger/src/lib.rs ends: `enough_fuel` is enough.
use wire_assume.Prelude.{
  ℕ, zero, suc, ◌+◌, ◌-◌, ◌*◌, ◌≤◌, ◌<◌, min, max, ◌≡◌, ◌≢◌, Bool, true, List, none, some, arith,
  length, Bool-cases, Option-cases, inl, inr, ltb,
}
use wire_assume.DeltaDebugger.{
  TestOutcome, Found, Reducer, first_match, partitions, slice, complement, try_subsets,
  try_complements, iterate, run_loop, start, ddmin, enough_fuel,
}
use wire_assume.DeltaDebugger.Partitions.{complement-shorter, slice-shorter}
use wire_assume.DeltaDebugger.Search.{first_match-All}

-- Falls in each round: a reduction makes the list shorter, any other round makes `n` larger.
abbrev pub measure : {S A : Type 0} → Reducer S A → ℕ
measure r = length r.current * length r.current + length r.current - min r.n (length r.current)

square_mono : (a b : ℕ) → a < b → a * a + a + b ≤ b * b
square_mono a b h = grind arith

pub record Falls {S A : Type 0} (items : List A) (n : ℕ) (again : Bool) (r' : Reducer S A)
    : Type 0 where
  pub smaller : again ≡ true → measure r' < length items * length items + length items - n
  pub two : 2 ≤ r'.n

module _ {S A : Type 0} (test : S → List A → TestOutcome × S) (target : TestOutcome)
    (items : List A) (n : ℕ) (many : 2 ≤ n) (fits : n ≤ length items) where
  shorter-Falls :
      (c : List A) (m tests : ℕ) (s : S)
      → length c < length items
      → 2 ≤ m
      → Falls items n true (record { current = c; n = m; tests = tests; world = s })
  shorter-Falls c m tests s h two = record {
    smaller = λ _. omega (arith, square_mono (length c) (length items) h);
    two = two;
  }

  try_subsets-Falls :
      (after : Found S A)
      → Falls items n
          (try_subsets test target items n after).0
          (try_subsets test target items n after).1
  unfolding try_subsets
  try_subsets-Falls after =
      let ranges = partitions (length items) n in
      let found = first_match test target (slice items) ranges after.tests after.world in
      elim (Option-cases found.candidate) [
        | inl nothing ↦
            rw (nothing, try_subsets) (record { smaller = ground arith; two = ground arith })
        | inr (c, hit) ↦
            rw (hit, try_subsets)
              (shorter-Falls c 2 found.tests found.world
                (first_match-All test target (slice items) (λ xs. length xs < length items) ranges
                  after.tests after.world c (slice-shorter items n many fits) hit)
                (omega arith))
      ]

  try_complements-Falls :
      (tests : ℕ) (s : S)
      → Falls items n
          (try_complements test target items n tests s).0
          (try_complements test target items n tests s).1
  unfolding try_complements
  try_complements-Falls tests s =
      let ranges = partitions (length items) n in
      let found = first_match test target (complement items) ranges tests s in
      elim (Option-cases found.candidate) [
        | inl nothing ↦ rw (nothing, try_complements) (try_subsets-Falls found)
        | inr (c, hit) ↦
            rw (hit, try_complements)
              (shorter-Falls c (max (n - 1) 2) found.tests found.world
                (first_match-All test target (complement items) (λ xs. length xs < length items)
                  ranges tests s c (complement-shorter items n many fits) hit)
                (omega arith))
      ]

module _ {S A : Type 0} (test : S → List A → TestOutcome × S) (target : TestOutcome) where
  pub iterate-Falls :
      (r : Reducer S A)
      → 2 ≤ r.n
      → Falls r.current
          (min r.n (length r.current))
          (iterate test target r).0
          (iterate test target r).1
  unfolding iterate
  iterate-Falls r two = elim (Bool-cases (ltb (length r.current) 2)) [
    | inl small ↦ rw small (record { smaller = λ h. cc; two = two })
    | inr large ↦ rw large (
        try_complements-Falls test target r.current (min r.n (length r.current)) (ground arith)
          (omega arith) r.tests r.world)
  ]

  run_loop-total :
      (fuel : ℕ) (r : Reducer S A)
      → 2 ≤ r.n
      → measure r < fuel
      → (r' : Reducer S A) × (run_loop test target fuel r ≡ some r')
  unfolding run_loop
  run_loop-total zero r two h = absurd (omega arith)
  run_loop-total (suc fuel) r two h =
      let falls = iterate-Falls r two in
      elim (Bool-cases (iterate test target r).0) [
        | inl again ↦ rw again (
            run_loop-total fuel (iterate test target r).1 falls.two
              (omega (arith, falls.smaller again)))
        | inr done ↦ ((iterate test target r).1, rw done)
      ]

  -- Whatever the test answers, the reducer returns a result or its error: the fuel never runs out.
  pub ddmin-total : (s : S) (items : List A) → ddmin test target s items ≢ none
  unfolding ddmin
  ddmin-total s items =
      let s' = (test s items).1 in
      let (r', e) =
        run_loop-total (enough_fuel test target items) (start test target items s') (omega arith)
          (omega arith) in
      ground (arith, e)
