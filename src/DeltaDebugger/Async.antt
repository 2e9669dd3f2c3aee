-- ===== src/DeltaDebugger/Async.antt =====
-- `ddmin_async` of crates/delta-debugger/src/lib.rs, whose test is a future that is awaited before
-- the next test starts. A future is polled until it is ready; each poll may change the world.
use wire_assume.Prelude.{
  ltb, leb, if◌then◌else◌, length, Result, ok, err, ℕ, zero, suc, ◌+◌, ◌-◌, ◌*◌, min, max, ◌≡◌,
  refl, Bool, true, false, not, Option, none, some, List, [], ◌∷◌, arith,
}
use wire_assume.DeltaDebugger.{
  TestOutcome, outcome_eq, Found, Reducer, first_match, partitions, slice, complement, try_subsets,
  try_complements, iterate, run_loop, ddmin, MinimizeResult, MinimizeError,
  initial_outcome_mismatch, minimize_success,
}

pub data Future (S B : Type 0) : Type 0 where
  ready : B → Future S B
  pending : (S → S) → (S → Future S B) → Future S B

abbrev pub await : {S B : Type 0} → Future S B → S → B × S
await (ready b) s = (b, s)
await (pending poll resume) s = await (resume s) (poll s)

module _ {S A : Type 0} (test : List A → Future S TestOutcome) (target : TestOutcome) where
  -- One `for (start, end) in &ranges` with `test(candidate.clone()).await`.
  first_match_async : (ℕ × ℕ → List A) → List (ℕ × ℕ) → ℕ → S → Found S A
  first_match_async cut [] tests s = record { candidate = none; tests = tests; world = s }
  first_match_async cut (range ∷ ranges) tests s =
      let candidate = cut range in
      let (outcome, s') = await (test candidate) s in
      let rest = first_match_async cut ranges (tests + 1) s' in
      elim (outcome_eq outcome target) [
        | true ↦ record { candidate = some candidate; tests = tests + 1; world = s' }
        | false ↦ rest
      ]

  -- The body of `loop`, both searches written out.
  iterate_async : Reducer S A → Bool × Reducer S A
  iterate_async r =
      let n = min r.n (length r.current) in
      let ranges = partitions (length r.current) n in
      let found = first_match_async (complement r.current) ranges r.tests r.world in
      let again = first_match_async (slice r.current) ranges found.tests found.world in
      if ltb (length r.current) 2 then (false, r) else elim found.candidate [
        | some candidate ↦ (
          true,
          record {
            current = candidate;
            n = max (n - 1) 2;
            tests = found.tests;
            world = found.world;
          },
        )
        | none ↦ elim again.candidate [
          | some candidate ↦ (
            true,
            record { current = candidate; n = 2; tests = again.tests; world = again.world },
          )
          | none ↦
              if leb (length r.current) n
              then (
                false,
                record { current = r.current; n = n; tests = again.tests; world = again.world },
              )
              else (
                true,
                record {
                  current = r.current;
                  n = min (n * 2) (length r.current);
                  tests = again.tests;
                  world = again.world;
                },
              )
        ]
      ]

  run_loop_async : ℕ → Reducer S A → Option (Reducer S A)
  run_loop_async zero r = none
  run_loop_async (suc fuel) r =
      let (again, r') = iterate_async r in
      let rest = run_loop_async fuel r' in if again then rest else some r'

  pub ddmin_async : S → List A → Option (Result MinimizeError (MinimizeResult A) × S)
  unfolding run_loop_async iterate_async first_match_async
  ddmin_async s items =
      let (outcome, s') = await (test items) s in
      if not (outcome_eq outcome target)
      then some (err initial_outcome_mismatch, s')
      else if ltb (length items) 2
      then some (ok (record { items = items; tests_executed = 1 }), s')
      else elim (run_loop_async (length items * length items + length items + 1)
          (record { current = items; n = 2; tests = 1; world = s' })) [
            | none ↦ none
            | some r ↦ some (ok (record { items = r.current; tests_executed = r.tests }), r.world)
          ]

  -- The synchronous test that runs the future to its end.
  abbrev blocking : S → List A → TestOutcome × S
  blocking s items = await (test items) s

  first_match_async-eq :
      (cut : ℕ × ℕ → List A) (ranges : List (ℕ × ℕ)) (tests : ℕ) (s : S)
      → first_match_async cut ranges tests s ≡ first_match blocking target cut ranges tests s
  unfolding first_match_async first_match
  first_match_async-eq cut [] tests s = refl
  first_match_async-eq cut (range ∷ ranges) tests s =
      ground (arith, first_match_async-eq cut ranges (tests + 1) (await (test (cut range)) s).1)

  iterate_async-eq : (r : Reducer S A) → iterate_async r ≡ iterate blocking target r
  unfolding iterate_async iterate try_complements try_subsets
  iterate_async-eq r =
      let n = min r.n (length r.current) in
      let ranges = partitions (length r.current) n in
      let found = first_match blocking target (complement r.current) ranges r.tests r.world in
      ground (
        arith,
        first_match_async-eq (complement r.current) ranges r.tests r.world,
        first_match_async-eq (slice r.current) ranges found.tests found.world,
      )

  run_loop_async-eq :
      (fuel : ℕ) (r : Reducer S A) → run_loop_async fuel r ≡ run_loop blocking target fuel r
  unfolding run_loop_async run_loop
  run_loop_async-eq zero r = refl
  run_loop_async-eq (suc fuel) r =
      ground (arith, iterate_async-eq r, run_loop_async-eq fuel (iterate blocking target r).1)

  -- `ddmin_async` returns the items, the error and the count of tests that `ddmin` returns for the
  -- test that waits for the future, and leaves the same world.
  pub ddmin_async-eq-ddmin :
      (s : S) (items : List A)
      → ddmin_async s items ≡ ddmin (λ s' xs. await (test xs) s') target s items
  unfolding ddmin_async ddmin
  ddmin_async-eq-ddmin s items = ground (
    arith,
    run_loop_async-eq (length items * length items + length items + 1)
        (record { current = items; n = 2; tests = 1; world = (await (test items) s).1 }),
  )

pub minimize_success_async :
    {S A : Type 0}
    → (List A → Future S TestOutcome)
    → S
    → List A
    → Option (Result MinimizeError (MinimizeResult A) × S)
unfolding ddmin_async
minimize_success_async test s items = ddmin_async test TestOutcome.pass s items

-- `minimize_success_async` does what `minimize_success` does with the test that waits.
pub minimize_success_async-eq :
    {S A : Type 0} (test : List A → Future S TestOutcome) (s : S) (items : List A)
    → minimize_success_async test s items ≡ minimize_success (λ s' xs. await (test xs) s') s items
unfolding minimize_success_async minimize_success
minimize_success_async-eq test s items = ddmin_async-eq-ddmin test TestOutcome.pass s items
