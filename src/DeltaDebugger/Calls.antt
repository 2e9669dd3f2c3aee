-- ===== src/DeltaDebugger/Calls.antt =====
-- The counter `tests_executed` of crates/delta-debugger/src/lib.rs.
use wire_assume.Prelude.{length, ok, ℕ, zero, suc, ◌+◌, min, ◌≡◌, inl, inr, some, List, arith}
use wire_assume.DeltaDebugger.{
  TestOutcome, Found, Reducer, first_match, partitions, slice, complement, try_subsets,
  try_complements, iterate, run_loop, start, ddmin, enough_fuel, MinimizeResult,
}
use wire_assume.DeltaDebugger.Search.{first_match-tests}
use wire_assume.DeltaDebugger.Rounds.{ddmin-Succeeds}

-- `calls` counts the calls of the test closure in what the closure owns.
module _ {S A : Type 0} (test : S → List A → TestOutcome × S) (target : TestOutcome) (calls : S → ℕ)
    (steps : (s : S) (xs : List A) → calls (test s xs).1 ≡ suc (calls s)) where
  -- After a step from the counters `tests` and `world`.
  abbrev InStep : ℕ → S → Reducer S A → Type 0
  InStep tests s r = calls r.world + tests ≡ calls s + r.tests

  try_subsets-InStep :
      (items : List A) (n : ℕ) (after : Found S A)
      → InStep after.tests after.world (try_subsets test target items n after).1
  unfolding try_subsets
  try_subsets-InStep items n after = ground (
    arith,
    first_match-tests test target (slice items) calls steps (partitions (length items) n)
        after.tests after.world,
  )

  try_complements-InStep :
      (items : List A) (n tests : ℕ) (s : S)
      → InStep tests s (try_complements test target items n tests s).1
  unfolding try_complements
  try_complements-InStep items n tests s =
      let found =
        first_match test target (complement items) (partitions (length items) n) tests s in
      ground (
        arith,
        first_match-tests test target (complement items) calls steps (partitions (length items) n)
            tests s,
        try_subsets-InStep items n found,
      )

  iterate-InStep : (r : Reducer S A) → InStep r.tests r.world (iterate test target r).1
  unfolding iterate
  iterate-InStep r =
      ground (arith, try_complements-InStep r.current (min r.n (length r.current)) r.tests r.world)

  run_loop-InStep :
      (fuel : ℕ) (r r' : Reducer S A)
      → run_loop test target fuel r ≡ some r'
      → InStep r.tests r.world r'
  unfolding run_loop
  run_loop-InStep zero r r' e = cc
  run_loop-InStep (suc fuel) r r' e =
      ground (arith, iterate-InStep r, run_loop-InStep fuel (iterate test target r).1 r')

  -- Where each call of the test adds one to a count in the world, `tests_executed` of a result is what
  -- the run has added to it.
  pub ddmin_tests_executed :
      (s s' : S) (items : List A) (m : MinimizeResult A)
      → ddmin test target s items ≡ some (ok m, s')
      → calls s' ≡ calls s + m.tests_executed
  ddmin_tests_executed s s' items m e =
      let run = ddmin-Succeeds test target s s' items m e in
      elim run.exit [
        | inl (small, same, ends) ↦ rw (same, ends) (omega (arith, steps s items))
        | inr (r, ends, same, last) ↦
            rw (same, last)
              (omega (
                arith,
                steps s items,
                run_loop-InStep (enough_fuel test target items)
                    (start test target items (test s items).1) r ends,
              ))
      ]
