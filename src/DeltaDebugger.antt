-- ===== src/DeltaDebugger.antt =====
-- crates/delta-debugger/src/lib.rs: the ddmin reducer. `S` is what the `FnMut` test closure owns or
-- reaches: each call takes it and gives it back. A loop that runs out of fuel returns `none`.
pub mod Partitions
mod Search
pub mod Sublists
pub mod Termination
mod Rounds
pub mod Outcome
pub mod Minimal
pub mod Calls
pub mod Async
mod Samples
use wire_assume.Prelude.{
  ℕ, zero, suc, ◌+◌, ◌-◌, ◌*◌, ◌/◌, ◌%◌, min, max, Bool, true, false, not, List, [], ◌∷◌, ◌++◌,
  Option, none, some, Result, ok, err, ltb, leb, if◌then◌else◌, length, take, drop,
}

pub data TestOutcome : Type 0 where
  pass fail unresolved : TestOutcome

-- The derived `PartialEq`.
abbrev pub outcome_eq : TestOutcome → TestOutcome → Bool
outcome_eq TestOutcome.pass TestOutcome.pass = true
outcome_eq TestOutcome.fail TestOutcome.fail = true
outcome_eq TestOutcome.unresolved TestOutcome.unresolved = true
outcome_eq _ _ = false

pub record MinimizeResult {ℓ} (A : Type ℓ) : Type ℓ where
  pub items : List A
  pub tests_executed : ℕ

pub data MinimizeError : Type 0 where
  initial_outcome_mismatch : MinimizeError

-- The `for index in 0..n` loop, with the rounds that are left.
partitions_from : (base remainder index left start : ℕ) → List (ℕ × ℕ)
partitions_from base remainder index zero start = []
partitions_from base remainder index (suc left) start =
    let end = start + (base + (if ltb index remainder then 1 else 0)) in
    (start, end) ∷ partitions_from base remainder (index + 1) left end

pub partitions : (len n : ℕ) → List (ℕ × ℕ)
unfolding partitions_from
partitions len n = partitions_from (len / n) (len % n) 0 n 0

module _ {A : Type 0} where
  -- items[start..end]
  pub slice : List A → ℕ × ℕ → List A
  slice items (start, end) = take (end - start) (drop start items)

  -- items[..start] and then items[end..]
  pub complement : List A → ℕ × ℕ → List A
  complement items (start, end) = take start items ++ drop end items

-- The variables of the main loop.
pub record Reducer (S A : Type 0) : Type 0 where
  pub current : List A
  pub n : ℕ
  pub tests : ℕ
  pub world : S

-- What one `for` loop over the ranges ends with.
pub record Found (S A : Type 0) : Type 0 where
  pub candidate : Option (List A)
  pub tests : ℕ
  pub world : S

module _ {S A : Type 0} (test : S → List A → TestOutcome × S) (target : TestOutcome) where
  -- One `for (start, end) in &ranges`: it breaks at the first candidate with the target outcome.
  pub first_match : (ℕ × ℕ → List A) → List (ℕ × ℕ) → ℕ → S → Found S A
  first_match cut [] tests s = record { candidate = none; tests = tests; world = s }
  first_match cut (range ∷ ranges) tests s =
      let (outcome, s') = test s (cut range) in
      let rest = first_match cut ranges (tests + 1) s' in
      if outcome_eq outcome target
      then record { candidate = some (cut range); tests = tests + 1; world = s' }
      else rest

  -- After the first `for` loop has found nothing: the second, over the subsets, and the growth of `n`.
  try_subsets : List A → (n : ℕ) → Found S A → Bool × Reducer S A
  try_subsets current n after =
      let found =
        first_match (slice current) (partitions (length current) n) after.tests after.world in
      elim found.candidate [
        | some subset ↦
            (true, record { current = subset; n = 2; tests = found.tests; world = found.world })
        | none ↦
            if leb (length current) n
            then (
              false,
              record { current = current; n = n; tests = found.tests; world = found.world },
            )
            else (
              true,
              record {
                current = current;
                n = min (n * 2) (length current);
                tests = found.tests;
                world = found.world;
              },
            )
      ]

  -- The rest of the body, with `n` cut down to the length.
  try_complements : List A → (n : ℕ) → ℕ → S → Bool × Reducer S A
  try_complements current n tests s =
      let found = first_match (complement current) (partitions (length current) n) tests s in
      elim found.candidate [
        | some rest ↦ (
          true,
          record { current = rest; n = max (n - 1) 2; tests = found.tests; world = found.world },
        )
        | none ↦ try_subsets current n found
      ]

  -- The body of `loop`: whether it goes on, and the variables after it.
  pub iterate : Reducer S A → Bool × Reducer S A
  unfolding try_complements try_subsets
  iterate r =
      if ltb (length r.current) 2
      then (false, r)
      else try_complements r.current (min r.n (length r.current)) r.tests r.world

  pub run_loop : ℕ → Reducer S A → Option (Reducer S A)
  run_loop zero r = none
  run_loop (suc fuel) r =
      let (again, r') = iterate r in let rest = run_loop fuel r' in if again then rest else some r'

  abbrev pub start : List A → S → Reducer S A
  start items s = record { current = items; n = 2; tests = 1; world = s }

  abbrev pub finish : Option (Reducer S A) → Option (Result MinimizeError (MinimizeResult A) × S)
  finish none = none
  finish (some r) = some (ok (record { items = r.current; tests_executed = r.tests }), r.world)

  -- The first test, the early returns, and then the loop.
  pub ddmin_with : ℕ → S → List A → Option (Result MinimizeError (MinimizeResult A) × S)
  unfolding run_loop iterate
  ddmin_with fuel s items =
      let (outcome, s') = test s items in
      if not (outcome_eq outcome target)
      then some (err initial_outcome_mismatch, s')
      else if ltb (length items) 2
      then some (ok (record { items = items; tests_executed = 1 }), s')
      else finish (run_loop fuel (start items s'))

  -- One more than the measure of the first round, see Termination.
  abbrev pub enough_fuel : List A → ℕ
  enough_fuel items = length items * length items + length items + 1

  pub ddmin : S → List A → Option (Result MinimizeError (MinimizeResult A) × S)
  unfolding ddmin_with
  ddmin s items = ddmin_with (enough_fuel items) s items

unfoldable pub minimize_success :
    {S A : Type 0}
    → (S → List A → TestOutcome × S)
    → S
    → List A
    → Option (Result MinimizeError (MinimizeResult A) × S)
unfolding ddmin
minimize_success test s items = ddmin test TestOutcome.pass s items
