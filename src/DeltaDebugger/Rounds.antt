-- ===== src/DeltaDebugger/Rounds.antt =====
-- Proof rules for the main loop of crates/delta-debugger/src/lib.rs.
use wire_assume.Prelude.{
  ltb, leb, Bool-cases, Option-cases, length, ok, ℕ, zero, suc, ◌≤◌, ◌<◌, min, ◌≡◌, refl, ◌⊎◌, inl,
  inr, true, some, List, arith,
}
use wire_assume.DeltaDebugger.{
  TestOutcome, outcome_eq, Found, Reducer, first_match, partitions, slice, complement, try_subsets,
  try_complements, iterate, run_loop, start, ddmin, enough_fuel, MinimizeResult,
}
use wire_assume.DeltaDebugger.Termination.{iterate-Falls}

module _ {S A : Type 0} (test : S → List A → TestOutcome × S) (target : TestOutcome) where
  -- A run that did not fail: its first test gave the target, and it returned at once or by the loop.
  pub record Succeeds (s : S) (items : List A) (m : MinimizeResult A) (s' : S) : Type 0 where
    pub initial : outcome_eq (test s items).0 target ≡ true
    pub exit :
        (length items < 2)
          × (m ≡ record { items = items; tests_executed = 1 })
          × (s' ≡ (test s items).1)
        ⊎ ((r : Reducer S A) × (run_loop test target
                (enough_fuel test target items)
                (start test target items (test s items).1)
              ≡ some r)
            × (m ≡ record { items = r.current; tests_executed = r.tests })
            × (s' ≡ r.world))

  pub ddmin-Succeeds :
      (s s' : S) (items : List A) (m : MinimizeResult A)
      → ddmin test target s items ≡ some (ok m, s')
      → Succeeds s items m s'
  unfolding ddmin
  ddmin-Succeeds s s' items m e =
      let run =
        run_loop test target (enough_fuel test target items)
          (start test target items (test s items).1) in
      record {
        initial = ground arith;
        exit = elim (Bool-cases (ltb (length items) 2)) [
          | inl small ↦ inl (ground arith, ground arith, ground arith)
          | inr large ↦ elim (Option-cases run) [
            | inl nothing ↦ absurd (ground (arith, nothing))
            | inr (r, ends) ↦ inr (r, ends, ground (arith, ends), ground (arith, ends))
          ]
        ];
      }

  -- What a search over the parts of `items` finds keeps `Q`.
  pub record Keeps (Q : List A → Type 0) : Type 0 where
    pub finds :
        (cut : List A → ℕ × ℕ → List A) (items : List A) (n tests : ℕ) (s : S) (c : List A)
        → 2 ≤ n
        → n ≤ length items
        → (cut ≡ slice) ⊎ (cut ≡ complement)
        → Q items
        → (first_match test target (cut items) (partitions (length items) n) tests s).candidate
          ≡ some c
        → Q c

  module _ (Q : List A → Type 0) (keeps : Keeps Q) where
    try_subsets-Keeps :
        (items : List A) (n : ℕ) (after : Found S A)
        → 2 ≤ n
        → n ≤ length items
        → Q items
        → Q (try_subsets test target items n after).1.current
    unfolding try_subsets
    try_subsets-Keeps items n after many fits q =
        let found =
          first_match test target (slice items) (partitions (length items) n) after.tests
            after.world in
        elim (Option-cases found.candidate) [
          | inl nothing ↦
              rw (nothing, try_subsets)
                (elim (Bool-cases (leb (length items) n)) [ inl e ↦ rw e q | inr e ↦ rw e q ])
          | inr (c, hit) ↦
              rw (hit, try_subsets)
                (keeps.finds slice items n after.tests after.world c many fits (inl refl) q hit)
        ]

    try_complements-Keeps :
        (items : List A) (n tests : ℕ) (s : S)
        → 2 ≤ n
        → n ≤ length items
        → Q items
        → Q (try_complements test target items n tests s).1.current
    unfolding try_complements
    try_complements-Keeps items n tests s many fits q =
        let found =
          first_match test target (complement items) (partitions (length items) n) tests s in
        elim (Option-cases found.candidate) [
          | inl nothing ↦
              rw (nothing, try_complements) (try_subsets-Keeps items n found many fits q)
          | inr (c, hit) ↦
              rw (hit, try_complements)
                (keeps.finds complement items n tests s c many fits (inr refl) q hit)
        ]

    iterate-Keeps : (r : Reducer S A) → 2 ≤ r.n → Q r.current → Q (iterate test target r).1.current
    unfolding iterate
    iterate-Keeps r two q = elim (Bool-cases (ltb (length r.current) 2)) [
      | inl small ↦ rw small q
      | inr large ↦ rw large (
          try_complements-Keeps r.current (min r.n (length r.current)) r.tests r.world
            (ground arith) (omega arith) q)
    ]

    run_loop-Keeps :
        (fuel : ℕ) (r r' : Reducer S A)
        → 2 ≤ r.n
        → Q r.current
        → run_loop test target fuel r ≡ some r'
        → Q r'.current
    unfolding run_loop
    run_loop-Keeps zero r r' two q e = cc
    run_loop-Keeps (suc fuel) r r' two q e = elim (Bool-cases (iterate test target r).0) [
      | inl again ↦
          run_loop-Keeps fuel (iterate test target r).1 r' (iterate-Falls test target r two).two
            (iterate-Keeps r two q) (ground arith)
      | inr done ↦
          let last : (iterate test target r).1 ≡ r' = ground arith in
          rw last at (iterate-Keeps r two q)
    ]

    -- The result of a run that did not fail has what its input had.
    pub ddmin-Keeps :
        (s s' : S) (items : List A) (m : MinimizeResult A)
        → (outcome_eq (test s items).0 target ≡ true → Q items)
        → ddmin test target s items ≡ some (ok m, s')
        → Q m.items
    ddmin-Keeps s s' items m q e =
        let run = ddmin-Succeeds s s' items m e in
        elim run.exit [
          | inl (small, same, _) ↦ rw same (q run.initial)
          | inr (r, ends, same, _) ↦ rw same (
              run_loop-Keeps (enough_fuel test target items)
                (start test target items (test s items).1) r (omega arith) (q run.initial) ends)
        ]
