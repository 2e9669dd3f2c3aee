-- ===== src/DeltaDebugger/Search.antt =====
-- `first_match`, the `for` loop over the ranges in crates/delta-debugger/src/lib.rs.
use wire_assume.Prelude.{
  ℕ, suc, ◌+◌, ◌≡◌, refl, subst, true, false, List, [], ◌∷◌, none, some, arith, All,
}
use wire_assume.DeltaDebugger.{TestOutcome, outcome_eq, first_match}

module _ {S A : Type 0} (test : S → List A → TestOutcome × S) (target : TestOutcome)
    (cut : ℕ × ℕ → List A) where
  -- What holds of every candidate holds of the one that is found.
  pub first_match-All :
      (P : List A → Type 0) (ranges : List (ℕ × ℕ)) (tests : ℕ) (s : S) (c : List A)
      → All (λ r. P (cut r)) ranges
      → (first_match test target cut ranges tests s).candidate ≡ some c
      → P c
  unfolding first_match
  first_match-All P [] tests s c all h = cc
  first_match-All P (r ∷ ranges) tests s c all h = ground (
    arith,
    all.0,
    subst P {x = cut r} {y = c},
    first_match-All P ranges (tests + 1) (test s (cut r)).1 c all.1,
  )

  -- A candidate is found because the test gave it the target outcome.
  pub first_match-hit :
      (p : List A → TestOutcome) (agrees : (s : S) (xs : List A) → (test s xs).0 ≡ p xs)
      (ranges : List (ℕ × ℕ)) (tests : ℕ) (s : S) (c : List A)
      → (first_match test target cut ranges tests s).candidate ≡ some c
      → outcome_eq (p c) target ≡ true
  unfolding first_match
  first_match-hit p agrees [] tests s c h = cc
  first_match-hit p agrees (r ∷ ranges) tests s c h =
      ground
        (arith, agrees s (cut r), first_match-hit p agrees ranges (tests + 1) (test s (cut r)).1 c)

  pub first_match-miss :
      (p : List A → TestOutcome) (agrees : (s : S) (xs : List A) → (test s xs).0 ≡ p xs)
      (ranges : List (ℕ × ℕ)) (tests : ℕ) (s : S)
      → (first_match test target cut ranges tests s).candidate ≡ none
      → All (λ r. outcome_eq (p (cut r)) target ≡ false) ranges
  unfolding first_match
  first_match-miss p agrees [] tests s h = tt
  first_match-miss p agrees (r ∷ ranges) tests s h = (
    ground (arith, agrees s (cut r)),
    first_match-miss p agrees ranges (tests + 1) (test s (cut r)).1 (ground arith),
  )

  -- The counter and the calls go together.
  pub first_match-tests :
      (calls : S → ℕ) (steps : (s : S) (xs : List A) → calls (test s xs).1 ≡ suc (calls s))
      (ranges : List (ℕ × ℕ)) (tests : ℕ) (s : S)
      → calls (first_match test target cut ranges tests s).world + tests
        ≡ calls s + (first_match test target cut ranges tests s).tests
  unfolding first_match
  first_match-tests calls steps [] tests s = refl
  first_match-tests calls steps (r ∷ ranges) tests s =
      ground (
        arith,
        steps s (cut r),
        first_match-tests calls steps ranges (tests + 1) (test s (cut r)).1,
      )
