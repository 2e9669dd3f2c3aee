-- ===== src/ContractEngine/Score.antt =====
-- The resilience score of crates/contract-engine/src/lib.rs.
use wire_assume.Prelude.{
  if◌then◌else◌, Bool-cases, filter, ℕ, ◌+◌, ◌-◌, ◌*◌, ◌/◌, ◌≤◌, ◌<◌, ◌≡◌, refl, sym, ap, ap₂, ◌∙◌,
  inl, inr, Bool, false, List, [], ◌∷◌, arith,
}
use native.Mathlib.Nat.{le-div_iff_mul-le, div-lt_iff_lt-mul}
use wire_assume.Experiment.Report.{TrialOutcome, trial_eq, TrialResult, ExperimentReport}
use wire_assume.ContractEngine.Kinds.{mutation_weight}
use wire_assume.ContractEngine.Analysis.{
  Tally, nothing_yet, tally_one, tally, score, analyze_contract,
}
use wire_assume.ContractEngine.Inconclusive.{is_decisive, decisive_only}

-- The weights, by a plain recursion: of the trials that have an outcome, and of those that passed.
abbrev pub weight_of : (TrialResult → Bool) → List TrialResult → ℕ
weight_of p [] = 0
weight_of p (r ∷ rs) = (if p r then mutation_weight r.kind else 0) + weight_of p rs

-- The weights of one report.
abbrev pub has_passed : TrialResult → Bool
has_passed r = trial_eq r.outcome TrialOutcome.pass

abbrev pub has_failed : TrialResult → Bool
has_failed r = trial_eq r.outcome TrialOutcome.fail

tally-weights :
    (results : List TrialResult) (t : Tally)
    → ((tally results t).passed_weight ≡ t.passed_weight + weight_of has_passed results)
      × ((tally results t).total_weight
          ≡ t.total_weight + weight_of has_passed results + weight_of has_failed results)
unfolding tally
tally-weights [] t = omega arith
tally-weights (r ∷ rs) t = ground (arith, tally-weights rs (tally_one r t))

abbrev quotient : ℕ → ℕ → ℕ
quotient p t = (p * 100 + t / 2) / t

quotient-upper : (p t : ℕ) → 0 < t → quotient p t * t ≤ p * 100 + t / 2
quotient-upper p t pos = (le-div_iff_mul-le pos).0 (omega arith)

quotient-lower : (p t : ℕ) → 0 < t → p * 100 + t / 2 < (quotient p t + 1) * t
quotient-lower p t pos = (div-lt_iff_lt-mul pos).0 (omega arith)

quotient-at-least : (p t k : ℕ) → 0 < t → k * t ≤ p * 100 + t / 2 → k ≤ quotient p t
quotient-at-least p t k pos h = (le-div_iff_mul-le pos).1 h

quotient-below : (p t k : ℕ) → 0 < t → p * 100 + t / 2 < k * t → quotient p t < k
quotient-below p t k pos h = (div-lt_iff_lt-mul pos).1 h

quotient-at-most : (p t : ℕ) → p ≤ t → 0 < t → quotient p t < 101
quotient-at-most p t le pos = quotient-below p t 101 pos (omega arith)

score-eq : (p t : ℕ) → p ≤ t → 0 < t → score p t ≡ quotient p t
unfolding score
score-eq p t le pos = ground (arith, quotient-at-most p t le pos)

-- s percent of t is p, rounded to the nearest.
abbrev pub Rounds : ℕ → ℕ → ℕ → Type 0
Rounds s p t = (2 * (s * t) ≤ 200 * p + t) × (200 * p ≤ 2 * (s * t) + t)

score-Rounds : (p t : ℕ) → p ≤ t → 0 < t → Rounds (score p t) p t
score-Rounds p t le pos =
    rw (score-eq p t le pos)
      (omega (arith, quotient-upper p t pos), omega (arith, quotient-lower p t pos))

score-rounds_up : (p t : ℕ) → p < t → 200 * (t - p) ≤ t → score p t ≡ 100
score-rounds_up p t less h =
    score-eq p t (omega arith) (omega arith)
    ∙ omega (
      arith,
      quotient-at-least p t 100 (omega arith) (omega arith),
      quotient-at-most p t (omega arith) (omega arith),
    )

tally-start :
    (results : List TrialResult)
    → ((tally results nothing_yet).passed_weight ≡ weight_of has_passed results)
      × ((tally results nothing_yet).total_weight
          ≡ weight_of has_passed results + weight_of has_failed results)
tally-start results = omega (arith, tally-weights results nothing_yet)

analyze-eq :
    (report : ExperimentReport)
    → (analyze_contract report).dependency_resilience_score
      ≡ score
          (weight_of has_passed report.results)
          (weight_of has_passed report.results + weight_of has_failed report.results)
unfolding analyze_contract
analyze-eq report = let (passed, total) = tally-start report.results in ap₂ score passed total

-- With some weight among the passed and failed trials of a report, its score is at most 100 and is the
-- percentage of that weight that passed, rounded to the nearest: twice the error is at most one percent.
pub analyze-Rounds :
    (report : ExperimentReport)
    → 0 < weight_of has_passed report.results + weight_of has_failed report.results
    → ((analyze_contract report).dependency_resilience_score ≤ 100)
      × Rounds
          (analyze_contract report).dependency_resilience_score
          (weight_of has_passed report.results)
          (weight_of has_passed report.results + weight_of has_failed report.results)
analyze-Rounds report pos =
    let p = weight_of has_passed report.results in
    let t = p + weight_of has_failed report.results in
    rw (analyze-eq report) (
      rw (score-eq p t (omega arith) pos) (omega (arith, quotient-at-most p t (omega arith) pos)),
      score-Rounds p t (omega arith) pos,
    )

-- A report in which the failed trials weigh something, but at most one two-hundredth of all that passed
-- or failed, has the score 100 all the same.
pub analyze-rounds_up :
    (report : ExperimentReport)
    → 0 < weight_of has_failed report.results
    → 200 * weight_of has_failed report.results
      ≤ weight_of has_passed report.results + weight_of has_failed report.results
    → (analyze_contract report).dependency_resilience_score ≡ 100
analyze-rounds_up report pos h = analyze-eq report ∙ score-rounds_up _ _ (omega arith) (omega arith)

weight_of-decisive :
    (p : TrialResult → Bool) (results : List TrialResult)
    → ((r : TrialResult) → is_decisive r ≡ false → p r ≡ false)
    → weight_of p (filter is_decisive results) ≡ weight_of p results
weight_of-decisive p [] h = refl
weight_of-decisive p (r ∷ rs) h = elim (Bool-cases (is_decisive r)) [
  | inl decisive ↦
      rw decisive
        (ap (λ n. (if p r then mutation_weight r.kind else 0) + n) (weight_of-decisive p rs h))
  | inr skipped ↦ rw (skipped, h r skipped) (omega (arith, weight_of-decisive p rs h))
]

-- The inconclusive trials do not change the score.
analyze-decisive_only :
    (report : ExperimentReport)
    → (analyze_contract (decisive_only report)).dependency_resilience_score
      ≡ (analyze_contract report).dependency_resilience_score
analyze-decisive_only report =
    analyze-eq (decisive_only report)
    ∙ ap₂ (λ p f. score p (p + f))
        (weight_of-decisive has_passed report.results (λ r h. ground arith))
        (weight_of-decisive has_failed report.results (λ r h. ground arith))
    ∙ sym (analyze-eq report)
