-- ===== src/ContractEngine/Analysis.antt =====
-- `analyze_contract` of crates/contract-engine/src/lib.rs. The weights are `u64`; a sum of weights of at
-- most 8 for each result, times 100, stays far below 2^64 for any list that fits in memory.
use wire_assume.Prelude.{
  then_cmp, ◌==◌, if◌then◌else◌, str_cmp, sort_by, BTreeMap, get, insert, ℕ, ◌+◌, ◌*◌, ◌/◌, min,
  Ordering, not, ◌&&◌, Option, none, some, List, [], ◌∷◌, ◌++◌,
}
use wire_assume.MutationEngine.Kind.{kind_cmp}
use wire_assume.Experiment.Report.{TrialOutcome, trial_eq, TrialResult, ExperimentReport}
use wire_assume.ContractEngine.Records.{ToleranceCell, ToleranceMap, ContractAnalysis}
use wire_assume.ContractEngine.Kinds.{mutation_weight}

-- The variables of the loop.
pub record Tally : Type 0 where
  pub by_target : BTreeMap (List ToleranceCell)
  pub passed_weight : ℕ
  pub total_weight : ℕ

abbrev pub nothing_yet : Tally
nothing_yet = record { by_target = []; passed_weight = 0; total_weight = 0 }

-- `entry(…).or_default()`
or_empty : Option (List ToleranceCell) → List ToleranceCell
or_empty none = []
or_empty (some cells) = cells

unfoldable pub cell_of : TrialResult → ToleranceCell
cell_of result = record {
  mutation = result.kind;
  outcome = result.outcome;
  evidence_id = result.evidence_id;
}

-- The body of `for result in &report.results`.
unfoldable pub tally_one : TrialResult → Tally → Tally
unfolding or_empty cell_of
tally_one result t =
    let decisive = not (trial_eq result.outcome TrialOutcome.inconclusive) in
    let weight = mutation_weight result.kind in
    record {
      by_target =
          insert result.target (or_empty (get result.target t.by_target) ++ cell_of result ∷ [])
            t.by_target;
      passed_weight =
          if decisive && trial_eq result.outcome TrialOutcome.pass
          then t.passed_weight + weight
          else t.passed_weight;
      total_weight = if decisive then t.total_weight + weight else t.total_weight;
    }

unfoldable pub tally : List TrialResult → Tally → Tally
unfolding tally_one
tally [] t = t
tally (result ∷ results) t = tally results (tally_one result t)

-- `(passed * 100 + total / 2).checked_div(total).unwrap_or(0).min(100)`
unfoldable pub score : ℕ → ℕ → ℕ
score passed total = min (if total == 0 then 0 else (passed * 100 + total / 2) / total) 100

unfoldable pub cell_cmp : ToleranceCell → ToleranceCell → Ordering
cell_cmp a b = then_cmp (kind_cmp a.mutation b.mutation) (str_cmp a.evidence_id b.evidence_id)

-- The sort of every value, and `into_iter().map(…)`.
unfoldable pub tolerance_maps : BTreeMap (List ToleranceCell) → List ToleranceMap
unfolding cell_cmp
tolerance_maps [] = []
tolerance_maps ((target, cells) ∷ m) =
    record { target = target; cells = sort_by cell_cmp cells } ∷ tolerance_maps m

unfoldable pub analyze_contract : ExperimentReport → ContractAnalysis
unfolding tally score tolerance_maps
analyze_contract report =
    let t = tally report.results nothing_yet in
    record {
      dependency_resilience_score = score t.passed_weight t.total_weight;
      decisive_trials = report.passes + report.failures;
      failing_trials = report.failures;
      tolerance = tolerance_maps t.by_target;
    }
