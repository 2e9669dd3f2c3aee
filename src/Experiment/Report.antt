-- ===== src/Experiment/Report.antt =====
-- The records of evidence in crates/experiment/src/lib.rs and minimize.rs.
use wire_assume.Prelude.{ℕ, String, List, Option, Bool, true, false}
use wire_assume.MutationEngine.Kind.{MutationKind}

pub data TrialOutcome : Type 0 where
  pass fail inconclusive : TrialOutcome

-- The derived `PartialEq`.
abbrev pub trial_eq : TrialOutcome → TrialOutcome → Bool
trial_eq TrialOutcome.pass TrialOutcome.pass = true
trial_eq TrialOutcome.fail TrialOutcome.fail = true
trial_eq TrialOutcome.inconclusive TrialOutcome.inconclusive = true
trial_eq _ _ = false

pub record TrialResult : Type 0 where
  pub evidence_id : String
  pub interaction_id : String
  pub mutation_id : String
  pub kind : MutationKind
  pub target : String
  pub description : String
  pub outcome : TrialOutcome
  pub duration_ms : ℕ
  pub summary : String
  pub artifact_refs : List String

pub record BaselineResult : Type 0 where
  pub duration_ms : ℕ
  pub summary : String
  pub artifact_refs : List String

pub record ResponseMinimization : Type 0 where
  pub id : String
  pub interaction_id : String
  pub original_fields : List String
  pub minimal_fields : List String
  pub tests_executed : ℕ
  pub established : Bool
  pub artifact_ref : String

pub record ExperimentReport : Type 0 where
  pub run_id : String
  pub generated_at : String
  pub scenario_id : String
  pub source_revision : Option String
  pub seed : ℕ
  pub budget : ℕ
  pub baseline : BaselineResult
  pub planned_mutations : ℕ
  pub executed_mutations : ℕ
  pub passes : ℕ
  pub failures : ℕ
  pub inconclusive : ℕ
  pub results : List TrialResult
  pub minimizations : List ResponseMinimization
