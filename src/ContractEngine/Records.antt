-- ===== src/ContractEngine/Records.antt =====
-- The records of crates/contract-engine/src/lib.rs.
use wire_assume.Prelude.{ℕ, String, List, Option, Bool}
use wire_assume.MutationEngine.Kind.{MutationKind}
use wire_assume.Experiment.Report.{TrialOutcome}

pub record ContractContext : Type 0 where
  pub tool_version : String
  pub generated_at : String
  pub provider_id : String
  pub provider_name : String
  pub consumer_id : String
  pub consumer_name : String
  pub scenario_id : String
  pub scenario_name : String
  pub oracle : String
  pub method : String
  pub path : String
  pub source_revision_kind : String
  pub source_revision : String

pub record RevisionRef : Type 0 where
  pub kind : String
  pub value : String

pub record ContractMetadata : Type 0 where
  pub tool_version : String
  pub generated_at : String
  pub seed : ℕ
  pub source_revision : RevisionRef

pub record Party : Type 0 where
  pub id : String
  pub name : String

pub record ScenarioRef : Type 0 where
  pub id : String
  pub name : String
  pub oracle : String

pub record EndpointRef : Type 0 where
  pub method : String
  pub path : String

pub record TargetRef : Type 0 where
  pub kind : String
  pub path : String

pub record Requirement : Type 0 where
  pub id : String
  pub target : TargetRef
  pub presence : Option String
  pub types : List String
  pub nullable : Option Bool
  pub accepted_empty : Option Bool
  pub confidence : String
  pub severity : String
  pub evidence_refs : List String

-- `assumption_type` is serialized as `type`.
pub record Assumption : Type 0 where
  pub id : String
  pub assumption_type : String
  pub target : TargetRef
  pub behavior : String
  pub confidence : String
  pub severity : String
  pub provider_comparison : String
  pub evidence_refs : List String

pub record EvidenceRef : Type 0 where
  pub id : String
  pub interaction_id : String
  pub mutation_id : String
  pub outcome : String
  pub failure_summary : Option String
  pub artifact_refs : List String

pub record HistoryEntry : Type 0 where
  pub revision : RevisionRef
  pub assumption_ids : List String

pub record ConsumptionLock : Type 0 where
  pub schema : String
  pub metadata : ContractMetadata
  pub provider : Party
  pub consumer : Party
  pub scenario : ScenarioRef
  pub endpoint : EndpointRef
  pub requirements : List Requirement
  pub assumptions : List Assumption
  pub evidence : List EvidenceRef
  pub history : List HistoryEntry

pub record ToleranceCell : Type 0 where
  pub mutation : MutationKind
  pub outcome : TrialOutcome
  pub evidence_id : String

pub record ToleranceMap : Type 0 where
  pub target : String
  pub cells : List ToleranceCell

pub record ContractAnalysis : Type 0 where
  pub dependency_resilience_score : ℕ
  pub decisive_trials : ℕ
  pub failing_trials : ℕ
  pub tolerance : List ToleranceMap

-- `Json` carries the error of serde_json; `Yaml` is met only by the YAML writer.
pub data ContractError {ℓ} (E : Type ℓ) : Type ℓ where
  missing_baseline : String → ContractError E
  json : E → ContractError E
