-- ===== src/ContractEngine/Lock.antt =====
-- The loop of `build_consumption_lock` in crates/contract-engine/src/lib.rs, and the lock it ends in.
use wire_assume.Prelude.{
  if◌then◌else◌, Result, ok, err, ◌>>=◌, BTreeMap, get, is_empty, to_ascii_uppercase, Option, none,
  some, List, [], ◌∷◌, map,
}
use wire_assume.Model.Corpus.{ResponseRecord}
use wire_assume.Model.Canonical.{stable_id}
use wire_assume.Experiment.Report.{TrialResult, ExperimentReport}
use wire_assume.ContractEngine.Records.{
  ContractContext, ConsumptionLock, TargetRef, Requirement, Assumption, missing_baseline, json,
}
use wire_assume.ContractEngine.Build.{
  RequirementBuilder, AssumptionBuilder, Builders, Callees, Failure, error, panicked,
  update_requirement, update_assumption, evidence_ref,
}

abbrev pub no_builders : Builders
no_builders = record { requirements = []; assumptions = [] }

module _ {E : Type 0} (callees : Callees E) where
  open callees use {pointer, serde, requirement_value, assumption_value}

  -- The body of `for result in &report.results`, after the baseline is found.
  unfoldable pub step : TrialResult → ResponseRecord → Builders → Builders
  step result baseline b = record {
    requirements = update_requirement pointer b.requirements result baseline;
    assumptions = update_assumption b.assumptions result;
  }

  unfoldable pub collect :
      BTreeMap ResponseRecord → List TrialResult → Builders → Result (Failure E) Builders
  unfolding step
  collect baselines [] b = ok b
  collect baselines (result ∷ results) b = elim (get result.interaction_id baselines) [
    | none ↦ err (error (missing_baseline result.interaction_id))
    | some baseline ↦ collect baselines results (step result baseline b)
  ]

  -- `?` on a serde_json error.
  abbrev pub from_json : {A : Type 0} → Result E A → Result (Failure E) A
  from_json (ok a) = ok a
  from_json (err e) = err (error (json e))

  -- `RequirementBuilder::finish`: `expect` panics on a builder with no target.
  unfoldable pub finish_at : RequirementBuilder → Option TargetRef → Result (Failure E) Requirement
  finish_at b none = err (panicked "requirement builder is created only with a target")
  finish_at b (some target) = do
    id ← from_json (
        stable_id serde requirement_value "req"
          (target.kind, target.path, b.presence, b.types, b.nullable, b.accepted_empty))
    ok (record {
      id = id;
      target = target;
      presence = b.presence;
      types = b.types;
      nullable = b.nullable;
      accepted_empty = b.accepted_empty;
      confidence = "observed";
      severity = if is_empty b.severity then "low" else b.severity;
      evidence_refs = b.evidence_refs;
    })

  unfoldable pub finish_requirement : RequirementBuilder → Result (Failure E) Requirement
  unfolding finish_at
  finish_requirement b = finish_at b b.target

  unfoldable pub finish_assumption : AssumptionBuilder → Result (Failure E) Assumption
  finish_assumption b = do
    id ←
        from_json
          (stable_id serde assumption_value "asm" (b.assumption_type, b.target.path, b.behavior))
    ok (record {
      id = id;
      assumption_type = b.assumption_type;
      target = b.target;
      behavior = b.behavior;
      confidence = "observed";
      severity = b.severity;
      provider_comparison = "not-compared";
      evidence_refs = b.evidence_refs;
    })

  -- `into_values().map(finish).collect::<Result<Vec<_>, _>>()`
  unfoldable pub finish_all :
      {B A : Type 0} → (B → Result (Failure E) A) → BTreeMap B → Result (Failure E) (List A)
  finish_all f [] = ok []
  finish_all f ((k, b) ∷ m) = do a ← f b; rest ← finish_all f m; ok (a ∷ rest)

  unfoldable pub build_consumption_lock :
      ExperimentReport
      → BTreeMap ResponseRecord
      → ContractContext
      → Result (Failure E) ConsumptionLock
  unfolding collect finish_requirement finish_assumption finish_all
  build_consumption_lock report baselines context = do
    builders ← collect baselines report.results no_builders
    requirements ← finish_all finish_requirement builders.requirements
    assumptions ← finish_all finish_assumption builders.assumptions
    ok (record {
      schema = "wireassume.consumption/v1";
      metadata = record {
        tool_version = context.tool_version;
        generated_at = context.generated_at;
        seed = report.seed;
        source_revision = record {
          kind = context.source_revision_kind;
          value = context.source_revision;
        };
      };
      provider = record { id = context.provider_id; name = context.provider_name };
      consumer = record { id = context.consumer_id; name = context.consumer_name };
      scenario = record {
        id = context.scenario_id;
        name = context.scenario_name;
        oracle = context.oracle;
      };
      endpoint = record { method = to_ascii_uppercase context.method; path = context.path };
      requirements = requirements;
      assumptions = assumptions;
      evidence = map evidence_ref report.results;
      history = [];
    })
