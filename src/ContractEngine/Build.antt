-- ===== src/ContractEngine/Build.antt =====
-- `build_consumption_lock` of crates/contract-engine/src/lib.rs. `Value::pointer` of serde_json is a
-- parameter, and so is what serde writes for the two fingerprints.
use wire_assume.Prelude.{
  str_eq, if◌then◌else◌, Result, BTreeMap, get, insert, BTreeSet, set_insert, ◌++ₛ◌, strip_prefix,
  starts_with, contains_str, is_empty, String, Bool, true, false, not, ◌||◌, Option, none, some, [],
}
use wire_assume.Model.Json.{Value}
use wire_assume.Model.Corpus.{ResponseRecord, Body}
use wire_assume.Model.Canonical.{Serde}
use wire_assume.MutationEngine.Kind.{
  MutationKind, remove_field, null_field, empty_string, wrong_primitive_type,
}
use wire_assume.Experiment.Report.{TrialOutcome, trial_eq, TrialResult}
use wire_assume.ContractEngine.Kinds.{assumption_from_failure, severity_for, max_severity}
use wire_assume.ContractEngine.Records.{TargetRef, EvidenceRef, ContractError}

unfoldable pub value_type : Value → String
value_type Value.null = "null"
value_type (Value.bool _) = "boolean"
value_type (Value.number n) = if n.is_integer then "integer" else "number"
value_type (Value.string _) = "string"
value_type (Value.array _) = "array"
value_type (Value.object _) = "object"

unfoldable pub target_ref : String → TargetRef
target_ref target = elim (strip_prefix target "response.body") [
  | some path ↦ record { kind = "response-body"; path = if is_empty path then "/" else path }
  | none ↦
      if str_eq target "response.status"
      then record { kind = "response-status"; path = "status" }
      else elim (strip_prefix target "response.header.") [
        | some path ↦ record { kind = "response-header"; path = path }
        | none ↦
            if starts_with target "timing."
            then record { kind = "timing"; path = target }
            else if contains_str target "pagination" || contains_str target "cursor"
            then record { kind = "pagination"; path = target }
            else record { kind = "response-body"; path = target }
      ]
]

unfoldable pub evidence_ref : TrialResult → EvidenceRef
evidence_ref result = record {
  id = result.evidence_id;
  interaction_id = result.interaction_id;
  mutation_id = result.mutation_id;
  outcome = elim result.outcome [
    | TrialOutcome.pass ↦ "pass"
    | TrialOutcome.fail ↦ "fail"
    | TrialOutcome.inconclusive ↦ "inconclusive"
  ];
  failure_summary = if trial_eq result.outcome TrialOutcome.fail then some result.summary else none;
  artifact_refs = result.artifact_refs;
}

pub record RequirementBuilder : Type 0 where
  pub target : Option TargetRef
  pub presence : Option String
  pub types : BTreeSet
  pub nullable : Option Bool
  pub accepted_empty : Option Bool
  pub severity : String
  pub evidence_refs : BTreeSet

-- The derived `Default`.
abbrev pub default_builder : RequirementBuilder
default_builder = record {
  target = none;
  presence = none;
  types = [];
  nullable = none;
  accepted_empty = none;
  severity = "";
  evidence_refs = [];
}

pub record AssumptionBuilder : Type 0 where
  pub assumption_type : String
  pub target : TargetRef
  pub behavior : String
  pub severity : String
  pub evidence_refs : BTreeSet

unfoldable pub or_default : Option RequirementBuilder → RequirementBuilder
or_default none = default_builder
or_default (some b) = b

-- `matches!(result.kind, …)` of `update_requirement`.
unfoldable pub is_relevant : MutationKind → Bool
is_relevant remove_field = true
is_relevant null_field = true
is_relevant empty_string = true
is_relevant wrong_primitive_type = true
is_relevant _ = false

-- The `TrialOutcome::Fail` test.
abbrev pub failed : TrialResult → Bool
failed result = trial_eq result.outcome TrialOutcome.fail

-- Everything that is called and not written here.
pub record Callees (E : Type 0) : Type 0 where
  pub pointer : Value → String → Option Value
  pub serde : Serde E
  -- (kind, path, presence, types, nullable, accepted_empty)
  pub requirement_value :
      String × String × Option String × BTreeSet × Option Bool × Option Bool → Result E Value
  -- (type, path, behavior)
  pub assumption_value : String × String × String → Result E Value

-- A panic of `expect` is an outcome of its own.
pub data Failure (E : Type 0) : Type 0 where
  error : ContractError E → Failure E
  panicked : String → Failure E

-- `if let Some(value_type) = … { builder.types.insert(…) }`
unfoldable pub add_type : Option String → RequirementBuilder → RequirementBuilder
add_type none b = b
add_type (some t) b = record b { types = set_insert t b.types }

-- The `match result.kind`, for a result that failed or passed.
unfoldable pub note_kind :
    MutationKind → Bool → Option String → RequirementBuilder → RequirementBuilder
unfolding add_type
note_kind remove_field failed found b = record b {
  presence = some (if failed then "required" else "optional");
}
note_kind null_field failed found b = record b { nullable = some (not failed) }
note_kind empty_string failed found b = record b { accepted_empty = some (not failed) }
note_kind wrong_primitive_type true found b = add_type found b
note_kind _ failed found b = b

unfoldable pub note_severity : TrialResult → RequirementBuilder → RequirementBuilder
note_severity result b =
    if failed result
    then record b { severity = max_severity b.severity (severity_for result.kind) }
    else b

module _ (pointer : Value → String → Option Value) where
  unfoldable pub type_at : Option Value → Option String
  unfolding value_type
  type_at none = none
  type_at (some value) = some (value_type value)

  unfoldable pub type_in : Body → String → Option String
  unfolding type_at
  type_in (Body.json value) path =
      if is_empty path then type_at (some value) else type_at (pointer value path)
  type_in _ path = none

  unfoldable pub baseline_type_at_target : ResponseRecord → String → Option String
  unfolding type_in
  baseline_type_at_target baseline target = elim (strip_prefix target "response.body") [
    | none ↦ none
    | some path ↦ type_in baseline.body path
  ]

  -- What happens to the builder of the result's target.
  unfoldable pub update_builder :
      TrialResult → ResponseRecord → Option RequirementBuilder → RequirementBuilder
  unfolding note_kind baseline_type_at_target or_default note_severity
  update_builder result baseline entry =
      let b = or_default entry in
      note_severity result (
        note_kind result.kind (failed result) (baseline_type_at_target baseline result.target)
          (record b {
            target = some (target_ref result.target);
            evidence_refs = set_insert result.evidence_id b.evidence_refs;
          }))

  unfoldable pub update_requirement :
      BTreeMap RequirementBuilder → TrialResult → ResponseRecord → BTreeMap RequirementBuilder
  unfolding update_builder is_relevant
  update_requirement builders result baseline =
      if trial_eq result.outcome TrialOutcome.inconclusive
        || not (starts_with result.target "response.body")
      then builders
      else if not (is_relevant result.kind)
      then builders
      else insert result.target (update_builder result baseline (get result.target builders))
          builders

-- `format!("{assumption_type}\u{0}{}\u{0}{behavior}", result.target)`
unfoldable pub assumption_key : String → String → String → String
assumption_key assumption_type target behavior =
    assumption_type ++ₛ "\0" ++ₛ target ++ₛ "\0" ++ₛ behavior

-- `or_insert_with`.
unfoldable pub or_new :
    String → String × String × String → Option AssumptionBuilder → AssumptionBuilder
or_new target (assumption_type, behavior, severity) none = record {
  assumption_type = assumption_type;
  target = target_ref target;
  behavior = behavior;
  severity = severity;
  evidence_refs = [];
}
or_new target _ (some b) = b

-- The entry of the result's key, with its evidence.
unfoldable pub add_evidence :
    TrialResult
    → Option (String × String × String)
    → BTreeMap AssumptionBuilder
    → BTreeMap AssumptionBuilder
unfolding or_new
add_evidence result none builders = builders
add_evidence result (some (assumption_type, behavior, severity)) builders =
    let key = assumption_key assumption_type result.target behavior in
    let b = or_new result.target (assumption_type, behavior, severity) (get key builders) in
    insert key (record b { evidence_refs = set_insert result.evidence_id b.evidence_refs }) builders

unfoldable pub update_assumption :
    BTreeMap AssumptionBuilder → TrialResult → BTreeMap AssumptionBuilder
unfolding add_evidence
update_assumption builders result =
    if failed result
    then add_evidence result (assumption_from_failure result) builders
    else builders

-- The two maps of the loop.
pub record Builders : Type 0 where
  pub requirements : BTreeMap RequirementBuilder
  pub assumptions : BTreeMap AssumptionBuilder
