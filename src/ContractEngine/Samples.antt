-- ===== src/ContractEngine/Samples.antt =====
-- Runs of crates/contract-engine/src/lib.rs.
use wire_assume.Prelude.{
  str_eq, if◌then◌else◌, filter, All, ok, err, BTreeMap, get, insert, set_insert, ◌++ₛ◌,
  starts_with, to_ascii_uppercase, ℕ, zero, suc, ◌+◌, ◌≤◌, max, String, ◌≡◌, refl, ◌≢◌, true,
  Option, none, some, List, [], ◌∷◌, map, arith,
}
use wire_assume.Model.Json.{Value, Number}
use wire_assume.Model.Json
use wire_assume.Model.Corpus.{ResponseRecord, Body}
use wire_assume.Model.Canonical.{stable_id, sort_value}
use wire_assume.MutationEngine.Kind.{
  MutationKind, remove_field, null_field, wrong_primitive_type, remove_header, additional_header,
}
use wire_assume.Experiment.Report.{TrialOutcome, TrialResult, ExperimentReport}
use wire_assume.ContractEngine.Records.{ContractContext, ConsumptionLock}
use wire_assume.ContractEngine.Build.{
  Callees, panicked, assumption_key, target_ref, update_requirement, update_assumption,
  evidence_ref,
}
use wire_assume.ContractEngine.Kinds.{
  severity_for, assumption_from_failure, severity_rank, max_severity, mutation_weight,
}
use wire_assume.ContractEngine.Severity.{
  stated_severity, severity_for-eq-stated, severity_rank-max_severity,
}
use wire_assume.ContractEngine.Analysis.{analyze_contract}
use wire_assume.ContractEngine.Score.{
  weight_of, has_passed, has_failed, Rounds, analyze-Rounds, analyze-rounds_up,
}
use wire_assume.ContractEngine.Lock.{build_consumption_lock}
use wire_assume.ContractEngine.Promises.{IsJustified, build-IsJustified}
use wire_assume.ContractEngine.Accusations.{IsEarned, build-IsEarned, IsReported, build-IsReported}
use wire_assume.ContractEngine.Totality.{build-ne-panicked}
use wire_assume.ContractEngine.Inconclusive.{decisive_only, is_decisive, build-decisive_only}

-- A lookup that knows the first field of an object.
abbrev first_field : Value → String → Option Value
first_field (Value.object (Json.Fields.field k v fs)) path =
    if str_eq path ("/" ++ₛ k) then some v else none
first_field _ path = none

abbrev hex : String
hex = "0123456789abcdef0123456789abcdef0123456789abcdef0123456789abcdef"

abbrev callees : Callees String
callees = record {
  pointer = first_field;
  serde = record { to_vec = λ v. ok (123 ∷ 125 ∷ []); sha256_hex = λ bytes. hex };
  requirement_value = λ (kind, path, presence, types, nullable, accepted). ok (Value.string path);
  assumption_value = λ (t, path, behavior). ok (Value.string behavior);
}

abbrev response : ResponseRecord
response = record {
  status = 200;
  headers = [];
  body = Body.json (
      Value.object (
        Json.Fields.field "amount" (Value.number (record { text = "5"; is_integer = true }))
          Json.Fields.end));
}

abbrev baselines : BTreeMap ResponseRecord
baselines = ("get-order", response) ∷ []

abbrev trial : String → MutationKind → String → TrialOutcome → TrialResult
trial id kind target outcome = record {
  evidence_id = id;
  interaction_id = "get-order";
  mutation_id = id;
  kind = kind;
  target = target;
  description = "";
  outcome = outcome;
  duration_ms = 12;
  summary = "exit 1";
  artifact_refs = [];
}

abbrev trials : List TrialResult
trials =
    trial "ev1" remove_field "response.body/amount" TrialOutcome.fail
    ∷ trial "ev2" null_field "response.body/amount" TrialOutcome.pass
    ∷ trial "ev3" wrong_primitive_type "response.body/amount" TrialOutcome.fail
    ∷ trial "ev4" remove_header "response.header.etag" TrialOutcome.inconclusive
    ∷ []

abbrev report : ExperimentReport
report = record {
  run_id = "run";
  generated_at = "today";
  scenario_id = "checkout";
  source_revision = none;
  seed = 7;
  budget = 10;
  baseline = record { duration_ms = 10; summary = "exit 0"; artifact_refs = [] };
  planned_mutations = 4;
  executed_mutations = 4;
  passes = 1;
  failures = 2;
  inconclusive = 1;
  results = trials;
  minimizations = [];
}

abbrev context : ContractContext
context = record {
  tool_version = "0.1.0";
  generated_at = "today";
  provider_id = "orders";
  provider_name = "Orders";
  consumer_id = "shop";
  consumer_name = "Shop";
  scenario_id = "checkout";
  scenario_name = "Checkout";
  oracle = "exit-code";
  method = "get";
  path = "/orders/1";
  source_revision_kind = "git";
  source_revision = "abc";
}

program : Unit {0}
unfolding build_consumption_lock update_requirement update_assumption stable_id evidence_ref
    sort_value get starts_with insert assumption_from_failure assumption_key to_ascii_uppercase
    target_ref set_insert max_severity severity_for
program = tt

abbrev pub lock : ConsumptionLock
lock = record {
  schema = "wireassume.consumption/v1";
  metadata = record {
    tool_version = "0.1.0";
    generated_at = "today";
    seed = 7;
    source_revision = record { kind = "git"; value = "abc" };
  };
  provider = record { id = "orders"; name = "Orders" };
  consumer = record { id = "shop"; name = "Shop" };
  scenario = record { id = "checkout"; name = "Checkout"; oracle = "exit-code" };
  endpoint = record { method = "GET"; path = "/orders/1" };
  requirements =
      record {
        id = "req_0123456789abcdef0123";
        target = record { kind = "response-body"; path = "/amount" };
        presence = some "required";
        types = "integer" ∷ [];
        nullable = some true;
        accepted_empty = none;
        confidence = "observed";
        severity = "high";
        evidence_refs = "ev1" ∷ "ev2" ∷ "ev3" ∷ [];
      }
      ∷ [];
  assumptions =
      record {
        id = "asm_0123456789abcdef0123";
        assumption_type = "presence";
        target = record { kind = "response-body"; path = "/amount" };
        behavior = "value must be present";
        confidence = "observed";
        severity = "high";
        provider_comparison = "not-compared";
        evidence_refs = "ev1" ∷ [];
      }
      ∷ record {
        id = "asm_0123456789abcdef0123";
        assumption_type = "type";
        target = record { kind = "response-body"; path = "/amount" };
        behavior = "observed value type is significant";
        confidence = "observed";
        severity = "high";
        provider_comparison = "not-compared";
        evidence_refs = "ev3" ∷ [];
      }
      ∷ [];
  evidence = map evidence_ref trials;
  history = [];
}

build-trials : build_consumption_lock callees report baselines context ≡ ok lock
unfolding program
build-trials = refl

build-IsJustified_example : All (IsJustified trials) lock.requirements
build-IsJustified_example = build-IsJustified callees report baselines context lock build-trials

says_type :
    assumption_from_failure
      (trial "ev3" wrong_primitive_type "response.body/amount" TrialOutcome.fail)
    ≡ some ("type", "observed value type is significant", "high")
unfolding assumption_from_failure
says_type = refl

build-IsEarned_example : All (IsEarned trials) lock.assumptions
build-IsEarned_example = build-IsEarned callees report baselines context lock build-trials

build-IsReported_example :
    IsReported lock.assumptions
      (trial "ev3" wrong_primitive_type "response.body/amount" TrialOutcome.fail)
      "type"
      "observed value type is significant"
build-IsReported_example =
    build-IsReported callees report baselines context lock
      (trial "ev1" remove_field "response.body/amount" TrialOutcome.fail
        ∷ trial "ev2" null_field "response.body/amount" TrialOutcome.pass
        ∷ [])
      (trial "ev4" remove_header "response.header.etag" TrialOutcome.inconclusive ∷ [])
      (trial "ev3" wrong_primitive_type "response.body/amount" TrialOutcome.fail) "type"
      "observed value type is significant" "high" build-trials refl refl says_type

build-ne-panicked_example :
    build_consumption_lock callees report [] context
    ≢ err (panicked "requirement builder is created only with a target")
build-ne-panicked_example =
    build-ne-panicked callees "requirement builder is created only with a target" report [] context

build-decisive_only_example :
    build_consumption_lock callees (decisive_only report) baselines context
    ≡ ok (record lock { evidence = map evidence_ref (filter is_decisive trials) })
build-decisive_only_example = build-decisive_only callees report baselines context lock build-trials

severity_for-eq-stated_example :
    severity_for remove_header
    ≡ stated_severity (
        assumption_from_failure
          (trial "ev4" remove_header "response.header.etag" TrialOutcome.fail))
severity_for-eq-stated_example =
    severity_for-eq-stated (trial "ev4" remove_header "response.header.etag" TrialOutcome.fail)

severity_rank-max_severity_example :
    severity_rank (max_severity "medium" "high")
    ≡ max (severity_rank "medium") (severity_rank "high")
severity_rank-max_severity_example = severity_rank-max_severity "medium" "high"

-- Two trials of weight 4 failed and one passed.
weights : (weight_of has_passed trials ≡ 4) × (weight_of has_failed trials ≡ 8)
unfolding mutation_weight
weights = (refl, refl)

analyze-Rounds_example :
    ((analyze_contract report).dependency_resilience_score ≤ 100)
    × Rounds
        (analyze_contract report).dependency_resilience_score
        (weight_of has_passed trials)
        (weight_of has_passed trials + weight_of has_failed trials)
analyze-Rounds_example = analyze-Rounds report (omega (arith, weights))

abbrev repeat : ℕ → List TrialResult → List TrialResult
repeat zero rest = rest
repeat (suc n) rest =
    trial "ev5" remove_field "response.body/amount" TrialOutcome.pass ∷ repeat n rest

-- Fifty trials passed, and one of the least weight failed.
abbrev nearly_all : ExperimentReport
nearly_all = record report {
  results = repeat 50 (trial "ev6" additional_header "response.header.x" TrialOutcome.fail ∷ []);
}

nearly_all-weights :
    (weight_of has_passed nearly_all.results ≡ 200) × (weight_of has_failed nearly_all.results ≡ 1)
unfolding mutation_weight
nearly_all-weights = (refl, refl)

analyze-rounds_up_example : (analyze_contract nearly_all).dependency_resilience_score ≡ 100
analyze-rounds_up_example =
    analyze-rounds_up nearly_all (omega (arith, nearly_all-weights))
      (omega (arith, nearly_all-weights))
