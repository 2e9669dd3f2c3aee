-- ===== src/Experiment/RunSamples.antt =====
-- A run of crates/experiment/src/lib.rs with one case, and a reduction of two fields.
use wire_assume.Prelude.{
  ltb, if◌then◌else◌, Result, ok, err, get, insert, set_insert, is_some, replace_char, rsplit_once,
  ℕ, ◌+◌, String, ◌≡◌, refl, ◌≢◌, Bool, false, Option, none, some, List, [], ◌∷◌,
}
use wire_assume.Model.Json.{null, object, Fields, end, field}
use wire_assume.Model.Objects.{get_key}
use wire_assume.Model.Canonical.{Serde, stable_id, stable_hash, canonical_json, sort_value}
use wire_assume.Model.Corpus.{Body, Interaction, ResponseRecord}
use wire_assume.Model.Redaction.{default_policy, Regexes}
use wire_assume.Model.Files.{
  Faults, make_dirs, perform, write_file, clear_file, delete_file, erase, rename_file, write_atomic,
  with_tmp,
}
use wire_assume.MutationEngine.Kind
use wire_assume.DeltaDebugger.{TestOutcome}
use wire_assume.Oracles.{OracleStatus, OracleResult, OracleError, Oracle}
use wire_assume.Oracles
use wire_assume.Proxy.{ResponseOverride, World}
use wire_assume.Experiment.Report.{TrialOutcome, ExperimentReport, ResponseMinimization}
use wire_assume.Experiment.Minimize.{
  MinimizationIds, minimize_response_fields, minimize_object, MinimizationFingerprint,
  MinimizationArtifact, verdict_of,
}
use wire_assume.Experiment.Minimize.Laws.{minimize_object-total}
use wire_assume.Experiment.Plan.{ExperimentConfig, ExperimentCase}
use wire_assume.Experiment.Artifacts.{
  RunCodec, RunError, oracle_artifact, persist_run_artifact, persist_evidence_artifact,
  persist_artifact, persist_report, write_atomic_json,
}
use wire_assume.Experiment.Run.{
  RunState, Runner, artifact_of, record_trial, run_case, run_cases, interaction_ids, minimize_one,
  minimize_all, report_of, run_trials, save_baseline, after_baseline, run_baseline, run_planned,
  run,
}
use wire_assume.Experiment.Run.Laws.{IsQuiet, run-IsQuiet}
use wire_assume.Experiment.Run.Outcomes.{IsReport, run-IsReport}

abbrev serde : Serde String
serde = record { to_vec = λ value. ok (1 ∷ []); sha256_hex = λ bytes. "0a1b2c3d4e5f6a7b8c9d0e" }

abbrev minimization_id : MinimizationFingerprint → String
minimization_id f = "min_0a1b2c3d4e5f6a7b8c9d"

id_is :
    (f : MinimizationFingerprint) → stable_id serde (λ _. ok null) "min" f ≡ ok (minimization_id f)
unfolding stable_id stable_hash canonical_json sort_value
id_is f = refl

abbrev ids : MinimizationIds String
ids = record {
  serde = serde;
  to_value = λ _. ok null;
  minimization_id = minimization_id;
  id_is = id_is;
}

abbrev codec : RunCodec String
codec = record {
  run_value = λ _. ok null;
  evidence_value = λ _. ok null;
  oracle_value = λ _. ok null;
  minimization_value = λ _. ok null;
  report_value = λ _. ok null;
}

abbrev answer : OracleStatus → OracleResult
answer status = record {
  status = status;
  duration_ms = 1;
  summary = "done";
  stdout = "";
  stderr = "";
}

-- The consumer needs a status below 300.
abbrev status_for : Option ResponseOverride → OracleStatus
status_for none = Oracles.pass
status_for (some o) = if ltb o.response.status 300 then Oracles.pass else Oracles.fail

-- The world counts the evaluations.
abbrev oracle : Oracle ℕ
oracle = record { kind = "command"; evaluate = λ o n. (ok (answer (status_for o)), n + 1) }

abbrev response : ResponseRecord
response = record { status = 200; headers = []; body = Body.empty }

abbrev interaction : Interaction
interaction = record {
  request = record { method = "GET"; uri = "/orders"; headers = []; body = Body.empty };
  response = response;
  metadata = record {
    captured_at = "today";
    duration_ms = 3;
    provider_id = "p";
    scenario_id = "s";
    correlation_id = none;
  };
}

abbrev case : ExperimentCase
case = record {
  interaction_id = "int_1";
  mutation = record {
    id = "mut_1";
    kind = Kind.status_code;
    target = "response.status";
    description = "change HTTP status to 500";
    response = record response { status = 500 };
    delay_ms = 0;
  };
}

abbrev faults : Faults String
faults = record { fault = λ n op. none; not_found = λ path. path; left = λ n bytes. [] }

abbrev new_regex : Regexes
new_regex pattern = none

abbrev runner : Runner String String ℕ
runner = record {
  plan_cases = λ config d. ok (case ∷ []);
  load_interaction = λ id d. (ok interaction, d);
  workspace = "w";
  oracle = oracle;
  redaction = default_policy;
  new_regex = new_regex;
  faults = faults;
  serde = serde;
  codec = codec;
  minimization_ids = ids;
  now = "today";
}

abbrev config : ExperimentConfig
config = record {
  scenario_id = "s";
  method = "GET";
  path_pattern = "/orders";
  seed = 42;
  budget = 10;
  include = [];
  exclude = [];
  source_revision = none;
}

abbrev initial : RunState ℕ
initial = record {
  world = record { active = none; outside = 0 };
  disk = record { files = []; dirs = []; clock = 0 };
}

run-IsQuiet_example : IsQuiet (run runner config initial).1
run-IsQuiet_example = run-IsQuiet runner config initial refl

abbrev nothing : ExperimentReport
nothing = record {
  run_id = "";
  generated_at = "";
  scenario_id = "";
  source_revision = none;
  seed = 0;
  budget = 0;
  baseline = record { duration_ms = 0; summary = ""; artifact_refs = [] };
  planned_mutations = 0;
  executed_mutations = 0;
  passes = 0;
  failures = 0;
  inconclusive = 0;
  results = [];
  minimizations = [];
}

abbrev reported : Result (RunError String String) ExperimentReport → ExperimentReport
reported (ok report) = report
reported (err e) = nothing

steady :
    (o : Option ResponseOverride) (n : ℕ)
    → (artifact_of runner (oracle.evaluate o n).0).outcome
      ≡ (oracle_artifact new_regex default_policy "command" (ok (answer (status_for o)))).outcome
steady o n = refl

abbrev outcome_for : Option ResponseOverride → TrialOutcome
outcome_for o =
    (oracle_artifact new_regex default_policy "command" (ok (answer (status_for o)))).outcome

ends :
    run runner config initial
    ≡ (ok (reported (run runner config initial).0), (run runner config initial).1)
unfolding run run_planned run_baseline save_baseline persist_run_artifact persist_artifact make_dirs
    perform write_atomic_json write_atomic with_tmp write_file clear_file delete_file erase
    rename_file after_baseline run_trials run_cases run_case record_trial persist_evidence_artifact
    minimize_all minimize_one minimize_response_fields interaction_ids report_of persist_report
    oracle_artifact stable_id stable_hash canonical_json sort_value rsplit_once get insert
    set_insert replace_char
ends = refl

run-IsReport_example :
    (cases : List ExperimentCase) × (runner.plan_cases config initial.disk ≡ ok cases)
    × IsReport runner outcome_for steady cases (reported (run runner config initial).0)
run-IsReport_example =
    run-IsReport runner outcome_for steady config initial (run runner config initial).1
      (reported (run runner config initial).0) ends

-- Two fields, of which the consumer needs one.
abbrev values : Fields
values = field "id" null (field "note" null end)

abbrev has_id : Body → Bool
has_id (Body.json (object fs)) = is_some (get_key "id" fs)
has_id _ = false

abbrev needs_id : Oracle ℕ
needs_id = record {
  kind = "command";
  evaluate = λ o n. (
    ok (
        answer (elim o [
          | none ↦ Oracles.pass
          | some r ↦ if has_id r.response.body then Oracles.pass else Oracles.fail
        ])),
    n + 1,
  );
}

abbrev verdict_for : ResponseOverride → TestOutcome
verdict_for o = (verdict_of (needs_id.evaluate (some o) 0).0).outcome

abbrev extract {ℓ} : {A : Type ℓ} (o : Option A) → o ≢ none → A
extract none h = absurd (h refl)
extract (some a) h = a

abbrev object_response : ResponseRecord
object_response = record response { body = Body.json (object values) }

abbrev reduced : (ResponseMinimization × MinimizationArtifact) × World ℕ
reduced =
    extract
      (minimize_object ids new_regex default_policy needs_id "int_1" object_response values
        initial.world)
      (minimize_object-total ids new_regex default_policy needs_id "int_1" object_response values
        initial.world)
