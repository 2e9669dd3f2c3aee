-- ===== src/Experiment/Run.antt =====
-- `ExperimentRunner::run` of crates/experiment/src/lib.rs: the baseline, the trials, the minimizations and
-- the report. The plan and the corpus are parameters, which Runner fills.
pub mod Laws
pub mod Outcomes
use wire_assume.Prelude.{
  if◌then◌else◌, length, filter, Result, ok, err, str_cmp, sort_by, BTreeSet, set_insert,
  put_before, ℕ, ◌-◌, String, Option, none, some, List, [], ◌∷◌, ◌++◌, map,
}
use wire_assume.Model.Canonical.{Serde, canonical_json, stable_id}
use wire_assume.Model.Corpus.{Interaction}
use wire_assume.Model.Redaction.{RedactionPolicy, Regexes}
use wire_assume.Model.Files.{Disk, Faults, and_then}
use wire_assume.Model.Store.{CorpusError}
use wire_assume.Oracles.{OracleResult, OracleError, Oracle}
use wire_assume.Proxy.{ResponseOverride, World, apply, reset}
use wire_assume.Experiment.Report.{
  TrialOutcome, trial_eq, TrialResult, BaselineResult, ExperimentReport, ResponseMinimization,
}
use wire_assume.Experiment.Report
use wire_assume.Experiment.Minimize.{
  MinimizationIds, MinimizationArtifact, minimize_response_fields,
}
use wire_assume.Experiment.Plan.{ExperimentConfig, ExperimentCase, ExperimentError}
use wire_assume.Experiment.Plan
use wire_assume.Experiment.Artifacts.{
  OracleArtifact, RunCodec, RunError, planning, baseline_failed, serialize, out_of_fuel,
  oracle_artifact, of_serde, persist_run_artifact, persist_evidence_artifact, persist_report,
}

pub record RunState (S : Type 0) : Type 0 where
  pub world : World S
  pub disk : Disk

-- What the runner is made of, and what it calls of other crates.
pub record Runner (E Io S : Type 0) : Type 0 where
  pub plan_cases :
      ExperimentConfig → Disk → Result (ExperimentError (CorpusError E Io)) (List ExperimentCase)
  pub load_interaction : String → Disk → Result (CorpusError E Io) Interaction × Disk
  pub workspace : String
  pub oracle : Oracle S
  pub redaction : RedactionPolicy
  pub new_regex : Regexes
  pub faults : Faults Io
  pub serde : Serde E
  pub codec : RunCodec E
  pub minimization_ids : MinimizationIds E
  pub now : String

abbrev pub override_of : ExperimentCase → ResponseOverride
override_of c = record {
  interaction_id = c.interaction_id;
  response = c.mutation.response;
  delay_ms = c.mutation.delay_ms;
}

abbrev pub count_of : TrialOutcome → List TrialResult → ℕ
count_of outcome results = length (filter (λ (r : TrialResult). trial_eq r.outcome outcome) results)

module _ {E Io S : Type 0} (runner : Runner E Io S) where
  -- A step on the files alone.
  abbrev pub on_disk :
      {A : Type 0}
      → World S
      → Result (RunError E Io) A × Disk
      → Result (RunError E Io) A × RunState S
  on_disk w (result, d) = (result, record { world = w; disk = d })

  -- `self.oracle.evaluate().await`
  abbrev pub evaluate : World S → Result OracleError OracleResult × World S
  evaluate w =
      let (answer, outside) = runner.oracle.evaluate w.active w.outside in
      (answer, record w { outside = outside })

  abbrev pub artifact_of : Result OracleError OracleResult → OracleArtifact
  artifact_of = oracle_artifact runner.new_regex runner.redaction runner.oracle.kind

  abbrev pub text_of : OracleArtifact → Result E (List ℕ)
  text_of = canonical_json runner.serde runner.codec.oracle_value

  abbrev pub trial_result : String → ExperimentCase → OracleArtifact → String → TrialResult
  trial_result evidence_id c artifact artifact_ref = record {
    evidence_id = evidence_id;
    interaction_id = c.interaction_id;
    mutation_id = c.mutation.id;
    kind = c.mutation.kind;
    target = c.mutation.target;
    description = c.mutation.description;
    outcome = artifact.outcome;
    duration_ms = artifact.duration_ms;
    summary = artifact.summary;
    artifact_refs = artifact_ref ∷ [];
  }

  -- What is written of one trial.
  unfoldable pub record_trial :
      String → ExperimentCase → OracleArtifact → Disk → Result (RunError E Io) TrialResult × Disk
  unfolding persist_evidence_artifact
  record_trial run_id c artifact d =
      and_then
        (of_serde runner.faults runner.serde runner.workspace
          (stable_id runner.serde runner.codec.evidence_value "ev" (record {
            run_id = run_id;
            interaction_id = c.interaction_id;
            mutation_id = c.mutation.id;
            outcome = artifact.outcome;
          }))
          d)
        (λ evidence_id d1.
          and_then
            (persist_evidence_artifact runner.faults runner.serde runner.workspace evidence_id
              "oracle.json" (text_of artifact) d1)
            (λ artifact_ref d2. (ok (trial_result evidence_id c artifact artifact_ref), d2)))

  -- One round of the loop over the cases.
  unfoldable pub run_case :
      String → ExperimentCase → RunState S → Result (RunError E Io) TrialResult × RunState S
  unfolding record_trial
  run_case run_id c st =
      let (answer, after) = evaluate (apply (override_of c) st.world) in
      on_disk (reset after) (record_trial run_id c (artifact_of answer) st.disk)

  unfoldable pub run_cases :
      String
      → List ExperimentCase
      → RunState S
      → Result (RunError E Io) (List TrialResult) × RunState S
  unfolding run_case
  run_cases run_id [] st = (ok [], st)
  run_cases run_id (c ∷ cases) st = and_then (run_case run_id c st) (λ result st1.
      and_then (run_cases run_id cases st1) (λ results st2. (ok (result ∷ results), st2)))

  -- `cases.iter().map(|case| case.interaction_id.clone()).collect()` into a `BTreeSet`.
  unfoldable pub interaction_ids : List ExperimentCase → BTreeSet
  interaction_ids [] = []
  interaction_ids (c ∷ cases) = set_insert c.interaction_id (interaction_ids cases)

  -- The artifact of a minimization, where there is one.
  abbrev pub save_minimization :
      String
      → Option (ResponseMinimization × MinimizationArtifact)
      → Disk
      → Result (RunError E Io) (List ResponseMinimization) × Disk
  save_minimization run_id none d = (ok [], d)
  save_minimization run_id (some (summary, artifact)) d =
      and_then
        (persist_run_artifact runner.faults runner.serde runner.workspace run_id
          (put_before "minimization-" (put_before summary.id ".json"))
          (canonical_json runner.serde runner.codec.minimization_value artifact) d)
        (λ artifact_ref d1. (ok (record summary { artifact_ref = artifact_ref } ∷ []), d1))

  abbrev pub after_minimize :
      String
      → Disk
      → Option (Option (ResponseMinimization × MinimizationArtifact) × World S)
      → World S
      → Result (RunError E Io) (List ResponseMinimization) × RunState S
  after_minimize run_id d none w = (err out_of_fuel, record { world = w; disk = d })
  after_minimize run_id d (some (m, w')) w = on_disk w' (save_minimization run_id m d)

  abbrev pub of_corpus :
      Result (CorpusError E Io) Interaction × Disk → Result (RunError E Io) Interaction × Disk
  of_corpus (ok i, d) = (ok i, d)
  of_corpus (err e, d) = (err (planning (Plan.corpus e)), d)

  unfoldable pub minimize_one :
      String → String → RunState S → Result (RunError E Io) (List ResponseMinimization) × RunState S
  unfolding minimize_response_fields persist_run_artifact
  minimize_one run_id interaction_id st =
      and_then (on_disk st.world (of_corpus (runner.load_interaction interaction_id st.disk)))
        (λ interaction st1.
          after_minimize run_id st1.disk
            (minimize_response_fields runner.minimization_ids runner.new_regex runner.redaction
              runner.oracle interaction_id interaction.response st1.world)
            st1.world)

  unfoldable pub minimize_all :
      String
      → List String
      → RunState S
      → Result (RunError E Io) (List ResponseMinimization) × RunState S
  unfolding minimize_one
  minimize_all run_id [] st = (ok [], st)
  minimize_all run_id (interaction_id ∷ ids) st =
      and_then (minimize_one run_id interaction_id st) (λ first st1.
        and_then (minimize_all run_id ids st1) (λ others st2. (ok (first ++ others), st2)))

  unfoldable pub report_of :
      ExperimentConfig
      → String
      → BaselineResult
      → List ExperimentCase
      → List TrialResult
      → List ResponseMinimization
      → ExperimentReport
  report_of config run_id baseline cases results minimizations =
      let passes = count_of Report.pass results in
      let failures = count_of Report.fail results in
      record {
        run_id = run_id;
        generated_at = runner.now;
        scenario_id = config.scenario_id;
        source_revision = config.source_revision;
        seed = config.seed;
        budget = config.budget;
        baseline = baseline;
        planned_mutations = length cases;
        executed_mutations = length results;
        passes = passes;
        failures = failures;
        inconclusive = length results - passes - failures;
        results = results;
        minimizations =
            sort_by (λ (a b : ResponseMinimization). str_cmp a.interaction_id b.interaction_id)
              minimizations;
      }

  -- After the baseline has passed.
  unfoldable pub run_trials :
      ExperimentConfig
      → String
      → BaselineResult
      → List ExperimentCase
      → RunState S
      → Result (RunError E Io) ExperimentReport × RunState S
  unfolding run_cases minimize_all interaction_ids report_of persist_report
  run_trials config run_id baseline cases st = and_then (run_cases run_id cases st) (λ results st1.
      and_then (minimize_all run_id (interaction_ids cases) st1) (λ minimizations st2.
        let report = report_of config run_id baseline cases results minimizations in
        and_then
          (on_disk st2.world (
            persist_report runner.faults runner.serde runner.workspace run_id
              (canonical_json runner.serde runner.codec.report_value report) st2.disk))
          (λ _ st3. (ok report, st3))))

  abbrev pub baseline_result : OracleArtifact → String → BaselineResult
  baseline_result artifact artifact_ref = record {
    duration_ms = artifact.duration_ms;
    summary = artifact.summary;
    artifact_refs = artifact_ref ∷ [];
  }

  unfoldable pub save_baseline :
      String → OracleArtifact → World S → Disk → Result (RunError E Io) String × RunState S
  unfolding persist_run_artifact
  save_baseline run_id artifact w d = on_disk w (
      persist_run_artifact runner.faults runner.serde runner.workspace run_id "baseline-oracle.json"
        (text_of artifact) d)

  -- The guard on the baseline's outcome, and what follows it.
  unfoldable pub after_baseline :
      ExperimentConfig
      → String
      → List ExperimentCase
      → OracleArtifact
      → String
      → RunState S
      → Result (RunError E Io) ExperimentReport × RunState S
  unfolding run_trials
  after_baseline config run_id cases artifact baseline_ref st =
      let rest = run_trials config run_id (baseline_result artifact baseline_ref) cases st in
      if trial_eq artifact.outcome Report.pass
      then rest
      else (err (baseline_failed artifact.summary), st)

  -- The reset, the baseline and its guard.
  unfoldable pub run_baseline :
      ExperimentConfig
      → String
      → List ExperimentCase
      → RunState S
      → Result (RunError E Io) ExperimentReport × RunState S
  unfolding after_baseline save_baseline
  run_baseline config run_id cases st =
      let (answer, after) = evaluate (reset st.world) in
      and_then (save_baseline run_id (artifact_of answer) after st.disk) (λ baseline_ref st1.
        after_baseline config run_id cases (artifact_of answer) baseline_ref st1)

  abbrev pub of_plan :
      {A : Type 0} → Result (ExperimentError (CorpusError E Io)) A → Result (RunError E Io) A
  of_plan (ok a) = ok a
  of_plan (err e) = err (planning e)

  abbrev pub of_id : {A : Type 0} → Result E A → Result (RunError E Io) A
  of_id (ok a) = ok a
  of_id (err e) = err (serialize e)

  abbrev pub run_id_of : ExperimentConfig → List ExperimentCase → Result E String
  run_id_of config cases = stable_id runner.serde runner.codec.run_value "run" (record {
    scenario_id = config.scenario_id;
    source_revision = config.source_revision;
    seed = config.seed;
    mutation_ids = map (λ (c : ExperimentCase). c.mutation.id) cases;
  })

  -- After the plan.
  unfoldable pub run_planned :
      ExperimentConfig
      → List ExperimentCase
      → RunState S
      → Result (RunError E Io) ExperimentReport × RunState S
  unfolding run_baseline
  run_planned config cases st =
      and_then (of_id (run_id_of config cases), st)
        (λ run_id st1. run_baseline config run_id cases st1)

  -- `ExperimentRunner::run`
  unfoldable pub run :
      ExperimentConfig → RunState S → Result (RunError E Io) ExperimentReport × RunState S
  unfolding run_planned
  run config st =
      and_then (of_plan (runner.plan_cases config st.disk), st)
        (λ cases st1. run_planned config cases st1)
