-- ===== src/Experiment/Run/Laws.antt =====
-- What a run leaves behind: crates/experiment/src/lib.rs.
use wire_assume.Prelude.{
  if◌then◌else◌, Result, ok, err, String, ◌≡◌, refl, Bool, true, false, Option, none, some, List,
  [], ◌∷◌,
}
use wire_assume.Model.Files.{Disk, and_then}
use wire_assume.Proxy.{World, reset}
use wire_assume.Experiment.Report.{
  TrialOutcome, trial_eq, TrialResult, BaselineResult, ExperimentReport, ResponseMinimization,
}
use wire_assume.Experiment.Report
use wire_assume.Experiment.Minimize.{MinimizationArtifact, minimize_response_fields}
use wire_assume.Experiment.Minimize.Laws.{minimize_body-quiet}
use wire_assume.Experiment.Plan.{ExperimentConfig, ExperimentCase}
use wire_assume.Experiment.Artifacts.{OracleArtifact, baseline_failed}
use wire_assume.Experiment.Run.{
  RunState, Runner, on_disk, evaluate, artifact_of, run_case, run_cases, interaction_ids,
  after_minimize, of_corpus, minimize_one, minimize_all, run_trials, run_baseline, save_baseline,
  after_baseline, baseline_result, run, of_plan, run_planned,
}

module _ {S : Type 0} where
  -- No override is active.
  abbrev pub IsQuiet : RunState S → Type 0
  IsQuiet st = st.world.active ≡ none

  and_then-IsQuiet :
      {X A B : Type 0} (r : Result X A × RunState S)
      (next : A → RunState S → Result X B × RunState S)
      → IsQuiet r.1
      → ((a : A) (st : RunState S) → IsQuiet st → IsQuiet (next a st).1)
      → IsQuiet (and_then r next).1
  and_then-IsQuiet (ok a, st) next h k = k a st h
  and_then-IsQuiet (err e, st) next h k = h

  if-IsQuiet :
      {B : Type 0} (b : Bool) (x y : B × RunState S)
      → IsQuiet x.1
      → IsQuiet y.1
      → IsQuiet (if b then x else y).1
  if-IsQuiet true x y h k = h
  if-IsQuiet false x y h k = k

module _ {E Io S : Type 0} (runner : Runner E Io S) where
  run_cases-IsQuiet :
      (run_id : String) (cases : List ExperimentCase) (st : RunState S)
      → IsQuiet st
      → IsQuiet (run_cases runner run_id cases st).1
  unfolding run_cases run_case
  run_cases-IsQuiet run_id [] st h = h
  run_cases-IsQuiet run_id (c ∷ cases) st h =
      and_then-IsQuiet (run_case runner run_id c st) _ refl (λ result st1 h1.
        and_then-IsQuiet (run_cases runner run_id cases st1) _
          (run_cases-IsQuiet run_id cases st1 h1) (λ results st2 h2. h2))

  after_minimize-IsQuiet :
      (run_id : String) (d : Disk) (w : World S)
      (found : Option (Option (ResponseMinimization × MinimizationArtifact) × World S))
      → w.active ≡ none
      → ((m : Option (ResponseMinimization × MinimizationArtifact)) (w' : World S)
          → found ≡ some (m, w')
          → w'.active ≡ none)
      → IsQuiet (after_minimize runner run_id d found w).1
  after_minimize-IsQuiet run_id d w none h k = h
  after_minimize-IsQuiet run_id d w (some (m, w')) h k = k m w' refl

  minimize_one-IsQuiet :
      (run_id interaction_id : String) (st : RunState S)
      → IsQuiet st
      → IsQuiet (minimize_one runner run_id interaction_id st).1
  unfolding minimize_one minimize_response_fields
  minimize_one-IsQuiet run_id interaction_id st h =
      and_then-IsQuiet
        (on_disk runner st.world
          (of_corpus runner (runner.load_interaction interaction_id st.disk)))
        _ h
        (λ interaction st1 h1. after_minimize-IsQuiet run_id st1.disk st1.world _ h1 (λ m w' e.
          minimize_body-quiet runner.minimization_ids runner.new_regex runner.redaction
            runner.oracle interaction_id interaction.response interaction.response.body st1.world w'
            m h1 e))

  minimize_all-IsQuiet :
      (run_id : String) (ids : List String) (st : RunState S)
      → IsQuiet st
      → IsQuiet (minimize_all runner run_id ids st).1
  unfolding minimize_all
  minimize_all-IsQuiet run_id [] st h = h
  minimize_all-IsQuiet run_id (i ∷ ids) st h =
      and_then-IsQuiet (minimize_one runner run_id i st) _ (minimize_one-IsQuiet run_id i st h)
        (λ first st1 h1.
          and_then-IsQuiet (minimize_all runner run_id ids st1) _
            (minimize_all-IsQuiet run_id ids st1 h1) (λ others st2 h2. h2))

  run_trials-IsQuiet :
      (config : ExperimentConfig) (run_id : String) (baseline : BaselineResult)
      (cases : List ExperimentCase) (st : RunState S)
      → IsQuiet st
      → IsQuiet (run_trials runner config run_id baseline cases st).1
  unfolding run_trials
  run_trials-IsQuiet config run_id baseline cases st h =
      and_then-IsQuiet (run_cases runner run_id cases st) _ (run_cases-IsQuiet run_id cases st h)
        (λ results st1 h1.
          and_then-IsQuiet (minimize_all runner run_id (interaction_ids runner cases) st1) _
            (minimize_all-IsQuiet run_id (interaction_ids runner cases) st1 h1)
            (λ minimizations st2 h2. and_then-IsQuiet _ _ h2 (λ _ st3 h3. h3)))

  after_baseline-IsQuiet :
      (config : ExperimentConfig) (run_id : String) (cases : List ExperimentCase)
      (artifact : OracleArtifact) (baseline_ref : String) (st : RunState S)
      → IsQuiet st
      → IsQuiet (after_baseline runner config run_id cases artifact baseline_ref st).1
  unfolding after_baseline
  after_baseline-IsQuiet config run_id cases artifact baseline_ref st h =
      if-IsQuiet (trial_eq artifact.outcome Report.pass)
        (run_trials runner config run_id (baseline_result runner artifact baseline_ref) cases st)
        (err (baseline_failed artifact.summary), st)
        (run_trials-IsQuiet config run_id (baseline_result runner artifact baseline_ref) cases st h)
        h

  run_baseline-IsQuiet :
      (config : ExperimentConfig) (run_id : String) (cases : List ExperimentCase) (st : RunState S)
      → IsQuiet (run_baseline runner config run_id cases st).1
  unfolding run_baseline save_baseline
  run_baseline-IsQuiet config run_id cases st =
      let (answer, after) = evaluate runner (reset st.world) in
      and_then-IsQuiet (save_baseline runner run_id (artifact_of runner answer) after st.disk) _
        refl
        (λ baseline_ref st1 h1.
          after_baseline-IsQuiet config run_id cases (artifact_of runner answer) baseline_ref st1
            h1)

  -- However a run ends, with a report or with an error, no override is active afterwards, if none was.
  pub run-IsQuiet :
      (config : ExperimentConfig) (st : RunState S) → IsQuiet st → IsQuiet (run runner config st).1
  unfolding run run_planned
  run-IsQuiet config st h =
      and_then-IsQuiet (of_plan runner (runner.plan_cases config st.disk), st) _ h
        (λ cases st1 h1.
          and_then-IsQuiet _ _ h1 (λ run_id st2 h2. run_baseline-IsQuiet config run_id cases st2))
