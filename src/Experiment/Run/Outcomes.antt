-- ===== src/Experiment/Run/Outcomes.antt =====
-- No trial of a run influences another: crates/experiment/src/lib.rs.
use wire_assume.Prelude.{
  length, Result, ok, err, suc, ◌+◌, ◌≤◌, String, ◌≡◌, refl, sym, ap, subst, ◌∙◌, ◌⊎◌, inl, inr,
  true, false, Option, none, some, List, [], ◌∷◌, arith,
}
use wire_assume.Model.Canonical.{stable_id, canonical_json}
use wire_assume.Model.Files.{Disk}
use wire_assume.Model.Files.Laws.{and_then-ok, ok-pair}
use wire_assume.Model.Store.{CorpusError}
use wire_assume.Proxy.{ResponseOverride, World, reset}
use wire_assume.Experiment.Report.{
  TrialOutcome, trial_eq, TrialResult, BaselineResult, ExperimentReport, ResponseMinimization,
}
use wire_assume.Experiment.Report
use wire_assume.Experiment.Plan.{ExperimentConfig, ExperimentCase, ExperimentError}
use wire_assume.Experiment.Artifacts.{
  RunError, OracleArtifact, of_serde, persist_evidence_artifact, persist_report,
}
use wire_assume.Experiment.Run.{
  RunState, Runner, on_disk, evaluate, artifact_of, text_of, override_of, count_of, record_trial,
  run_case, run_cases, interaction_ids, minimize_all, report_of, run_trials, run_baseline,
  save_baseline, after_baseline, baseline_result, run, of_plan, of_id, run_id_of, run_planned,
  trial_result,
}

outcome-cases :
    (o : TrialOutcome) → (o ≡ Report.pass) ⊎ ((o ≡ Report.fail) ⊎ (o ≡ Report.inconclusive))
outcome-cases Report.pass = inl refl
outcome-cases Report.fail = inr (inl refl)
outcome-cases Report.inconclusive = inr (inr refl)

count_of-pair :
    (results : List TrialResult)
    → count_of Report.pass results + count_of Report.fail results ≤ length results
count_of-pair [] = omega arith
count_of-pair (r ∷ results) = elim (outcome-cases r.outcome) [
  | inl e ↦ rw e (omega (arith, count_of-pair results))
  | inr (inl e) ↦ rw e (omega (arith, count_of-pair results))
  | inr (inr e) ↦ rw e (omega (arith, count_of-pair results))
]

module _ {E Io S : Type 0} (runner : Runner E Io S) where
  on_disk-ok :
      {A : Type 0} (w : World S) (r : Result (RunError E Io) A × Disk) (a : A) (st : RunState S)
      → on_disk runner w r ≡ (ok a, st)
      → (d : Disk) × (r ≡ (ok a, d))
  on_disk-ok w (ok b, d) a st e = (d, cc e)
  on_disk-ok w (err x, d) a st e = cc e

  record_trial-ok :
      (run_id : String) (c : ExperimentCase) (artifact : OracleArtifact) (d d' : Disk)
      (r : TrialResult)
      → record_trial runner run_id c artifact d ≡ (ok r, d')
      → (evidence_id : String) × (artifact_ref : String) × (trial_result runner evidence_id c
            artifact artifact_ref
          ≡ r)
  unfolding record_trial
  record_trial-ok run_id c artifact d d' r e =
      let (evidence_id, d1, _, rest) =
        and_then-ok
          (of_serde runner.faults runner.serde runner.workspace
            (stable_id runner.serde runner.codec.evidence_value "ev" (record {
              run_id = run_id;
              interaction_id = c.interaction_id;
              mutation_id = c.mutation.id;
              outcome = artifact.outcome;
            }))
            d)
          _ r d' e in
      let (artifact_ref, d2, _, last) =
        and_then-ok
          (persist_evidence_artifact runner.faults runner.serde runner.workspace evidence_id
            "oracle.json" (text_of runner artifact) d1)
          _ r d' rest in
      (evidence_id, artifact_ref, (ok-pair _ r d2 d' last).0)

  module _ (p : Option ResponseOverride → TrialOutcome)
      (steady : (o : Option ResponseOverride) (s : S)
        → (artifact_of runner (runner.oracle.evaluate o s).0).outcome ≡ p o) where
    -- The result is of the case, and the outcome is that of its override alone.
    pub record IsTrialOf (c : ExperimentCase) (r : TrialResult) : Type 0 where
      pub interaction : r.interaction_id ≡ c.interaction_id
      pub mutation : r.mutation_id ≡ c.mutation.id
      pub outcome : r.outcome ≡ p (some (override_of c))

    -- One result for each case, in their order.
    abbrev pub Tries : List ExperimentCase → List TrialResult → Type 0
    Tries [] [] = Unit
    Tries (c ∷ cases) (r ∷ results) = IsTrialOf c r × Tries cases results
    Tries _ _ = true ≡ false

    run_case-IsTrialOf :
        (run_id : String) (c : ExperimentCase) (st st' : RunState S) (r : TrialResult)
        → run_case runner run_id c st ≡ (ok r, st')
        → IsTrialOf c r
    unfolding run_case
    run_case-IsTrialOf run_id c st st' r e =
        let (d, made) = on_disk-ok _ _ r st' e in
        let (evidence_id, artifact_ref, same) = record_trial-ok run_id c _ st.disk d r made in
        rw (← same) (record {
          interaction = refl;
          mutation = refl;
          outcome = steady (some (override_of c)) st.world.outside;
        })

    run_cases-Tries :
        (run_id : String) (cases : List ExperimentCase) (st st' : RunState S)
        (results : List TrialResult)
        → run_cases runner run_id cases st ≡ (ok results, st')
        → Tries cases results
    unfolding run_cases
    run_cases-Tries run_id [] st st' results e = subst (Tries []) (ok-pair [] results st st' e).0 tt
    run_cases-Tries run_id (c ∷ cases) st st' results e =
        let (r, st1, e1, rest) = and_then-ok (run_case runner run_id c st) _ results st' e in
        let (rs, st2, e2, last) =
          and_then-ok (run_cases runner run_id cases st1) _ results st' rest in
        subst (Tries (c ∷ cases)) (ok-pair (r ∷ rs) results st2 st' last).0
          (run_case-IsTrialOf run_id c st st1 r e1, run_cases-Tries run_id cases st1 st2 rs e2)

    Tries-length :
        (cases : List ExperimentCase) (results : List TrialResult)
        → Tries cases results
        → length results ≡ length cases
    Tries-length [] [] h = refl
    Tries-length (c ∷ cases) (r ∷ results) h = ap suc (Tries-length cases results h.1)
    Tries-length [] (r ∷ results) h = cc h
    Tries-length (c ∷ cases) [] h = cc h

    -- What a report says of the cases that were run.
    pub record IsReport (cases : List ExperimentCase) (report : ExperimentReport) : Type 0 where
      pub baseline_passes : p none ≡ Report.pass
      pub tries : Tries cases report.results
      pub planned : report.planned_mutations ≡ length cases
      pub executed : report.executed_mutations ≡ length cases
      pub adds_up :
          report.passes + report.failures + report.inconclusive ≡ report.executed_mutations
      pub counted_passes : report.passes ≡ count_of Report.pass report.results
      pub counted_failures : report.failures ≡ count_of Report.fail report.results

    run_trials-IsReport :
        (config : ExperimentConfig) (run_id : String) (baseline : BaselineResult)
        (cases : List ExperimentCase) (st st' : RunState S) (report : ExperimentReport)
        → p none ≡ Report.pass
        → run_trials runner config run_id baseline cases st ≡ (ok report, st')
        → IsReport cases report
    unfolding run_trials report_of
    run_trials-IsReport config run_id baseline cases st st' report passed e =
        let (results, st1, e1, rest) =
          and_then-ok (run_cases runner run_id cases st) _ report st' e in
        let (minimizations, st2, _, rest') =
          and_then-ok (minimize_all runner run_id (interaction_ids runner cases) st1) _ report st'
            rest in
        let made = report_of runner config run_id baseline cases results minimizations in
        let (_, st3, _, last) =
          and_then-ok
            (on_disk runner st2.world (
              persist_report runner.faults runner.serde runner.workspace run_id
                (canonical_json runner.serde runner.codec.report_value made) st2.disk))
            _ report st' rest' in
        let tries = run_cases-Tries run_id cases st st1 results e1 in
        subst (IsReport cases) (ok-pair made report st3 st' last).0 (record {
          baseline_passes = passed;
          tries = tries;
          planned = refl;
          executed = Tries-length cases results tries;
          adds_up = omega (arith, count_of-pair results);
          counted_passes = refl;
          counted_failures = refl;
        })

    after_baseline-IsReport :
        (config : ExperimentConfig) (run_id : String) (cases : List ExperimentCase)
        (artifact : OracleArtifact) (baseline_ref : String) (st st' : RunState S)
        (report : ExperimentReport)
        → artifact.outcome ≡ p none
        → after_baseline runner config run_id cases artifact baseline_ref st ≡ (ok report, st')
        → IsReport cases report
    unfolding after_baseline
    after_baseline-IsReport config run_id cases artifact baseline_ref st st' report same e =
        elim (outcome-cases artifact.outcome) [
          | inl passed ↦
              run_trials-IsReport config run_id (baseline_result runner artifact baseline_ref) cases
                st st' report (sym same ∙ passed) (rw (passed, after_baseline) at e)
          | inr (inl failed) ↦ cc (rw (failed, after_baseline) at e)
          | inr (inr unknown) ↦ cc (rw (unknown, after_baseline) at e)
        ]

    run_baseline-IsReport :
        (config : ExperimentConfig) (run_id : String) (cases : List ExperimentCase)
        (st st' : RunState S) (report : ExperimentReport)
        → run_baseline runner config run_id cases st ≡ (ok report, st')
        → IsReport cases report
    unfolding run_baseline
    run_baseline-IsReport config run_id cases st st' report e =
        let (answer, after) = evaluate runner (reset st.world) in
        let (baseline_ref, st1, _, rest) =
          and_then-ok (save_baseline runner run_id (artifact_of runner answer) after st.disk) _
            report st' e in
        after_baseline-IsReport config run_id cases (artifact_of runner answer) baseline_ref st1 st'
          report (steady none st.world.outside) rest

    of_plan-ok :
        (r : Result (ExperimentError (CorpusError E Io)) (List ExperimentCase))
        (cases : List ExperimentCase)
        → of_plan runner r ≡ ok cases
        → r ≡ ok cases
    of_plan-ok (ok cs) cases e = cc e
    of_plan-ok (err x) cases e = cc e

    -- Where the oracle's outcome depends on the active override alone: a run that returns a report has
    -- planned its cases, its baseline passes, and it has one result for each case, in their order, with
    -- the outcome of the case's override alone; the counts of the report are those of the results.
    pub run-IsReport :
        (config : ExperimentConfig) (st st' : RunState S) (report : ExperimentReport)
        → run runner config st ≡ (ok report, st')
        → (cases : List ExperimentCase) × (runner.plan_cases config st.disk ≡ ok cases)
          × IsReport cases report
    unfolding run run_planned
    run-IsReport config st st' report e =
        let (cases, st1, planned, rest) =
          and_then-ok (of_plan runner (runner.plan_cases config st.disk), st) _ report st' e in
        let (run_id, st2, _, last) =
          and_then-ok (of_id runner (run_id_of runner config cases), st1) _ report st' rest in
        (
          cases,
          of_plan-ok (runner.plan_cases config st.disk) cases (ap (λ x. x.0) planned),
          run_baseline-IsReport config run_id cases st2 st' report last,
        )
