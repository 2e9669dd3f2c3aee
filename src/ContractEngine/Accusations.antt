-- ===== src/ContractEngine/Accusations.antt =====
-- Assumptions of a finished lock and failing trials, crates/contract-engine/src/lib.rs.
use mathlib.Core.List.{Mem}
use wire_assume.Prelude.{
  All, All-mp, All-split, ◌++◌, ◌∷◌, ok, >>=-eq-ok, BTreeMap, contains, Entries-get, String, ◌≡◌,
  sym, ap, subst, ◌∙◌, true, some, List,
}
use wire_assume.Model.Corpus.{ResponseRecord}
use wire_assume.Model.Canonical.{stable_id}
use wire_assume.Experiment.Report.{TrialResult, ExperimentReport}
use wire_assume.ContractEngine.Records.{ContractContext, ConsumptionLock, Assumption}
use wire_assume.ContractEngine.Kinds.{assumption_from_failure}
use wire_assume.ContractEngine.Keys.{assumption_key_inj}
use wire_assume.ContractEngine.Build.{
  AssumptionBuilder, Callees, failed, target_ref, assumption_key,
}
use wire_assume.ContractEngine.Lock.{
  no_builders, from_json, finish_assumption, build_consumption_lock,
}
use wire_assume.ContractEngine.Assumptions.{Fails, IsBacked, says-clean, collect-IsBacked}
use wire_assume.ContractEngine.Citing.{IsCited, collect-IsCited}
use wire_assume.ContractEngine.Collect.{finish_all-All, finish_all-get, build-Built}

-- All evidence of the assumption is that of failing trials at its target whose kind says it.
pub record IsEarned (results : List TrialResult) (a : Assumption) : Type 0 where
  pub target : String
  pub names : a.target ≡ target_ref target
  pub evidence :
      (e : String)
      → contains a.evidence_refs e ≡ true
      → Fails results a.assumption_type target a.behavior e

-- The assumption that a failing trial ends in.
pub record IsReported (assumptions : List Assumption) (r : TrialResult)
    (assumption_type behavior : String) : Type 0 where
  pub assumption : Assumption
  pub listed : Mem assumption assumptions
  pub of_type : assumption.assumption_type ≡ assumption_type
  pub of_behavior : assumption.behavior ≡ behavior
  pub at_target : assumption.target ≡ target_ref r.target
  pub cited : contains assumption.evidence_refs r.evidence_id ≡ true

-- What every failing trial says is an assumption of the list.
abbrev AllReported : List TrialResult → List Assumption → Type 0
AllReported results assumptions =
    All
      (λ r.
        failed r ≡ true
        → (t b s : String) → assumption_from_failure r ≡ some (t, b, s)
        → IsReported assumptions r t b)
      results

module _ {E : Type 0} (callees : Callees E) where
  record IsFinished (b : AssumptionBuilder) (a : Assumption) : Type 0 where
    of_type : a.assumption_type ≡ b.assumption_type
    of_behavior : a.behavior ≡ b.behavior
    at_target : a.target ≡ b.target
    evidence_refs : a.evidence_refs ≡ b.evidence_refs

  finish-IsFinished :
      (b : AssumptionBuilder) (a : Assumption) → finish_assumption callees b ≡ ok a → IsFinished b a
  unfolding finish_assumption
  finish-IsFinished b a e =
      let (id, _, last) =
        >>=-eq-ok
          (from_json callees (
            stable_id callees.serde callees.assumption_value "asm"
              (b.assumption_type, b.target.path, b.behavior)))
          _ e in
      record {
        of_type = cc last;
        of_behavior = cc last;
        at_target = cc last;
        evidence_refs = cc last;
      }

  finish-IsEarned :
      (results : List TrialResult) (key : String) (b : AssumptionBuilder) (a : Assumption)
      → IsBacked results key b
      → finish_assumption callees b ≡ ok a
      → IsEarned results a
  finish-IsEarned results key b a backed e =
      let done = finish-IsFinished b a e in
      record {
        target = backed.target;
        names = done.at_target ∙ backed.names;
        evidence = λ evidence cited.
            subst (λ t. Fails results t backed.target a.behavior evidence) (sym done.of_type)
              (subst (λ c. Fails results b.assumption_type backed.target c evidence)
                (sym done.of_behavior)
                (backed.evidence evidence
                  (ap (λ refs. contains refs evidence) (sym done.evidence_refs) ∙ cited)));
      }

  -- Every evidence of every assumption of a lock is that of a trial of the report that failed, at the
  -- target that the assumption names, and whose kind of mutation says this type and this behavior.
  pub build-IsEarned :
      (report : ExperimentReport) (baselines : BTreeMap ResponseRecord) (context : ContractContext)
      (lock : ConsumptionLock)
      → build_consumption_lock callees report baselines context ≡ ok lock
      → All (IsEarned report.results) lock.assumptions
  build-IsEarned report baselines context lock e =
      let built = build-Built callees report baselines context lock e in
      finish_all-All callees (finish_assumption callees) (IsBacked report.results)
        (IsEarned report.results) (finish-IsEarned report.results) built.builders.assumptions
        lock.assumptions
        (collect-IsBacked callees baselines report.results built.builders built.collected)
        built.assumptions

  build-AllReported :
      (report : ExperimentReport) (baselines : BTreeMap ResponseRecord) (context : ContractContext)
      (lock : ConsumptionLock)
      → build_consumption_lock callees report baselines context ≡ ok lock
      → AllReported report.results lock.assumptions
  build-AllReported report baselines context lock e =
      let built = build-Built callees report baselines context lock e in
      let backed =
        collect-IsBacked callees baselines report.results built.builders built.collected in
      All-mp (IsCited callees baselines built.builders.assumptions) _ report.results
        (λ r cited fails t b s says.
          let there = cited fails t b s says in
          let key = assumption_key t r.target b in
          let from_trial =
            Entries-get (IsBacked report.results) key built.builders.assumptions backed
              there.found in
          let (clean_t, clean_b) = says-clean r t b s says in
          let (types, targets, behaviors) =
            assumption_key_inj there.builder.assumption_type from_trial.target
              there.builder.behavior t r.target b from_trial.clean_type clean_t
              from_trial.clean_behavior clean_b (sym from_trial.key_is) in
          let (a, listed, done) =
            finish_all-get callees (finish_assumption callees) key there.builder
              built.builders.assumptions lock.assumptions there.found built.assumptions in
          let finished = finish-IsFinished there.builder a done in
          record {
            assumption = a;
            listed = listed;
            of_type = finished.of_type ∙ types;
            of_behavior = finished.of_behavior ∙ behaviors;
            at_target = finished.at_target ∙ from_trial.names ∙ ap target_ref targets;
            cited = ap (λ refs. contains refs r.evidence_id) finished.evidence_refs ∙ there.cited;
          })
        (collect-IsCited callees baselines report.results no_builders built.builders
          built.collected)

  -- Every trial of the report that failed, and whose kind says something of the consumer, is reported:
  -- the lock has an assumption of that type and behavior at the trial's target that cites its evidence.
  pub build-IsReported :
      (report : ExperimentReport) (baselines : BTreeMap ResponseRecord) (context : ContractContext)
      (lock : ConsumptionLock) (before after : List TrialResult) (r : TrialResult) (t b s : String)
      → build_consumption_lock callees report baselines context ≡ ok lock
      → report.results ≡ before ++ r ∷ after
      → failed r ≡ true
      → assumption_from_failure r ≡ some (t, b, s)
      → IsReported lock.assumptions r t b
  build-IsReported report baselines context lock before after r t b s e splits fails says =
      All-split _ before after r
        (subst (λ results. AllReported results lock.assumptions) splits
          (build-AllReported report baselines context lock e))
        fails t b s says
