-- ===== src/ContractEngine/Promises.antt =====
-- What the requirements of a finished lock rest on, crates/contract-engine/src/lib.rs.
use wire_assume.Prelude.{
  All, ok, >>=-eq-ok, BTreeMap, Entries-and, String, ◌≡◌, refl, sym, ◌∙◌, ◌≢◌, false, Option, none,
  some, List, [],
}
use wire_assume.Model.Corpus.{ResponseRecord}
use wire_assume.Model.Canonical.{stable_id}
use wire_assume.MutationEngine.Kind.{remove_field, null_field, empty_string, wrong_primitive_type}
use wire_assume.Experiment.Report.{TrialResult, ExperimentReport}
use wire_assume.ContractEngine.Records.{ContractContext, ConsumptionLock, Requirement, TargetRef}
use wire_assume.ContractEngine.Build.{RequirementBuilder, Callees, target_ref}
use wire_assume.ContractEngine.Lock.{
  from_json, finish_at, finish_requirement, build_consumption_lock,
}
use wire_assume.ContractEngine.Requirements.{Shows, IsShown, collect-IsShown}
use wire_assume.ContractEngine.Targets.{IsTargeted, collect-IsTargeted}
use wire_assume.ContractEngine.Collect.{finish_all-All, build-Built}

-- The requirement stands for a target of the trials, and each strict value that it has was shown by
-- a failing trial of the right kind at that target, which the requirement cites.
pub record IsJustified (results : List TrialResult) (rq : Requirement) : Type 0 where
  pub target : String
  pub names : rq.target ≡ target_ref target
  pub presence : rq.presence ≡ some "required" → Shows results remove_field target rq.evidence_refs
  pub nullable : rq.nullable ≡ some false → Shows results null_field target rq.evidence_refs
  pub accepted_empty :
      rq.accepted_empty ≡ some false → Shows results empty_string target rq.evidence_refs
  pub types : rq.types ≢ [] → Shows results wrong_primitive_type target rq.evidence_refs

module _ {E : Type 0} (callees : Callees E) where
  -- The fields that `finish` passes on.
  record IsFinished (b : RequirementBuilder) (rq : Requirement) : Type 0 where
    target : b.target ≡ some rq.target
    presence : rq.presence ≡ b.presence
    nullable : rq.nullable ≡ b.nullable
    accepted_empty : rq.accepted_empty ≡ b.accepted_empty
    types : rq.types ≡ b.types
    evidence_refs : rq.evidence_refs ≡ b.evidence_refs

  finish_at-IsFinished :
      (b : RequirementBuilder) (t : Option TargetRef) (rq : Requirement)
      → b.target ≡ t
      → finish_at callees b t ≡ ok rq
      → IsFinished b rq
  unfolding finish_at
  finish_at-IsFinished b none rq same e = cc
  finish_at-IsFinished b (some target) rq same e =
      let (id, _, last) =
        >>=-eq-ok
          (from_json callees (
            stable_id callees.serde callees.requirement_value "req"
              (target.kind, target.path, b.presence, b.types, b.nullable, b.accepted_empty)))
          _ e in
      record {
        target = cc last;
        presence = cc last;
        nullable = cc last;
        accepted_empty = cc last;
        types = cc last;
        evidence_refs = cc last;
      }

  finish-IsJustified :
      (results : List TrialResult) (target : String) (b : RequirementBuilder) (rq : Requirement)
      → IsTargeted target b × IsShown results target b
      → finish_requirement callees b ≡ ok rq
      → IsJustified results rq
  unfolding finish_requirement
  finish-IsJustified results target b rq (targeted, shown) e =
      let done = finish_at-IsFinished b b.target rq refl e in
      record {
        target = target;
        names = cc (done.target, targeted);
        presence = λ h. rw done.evidence_refs (shown.presence (sym done.presence ∙ h));
        nullable = λ h. rw done.evidence_refs (shown.nullable (sym done.nullable ∙ h));
        accepted_empty =
            λ h. rw done.evidence_refs (shown.accepted_empty (sym done.accepted_empty ∙ h));
        types = λ h. rw done.evidence_refs (shown.types (λ none_yet. h (done.types ∙ none_yet)));
      }

  -- Every requirement of a lock is justified by failing trials: "required", "not nullable", "no empty
  -- value" and a type are only said where a failing trial of that kind at that target shows it, and the
  -- requirement cites the evidence of that trial.
  pub build-IsJustified :
      (report : ExperimentReport) (baselines : BTreeMap ResponseRecord) (context : ContractContext)
      (lock : ConsumptionLock)
      → build_consumption_lock callees report baselines context ≡ ok lock
      → All (IsJustified report.results) lock.requirements
  build-IsJustified report baselines context lock e =
      let built = build-Built callees report baselines context lock e in
      finish_all-All callees (finish_requirement callees)
        (λ k b. IsTargeted k b × IsShown report.results k b) (IsJustified report.results)
        (finish-IsJustified report.results) built.builders.requirements lock.requirements
        (Entries-and _ _ _
          (collect-IsTargeted callees baselines report.results built.builders built.collected)
          (collect-IsShown callees baselines report.results built.builders built.collected))
        built.requirements
