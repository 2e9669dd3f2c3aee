-- ===== src/ContractEngine/Totality.antt =====
-- The `expect` of `RequirementBuilder::finish` in crates/contract-engine/src/lib.rs never panics.
use wire_assume.Prelude.{
  Option-cases, Result, err, >>=-ne-err, ok-ne-err, BTreeMap, get, Entries, Entries-all, String,
  ◌≢◌, inl, inr, some, List, [], ◌∷◌, arith,
}
use wire_assume.Model.Corpus.{ResponseRecord}
use wire_assume.Experiment.Report.{TrialResult, ExperimentReport}
use wire_assume.ContractEngine.Records.{ContractContext, TargetRef}
use wire_assume.ContractEngine.Build.{
  RequirementBuilder, AssumptionBuilder, Builders, Callees, Failure, panicked, target_ref,
}
use wire_assume.ContractEngine.Lock.{
  step, collect, no_builders, finish_at, finish_requirement, finish_assumption, finish_all,
  build_consumption_lock,
}
use wire_assume.ContractEngine.Targets.{IsTargeted, collect-IsTargeted}

module _ {E : Type 0} (callees : Callees E) (s : String) where
  finish_at-ne :
      (b : RequirementBuilder) (target : TargetRef)
      → finish_at callees b (some target) ≢ err (panicked s)
  unfolding finish_at
  finish_at-ne b target e = ground arith

  finish_requirement-ne :
      (k : String) (b : RequirementBuilder)
      → IsTargeted k b
      → finish_requirement callees b ≢ err (panicked s)
  unfolding finish_requirement
  finish_requirement-ne k b targeted = rw targeted (finish_at-ne b (target_ref k))

  finish_assumption-ne : (b : AssumptionBuilder) → finish_assumption callees b ≢ err (panicked s)
  unfolding finish_assumption
  finish_assumption-ne b e = ground arith

  finish_all-ne :
      {B A : Type 0} (f : B → Result (Failure E) A) (P : String → B → Type 0)
      → ((k : String) (b : B) → P k b → f b ≢ err (panicked s))
      → (m : BTreeMap B) → Entries P m
      → finish_all callees f m ≢ err (panicked s)
  unfolding finish_all
  finish_all-ne f P one [] all = ok-ne-err _ _
  finish_all-ne f P one ((k, b) ∷ m) all = >>=-ne-err (f b) _ (panicked s) (one k b all.0) (λ a _.
      >>=-ne-err (finish_all callees f m) _ (panicked s) (finish_all-ne f P one m all.1)
        (λ rest _. ok-ne-err _ _))

  collect-ne :
      (baselines : BTreeMap ResponseRecord) (results : List TrialResult) (b : Builders)
      → collect callees baselines results b ≢ err (panicked s)
  unfolding collect
  collect-ne baselines [] b = ok-ne-err _ _
  collect-ne baselines (r ∷ rs) b = elim (Option-cases (get r.interaction_id baselines)) [
    | inl nothing ↦ λ e. ground (arith, nothing)
    | inr (baseline, found) ↦
        rw (found, collect) (collect-ne baselines rs (step callees r baseline b))
  ]

  -- Building a lock never panics: it returns a lock or an error.
  pub build-ne-panicked :
      (report : ExperimentReport) (baselines : BTreeMap ResponseRecord) (context : ContractContext)
      → build_consumption_lock callees report baselines context ≢ err (panicked s)
  unfolding build_consumption_lock
  build-ne-panicked report baselines context =
      >>=-ne-err (collect callees baselines report.results no_builders) _ (panicked s)
        (collect-ne baselines report.results no_builders)
        (λ b collected.
          >>=-ne-err (finish_all callees (finish_requirement callees) b.requirements) _ (panicked s)
            (finish_all-ne (finish_requirement callees) IsTargeted finish_requirement-ne
              b.requirements (collect-IsTargeted callees baselines report.results b collected))
            (λ requirements _.
              >>=-ne-err (finish_all callees (finish_assumption callees) b.assumptions) _
                (panicked s)
                (finish_all-ne (finish_assumption callees) (λ _ _. Unit)
                  (λ _ a _. finish_assumption-ne a) b.assumptions (Entries-all b.assumptions))
                (λ assumptions _. ok-ne-err _ _)))
