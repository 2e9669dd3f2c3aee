-- ===== src/ContractEngine/Inconclusive.antt =====
-- Trials without an outcome in crates/contract-engine/src/lib.rs.
use wire_assume.Prelude.{
  Bool-cases, Option-cases, filter, Result, ok, err, BTreeMap, get, ◌≡◌, ap, inl, inr, Bool, false,
  not, List, [], ◌∷◌, map, arith,
}
use wire_assume.Model.Corpus.{ResponseRecord}
use wire_assume.Experiment.Report.{TrialOutcome, trial_eq, TrialResult, ExperimentReport}
use wire_assume.ContractEngine.Records.{ContractContext, ConsumptionLock, EvidenceRef}
use wire_assume.ContractEngine.Build.{
  Builders, Callees, update_requirement, update_assumption, evidence_ref,
}
use wire_assume.ContractEngine.Lock.{step, collect, no_builders, build_consumption_lock}
use wire_assume.ContractEngine.Collect.{build-Built}

abbrev pub is_decisive : TrialResult → Bool
is_decisive r = not (trial_eq r.outcome TrialOutcome.inconclusive)

-- The report without its inconclusive trials.
abbrev pub decisive_only : ExperimentReport → ExperimentReport
decisive_only report = record report { results = filter is_decisive report.results }

abbrev with_evidence :
    {F : Type 0} → List EvidenceRef → Result F ConsumptionLock → Result F ConsumptionLock
with_evidence evidence (ok lock) = ok (record lock { evidence = evidence })
with_evidence evidence (err e) = err e

module _ {E : Type 0} (callees : Callees E) where
  step-inconclusive :
      (r : TrialResult) (baseline : ResponseRecord) (b : Builders)
      → is_decisive r ≡ false
      → step callees r baseline b ≡ b
  unfolding step update_requirement update_assumption
  step-inconclusive r baseline b h = ground arith

  collect-decisive :
      (baselines : BTreeMap ResponseRecord) (results : List TrialResult) (b b' : Builders)
      → collect callees baselines results b ≡ ok b'
      → collect callees baselines (filter is_decisive results) b ≡ ok b'
  unfolding collect
  collect-decisive baselines [] b b' e = e
  collect-decisive baselines (r ∷ rs) b b' e =
      elim (Option-cases (get r.interaction_id baselines)) [
        | inl nothing ↦ absurd (ground (arith, nothing))
        | inr (baseline, found) ↦
            let e' : collect callees baselines rs (step callees r baseline b) ≡ ok b' =
              ground (arith, found) in
            let rest = collect-decisive baselines rs (step callees r baseline b) b' e' in
            elim (Bool-cases (is_decisive r)) [
              | inl decisive ↦ rw (decisive, found, collect) rest
              | inr skipped ↦ rw skipped (rw (step-inconclusive r baseline b skipped) at rest)
            ]
      ]

  -- Where a lock is built of a report, the same lock is built of the report without its inconclusive
  -- trials, but for their entries in the list of evidence.
  pub build-decisive_only :
      (report : ExperimentReport) (baselines : BTreeMap ResponseRecord) (context : ContractContext)
      (lock : ConsumptionLock)
      → build_consumption_lock callees report baselines context ≡ ok lock
      → build_consumption_lock callees (decisive_only report) baselines context
        ≡ ok (record lock { evidence = map evidence_ref (filter is_decisive report.results) })
  unfolding build_consumption_lock
  build-decisive_only report baselines context lock e =
      let built = build-Built callees report baselines context lock e in
      let collected' =
        collect-decisive baselines report.results no_builders built.builders built.collected in
      let e' = rw (built.collected, built.requirements, built.assumptions) at e in
      rw (collected', built.requirements, built.assumptions)
        (ap (with_evidence (map evidence_ref (filter is_decisive report.results))) e')
