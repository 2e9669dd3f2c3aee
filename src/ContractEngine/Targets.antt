-- ===== src/ContractEngine/Targets.antt =====
-- The target of each requirement builder, crates/contract-engine/src/lib.rs.
use wire_assume.Prelude.{
  Bool-cases, ok, BTreeMap, get, set_insert, starts_with, Entries, Entries-insert, String, ◌≡◌, inl,
  inr, not, ◌||◌, Option, some, List, arith,
}
use wire_assume.Model.Json.{Value}
use wire_assume.Model.Corpus.{ResponseRecord}
use wire_assume.Experiment.Report.{TrialOutcome, trial_eq, TrialResult}
use wire_assume.ContractEngine.Build.{
  RequirementBuilder, Builders, Callees, failed, update_builder, baseline_type_at_target,
  is_relevant, update_requirement, target_ref, or_default, note_severity,
}
use wire_assume.ContractEngine.Lock.{step, collect, no_builders}
use wire_assume.ContractEngine.Collect.{collect_inv}
use wire_assume.ContractEngine.Notes.{note_kind_rest}

-- A builder's target is that of its key.
abbrev pub IsTargeted : String → RequirementBuilder → Type 0
IsTargeted target b = b.target ≡ some (target_ref target)

module _ (pointer : Value → String → Option Value) (result : TrialResult)
    (baseline : ResponseRecord) where
  update_builder-target :
      (entry : Option RequirementBuilder)
      → (update_builder pointer result baseline entry).target ≡ some (target_ref result.target)
  unfolding update_builder note_severity
  update_builder-target entry = ground (
    arith,
    note_kind_rest result.kind (failed result)
        (baseline_type_at_target pointer baseline result.target)
        (record (or_default entry) {
          target = some (target_ref result.target);
          evidence_refs = set_insert result.evidence_id (or_default entry).evidence_refs;
        }),
  )

  update_requirement-IsTargeted :
      (builders : BTreeMap RequirementBuilder)
      → Entries IsTargeted builders
      → Entries IsTargeted (update_requirement pointer builders result baseline)
  unfolding update_requirement
  update_requirement-IsTargeted builders h =
      let undecided =
        trial_eq result.outcome TrialOutcome.inconclusive
        || not (starts_with result.target "response.body") in
      elim (Bool-cases undecided) [
        | inl skip ↦ rw skip h
        | inr decided ↦ elim (Bool-cases (is_relevant result.kind)) [
          | inl relevant ↦
              rw (decided, relevant)
                (Entries-insert IsTargeted result.target _ builders
                  (update_builder-target (get result.target builders)) h)
          | inr other ↦ rw (decided, other) h
        ]
      ]

module _ {E : Type 0} (callees : Callees E) (baselines : BTreeMap ResponseRecord)
    (results : List TrialResult) (b : Builders)
    (collected : collect callees baselines results no_builders ≡ ok b) where
  pub collect-IsTargeted : Entries IsTargeted b.requirements
  collect-IsTargeted =
      collect_inv callees baselines (λ k. Entries IsTargeted k.requirements) results
        (λ r baseline k listed h.
          unfold step in update_requirement-IsTargeted callees.pointer r baseline k.requirements h)
        no_builders b tt collected
