-- ===== src/ContractEngine/Requirements.antt =====
-- Which trials stand behind a requirement of crates/contract-engine/src/lib.rs.
use mathlib.Core.List.{Mem}
use wire_assume.Prelude.{
  Bool-cases, Option-cases, ok, BTreeMap, get, BTreeSet, contains, set_insert, contains-set_insert,
  starts_with, Entries, Entries-insert, Entries-get, String, ◌≡◌, refl, sym, subst, ◌∙◌, ◌≢◌, inl,
  inr, true, false, not, ◌||◌, Option, some, List, [], arith, eq_refl,
}
use wire_assume.Model.Json.{Value}
use wire_assume.Model.Corpus.{ResponseRecord}
use wire_assume.MutationEngine.Kind.{
  MutationKind, remove_field, null_field, empty_string, wrong_primitive_type,
}
use wire_assume.Experiment.Report.{TrialOutcome, trial_eq, TrialResult}
use wire_assume.ContractEngine.Build.{
  RequirementBuilder, Builders, Callees, failed, note_kind, baseline_type_at_target, is_relevant,
  update_requirement, target_ref, or_default, default_builder, note_severity,
}
use wire_assume.ContractEngine.Notes.{
  note_kind-presence, note_kind-nullable, note_kind-accepted_empty, note_kind-types, note_kind_rest,
}
use wire_assume.ContractEngine.Lock.{step, collect, no_builders}
use wire_assume.ContractEngine.Collect.{collect_inv}

-- A trial of `results` that failed, of the kind and at the target, whose evidence is among `refs`.
pub record Shows (results : List TrialResult) (kind : MutationKind) (target : String)
    (refs : BTreeSet) : Type 0 where
  pub trial : TrialResult
  pub listed : Mem trial results
  pub failing : failed trial ≡ true
  pub of_kind : trial.kind ≡ kind
  pub at_target : trial.target ≡ target
  pub cited : contains refs trial.evidence_id ≡ true

-- What a requirement says beyond what an optional value says, a failing trial has shown.
pub record IsShown (results : List TrialResult) (target : String) (b : RequirementBuilder)
    : Type 0 where
  pub presence : b.presence ≡ some "required" → Shows results remove_field target b.evidence_refs
  pub nullable : b.nullable ≡ some false → Shows results null_field target b.evidence_refs
  pub accepted_empty :
      b.accepted_empty ≡ some false → Shows results empty_string target b.evidence_refs
  pub types : b.types ≢ [] → Shows results wrong_primitive_type target b.evidence_refs

module _ (pointer : Value → String → Option Value) (results : List TrialResult)
    (result : TrialResult) (listed : Mem result results) (baseline : ResponseRecord) where
  -- The builder that the result's note is made in.
  abbrev noted : Option RequirementBuilder → RequirementBuilder
  noted entry = record (or_default entry) {
    target = some (target_ref result.target);
    evidence_refs = set_insert result.evidence_id (or_default entry).evidence_refs;
  }

  grown :
      (kind : MutationKind) (entry : Option RequirementBuilder)
      → Shows results kind result.target (or_default entry).evidence_refs
      → Shows results kind result.target (noted entry).evidence_refs
  grown kind entry shown = record {
    trial = shown.trial;
    listed = shown.listed;
    failing = shown.failing;
    of_kind = shown.of_kind;
    at_target = shown.at_target;
    cited = ground (
      arith,
      shown.cited,
      contains-set_insert result.evidence_id shown.trial.evidence_id
          (or_default entry).evidence_refs,
    );
  }

  own :
      (kind : MutationKind) (entry : Option RequirementBuilder)
      → (result.kind ≡ kind) × (failed result ≡ true)
      → Shows results kind result.target (noted entry).evidence_refs
  own kind entry (same, fails) = record {
    trial = result;
    listed = listed;
    failing = fails;
    of_kind = same;
    at_target = refl;
    cited = ground (
      arith,
      eq_refl result.evidence_id,
      contains-set_insert result.evidence_id result.evidence_id (or_default entry).evidence_refs,
    );
  }

  note_kind-IsShown :
      (found : Option String) (entry : Option RequirementBuilder)
      → IsShown results result.target (or_default entry)
      → IsShown results result.target (note_kind result.kind (failed result) found (noted entry))
  note_kind-IsShown found entry old =
      let refs = sym (note_kind_rest result.kind (failed result) found (noted entry)).1 in
      let cite = λ (kind : MutationKind). subst (Shows results kind result.target) refs in
      record {
        presence = λ e.
            cite remove_field
              (elim (note_kind-presence result.kind (failed result) found (noted entry) e) [
                | inl now ↦ own remove_field entry now
                | inr before ↦ grown remove_field entry (old.presence before)
              ]);
        nullable = λ e.
            cite null_field
              (elim (note_kind-nullable result.kind (failed result) found (noted entry) e) [
                | inl now ↦ own null_field entry now
                | inr before ↦ grown null_field entry (old.nullable before)
              ]);
        accepted_empty = λ e.
            cite empty_string
              (elim (note_kind-accepted_empty result.kind (failed result) found (noted entry) e) [
                | inl now ↦ own empty_string entry now
                | inr before ↦ grown empty_string entry (old.accepted_empty before)
              ]);
        types = λ e.
            cite wrong_primitive_type
              (elim (note_kind-types result.kind (failed result) found (noted entry)) [
                | inl now ↦ own wrong_primitive_type entry now
                | inr same ↦
                    grown wrong_primitive_type entry (old.types (λ none_yet. e (same ∙ none_yet)))
              ]);
      }

  note_severity-IsShown :
      (b : RequirementBuilder)
      → IsShown results result.target b
      → IsShown results result.target (note_severity result b)
  unfolding note_severity
  note_severity-IsShown b h = elim (Bool-cases (failed result)) [
    | inl fails ↦ rw fails (record {
      presence = h.presence;
      nullable = h.nullable;
      accepted_empty = h.accepted_empty;
      types = h.types;
    })
    | inr passes ↦ rw passes h
  ]

  default-IsShown : IsShown results result.target default_builder
  default-IsShown = record {
    presence = λ e. cc;
    nullable = λ e. cc;
    accepted_empty = λ e. cc;
    types = λ e. absurd (e refl);
  }

  or_default-IsShown :
      (builders : BTreeMap RequirementBuilder)
      → Entries (IsShown results) builders
      → IsShown results result.target (or_default (get result.target builders))
  unfolding or_default
  or_default-IsShown builders h = elim (Option-cases (get result.target builders)) [
    | inl nothing ↦ rw (nothing, or_default) default-IsShown
    | inr (b, found) ↦
        rw (found, or_default) (Entries-get (IsShown results) result.target builders h found)
  ]

  update_requirement-IsShown :
      (builders : BTreeMap RequirementBuilder)
      → Entries (IsShown results) builders
      → Entries (IsShown results) (update_requirement pointer builders result baseline)
  unfolding update_requirement
  update_requirement-IsShown builders h =
      let entry = get result.target builders in
      let undecided =
        trial_eq result.outcome TrialOutcome.inconclusive
        || not (starts_with result.target "response.body") in
      elim (Bool-cases undecided) [
        | inl skip ↦ rw skip h
        | inr decided ↦ elim (Bool-cases (is_relevant result.kind)) [
          | inl relevant ↦
              rw (decided, relevant)
                (Entries-insert (IsShown results) result.target _ builders
                  (note_severity-IsShown _ (
                    note_kind-IsShown (baseline_type_at_target pointer baseline result.target) entry
                      (or_default-IsShown builders h)))
                  h)
          | inr other ↦ rw (decided, other) h
        ]
      ]

module _ {E : Type 0} (callees : Callees E) (baselines : BTreeMap ResponseRecord)
    (results : List TrialResult) (b : Builders)
    (collected : collect callees baselines results no_builders ≡ ok b) where
  pub collect-IsShown : Entries (IsShown results) b.requirements
  collect-IsShown =
      collect_inv callees baselines (λ k. Entries (IsShown results) k.requirements) results
        (λ r baseline k listed h.
          unfold step in
          update_requirement-IsShown callees.pointer results r listed baseline k.requirements h)
        no_builders b tt collected
