-- ===== src/ContractEngine/Assumptions.antt =====
-- Which trials stand behind an assumption of crates/contract-engine/src/lib.rs, and which trials end
-- in one.
use mathlib.Core.List.{Mem}
use wire_assume.Prelude.{
  str_eq, Bool-cases, Option-cases, ok, BTreeMap, get, BTreeSet, contains, set_insert,
  contains-set_insert, Entries, Entries-insert, Entries-get, String, ◌≡◌, refl, sym, ap₂, subst,
  ◌∙◌, inl, inr, true, false, some, List, [], arith, eq_iff,
}
use wire_assume.Model.Corpus.{ResponseRecord}
use wire_assume.Experiment.Report.{TrialResult}
use wire_assume.ContractEngine.Kinds.{assumption_from_failure}
use wire_assume.ContractEngine.Keys.{has_nul, assumption_key_inj, assumption_for-IsClean, IsClean}
use wire_assume.ContractEngine.Build.{
  AssumptionBuilder, Builders, Callees, failed, target_ref, or_new, add_evidence, assumption_key,
  update_assumption,
}
use wire_assume.ContractEngine.Lock.{step, collect, no_builders}
use wire_assume.ContractEngine.Collect.{collect_inv}

-- A failing trial at the target with the evidence, whose kind says this of the consumer.
pub record Fails (results : List TrialResult) (assumption_type target behavior evidence : String)
    : Type 0 where
  pub trial : TrialResult
  pub listed : Mem trial results
  pub failing : failed trial ≡ true
  pub at_target : trial.target ≡ target
  pub with_evidence : trial.evidence_id ≡ evidence
  pub severity : String
  pub says : assumption_from_failure trial ≡ some (assumption_type, behavior, severity)

pub record IsBacked (results : List TrialResult) (key : String) (b : AssumptionBuilder)
    : Type 0 where
  pub target : String
  pub key_is : key ≡ assumption_key b.assumption_type target b.behavior
  pub names : b.target ≡ target_ref target
  pub clean_type : has_nul b.assumption_type ≡ false
  pub clean_behavior : has_nul b.behavior ≡ false
  pub evidence :
      (e : String)
      → contains b.evidence_refs e ≡ true
      → Fails results b.assumption_type target b.behavior e

Fails-cast :
    {results : List TrialResult} {t t' x x' b b' e : String}
    → t ≡ t'
    → x ≡ x'
    → b ≡ b'
    → Fails results t x b e
    → Fails results t' x' b' e
Fails-cast p q r h = record {
  trial = h.trial;
  listed = h.listed;
  failing = h.failing;
  at_target = h.at_target ∙ q;
  with_evidence = h.with_evidence;
  severity = h.severity;
  says = h.says ∙ ap₂ (λ i j. some (i, j, h.severity)) p r;
}

pub says-clean :
    (r : TrialResult) (t b s : String)
    → assumption_from_failure r ≡ some (t, b, s)
    → (has_nul t ≡ false) × (has_nul b ≡ false)
unfolding assumption_from_failure
says-clean r t b s e = subst IsClean e (assumption_for-IsClean r.kind)

module _ (results : List TrialResult) (r : TrialResult) (listed : Mem r results)
    (failing : failed r ≡ true) (t b s : String)
    (says : assumption_from_failure r ≡ some (t, b, s)) where
  own : Fails results t r.target b r.evidence_id
  own = record {
    trial = r;
    listed = listed;
    failing = failing;
    at_target = refl;
    with_evidence = refl;
    severity = s;
    says = says;
  }

  -- The new set of evidence: the trial's own, or what was there.
  with_own :
      (refs : BTreeSet)
      → ((e : String) → contains refs e ≡ true → Fails results t r.target b e)
      → (e : String) → contains (set_insert r.evidence_id refs) e ≡ true
      → Fails results t r.target b e
  with_own refs old e h = elim (Bool-cases (str_eq r.evidence_id e)) [
    | inl same ↦ subst (Fails results t r.target b) ((eq_iff _ _).0 same) own
    | inr other ↦ old e (ground (arith, contains-set_insert r.evidence_id e refs))
  ]

  old-IsBacked :
      (old : AssumptionBuilder)
      → IsBacked results (assumption_key t r.target b) old
      → IsBacked results
          (assumption_key t r.target b)
          (record old { evidence_refs = set_insert r.evidence_id old.evidence_refs })
  old-IsBacked old backed =
      let (clean_t, clean_b) = says-clean r t b s says in
      let (types, targets, behaviors) =
        assumption_key_inj old.assumption_type backed.target old.behavior t r.target b
          backed.clean_type clean_t backed.clean_behavior clean_b (sym backed.key_is) in
      record {
        target = backed.target;
        key_is = backed.key_is;
        names = backed.names;
        clean_type = backed.clean_type;
        clean_behavior = backed.clean_behavior;
        evidence = λ e cited. Fails-cast (sym types) (sym targets) (sym behaviors) (
            with_own old.evidence_refs
              (λ e' before. Fails-cast types targets behaviors (backed.evidence e' before)) e
              cited);
      }

  add_evidence-IsBacked :
      (builders : BTreeMap AssumptionBuilder)
      → Entries (IsBacked results) builders
      → Entries (IsBacked results) (add_evidence r (some (t, b, s)) builders)
  unfolding add_evidence or_new contains
  add_evidence-IsBacked builders h =
      let key = assumption_key t r.target b in
      let (clean_t, clean_b) = says-clean r t b s says in
      elim (Option-cases (get key builders)) [
        | inl nothing ↦
            rw (nothing, or_new)
              (Entries-insert (IsBacked results) key _ builders
                (record {
                  target = r.target;
                  key_is = refl;
                  names = refl;
                  clean_type = clean_t;
                  clean_behavior = clean_b;
                  evidence = with_own [] (λ e none_there. cc none_there);
                })
                h)
        | inr (old, found) ↦
            rw (found, or_new)
              (Entries-insert (IsBacked results) key _ builders
                (old-IsBacked old (Entries-get (IsBacked results) key builders h found)) h)
      ]

update_assumption-IsBacked :
    (results : List TrialResult) (r : TrialResult) (builders : BTreeMap AssumptionBuilder)
    → Mem r results
    → Entries (IsBacked results) builders
    → Entries (IsBacked results) (update_assumption builders r)
unfolding update_assumption
update_assumption-IsBacked results r builders listed h = elim (Bool-cases (failed r)) [
  | inr passes ↦ rw passes h
  | inl fails ↦ elim (Option-cases (assumption_from_failure r)) [
    | inl nothing ↦ rw (fails, nothing, add_evidence) h
    | inr (said, says) ↦
        rw (fails, says)
          (add_evidence-IsBacked results r listed fails said.0 said.1 said.2 says builders h)
  ]
]

module _ {E : Type 0} (callees : Callees E) (baselines : BTreeMap ResponseRecord)
    (results : List TrialResult) (b : Builders)
    (collected : collect callees baselines results no_builders ≡ ok b) where
  pub collect-IsBacked : Entries (IsBacked results) b.assumptions
  collect-IsBacked =
      collect_inv callees baselines (λ k. Entries (IsBacked results) k.assumptions) results
        (λ r baseline k listed h.
          unfold step in update_assumption-IsBacked results r k.assumptions listed h)
        no_builders b tt collected
