-- ===== src/ContractEngine/Citing.antt =====
-- The evidence of a failing trial stays in the assumption map, crates/contract-engine/src/lib.rs.
use wire_assume.Prelude.{
  str_eq, Bool-cases, Option-cases, All, ok, BTreeMap, get, get-insert, contains, set_insert,
  contains-set_insert, String, ◌≡◌, ap, subst, ◌∙◌, inl, inr, true, Option, none, some, List, [],
  ◌∷◌, arith, eq_iff, eq_refl,
}
use wire_assume.Model.Corpus.{ResponseRecord}
use wire_assume.Experiment.Report.{TrialResult}
use wire_assume.ContractEngine.Kinds.{assumption_from_failure}
use wire_assume.ContractEngine.Build.{
  AssumptionBuilder, Builders, Callees, failed, or_new, add_evidence, assumption_key,
  update_assumption,
}
use wire_assume.ContractEngine.Lock.{step, collect}

-- The entry of the key has the evidence.
pub record Cites (key evidence : String) (m : BTreeMap AssumptionBuilder) : Type 0 where
  pub builder : AssumptionBuilder
  pub found : get key m ≡ some builder
  pub cited : contains builder.evidence_refs evidence ≡ true

module _ (r : TrialResult) where
  abbrev entry_of : String × String × String → BTreeMap AssumptionBuilder → AssumptionBuilder
  entry_of (t, b, s) m =
      let old = or_new r.target (t, b, s) (get (assumption_key t r.target b) m) in
      record old { evidence_refs = set_insert r.evidence_id old.evidence_refs }

  own-Cites :
      (t b s : String) (m : BTreeMap AssumptionBuilder)
      → Cites (assumption_key t r.target b) r.evidence_id (add_evidence r (some (t, b, s)) m)
  unfolding add_evidence
  own-Cites t b s m =
      let key = assumption_key t r.target b in
      record {
        builder = entry_of (t, b, s) m;
        found = ground (arith, get-insert key key (entry_of (t, b, s) m) m, eq_refl key);
        cited = ground (
          arith,
          eq_refl r.evidence_id,
          contains-set_insert r.evidence_id r.evidence_id
              (or_new r.target (t, b, s) (get key m)).evidence_refs,
        );
      }

  add_evidence-Cites :
      (key e : String) (said : Option (String × String × String)) (m : BTreeMap AssumptionBuilder)
      → Cites key e m
      → Cites key e (add_evidence r said m)
  unfolding add_evidence
  add_evidence-Cites key e none m h = h
  add_evidence-Cites key e (some (t, b, s)) m h =
      let mine = assumption_key t r.target b in
      elim (Bool-cases (str_eq mine key)) [
        | inr other ↦ record {
          builder = h.builder;
          found = ground (arith, get-insert mine key (entry_of (t, b, s) m) m, h.found);
          cited = h.cited;
        }
        | inl same ↦
            let at_mine : get mine m ≡ some h.builder =
              ap (λ k. get k m) ((eq_iff mine key).0 same) ∙ h.found in
            record {
              builder = entry_of (t, b, s) m;
              found = ground (arith, get-insert mine key (entry_of (t, b, s) m) m);
              cited =
                  rw (at_mine, or_new)
                    (contains-set_insert r.evidence_id e h.builder.evidence_refs
                      ∙ ground (arith, h.cited));
            }
      ]

  update_assumption-Cites :
      (key e : String) (m : BTreeMap AssumptionBuilder)
      → Cites key e m
      → Cites key e (update_assumption m r)
  unfolding update_assumption
  update_assumption-Cites key e m h = elim (Bool-cases (failed r)) [
    | inl fails ↦ rw fails (add_evidence-Cites key e (assumption_from_failure r) m h)
    | inr passes ↦ rw passes h
  ]

module _ {E : Type 0} (callees : Callees E) (baselines : BTreeMap ResponseRecord) where
  collect-keeps-Cites :
      (key e : String) (results : List TrialResult) (b b' : Builders)
      → collect callees baselines results b ≡ ok b'
      → Cites key e b.assumptions
      → Cites key e b'.assumptions
  unfolding collect
  collect-keeps-Cites key e [] b b' same h = subst (λ k. Cites key e k) (ground arith) h
  collect-keeps-Cites key e (r ∷ rs) b b' ends h =
      elim (Option-cases (get r.interaction_id baselines)) [
        | inl nothing ↦ absurd (ground (arith, nothing))
        | inr (baseline, found) ↦
            collect-keeps-Cites key e rs (step callees r baseline b) b' (ground (arith, found))
              (unfold step in update_assumption-Cites r key e b.assumptions h)
      ]

  -- What a failing trial says is in the map at the end, with its evidence.
  abbrev pub IsCited : BTreeMap AssumptionBuilder → TrialResult → Type 0
  IsCited m r =
      failed r ≡ true
      → (t b s : String) → assumption_from_failure r ≡ some (t, b, s)
      → Cites (assumption_key t r.target b) r.evidence_id m

  pub collect-IsCited :
      (results : List TrialResult) (b b' : Builders)
      → collect callees baselines results b ≡ ok b'
      → All (IsCited b'.assumptions) results
  unfolding collect
  collect-IsCited [] b b' ends = tt
  collect-IsCited (r ∷ rs) b b' ends = elim (Option-cases (get r.interaction_id baselines)) [
    | inl nothing ↦ absurd (ground (arith, nothing))
    | inr (baseline, found) ↦
        let ends' : collect callees baselines rs (step callees r baseline b) ≡ ok b' =
          ground (arith, found) in
        (
          λ fails t c s says.
              collect-keeps-Cites (assumption_key t r.target c) r.evidence_id rs
                (step callees r baseline b) b' ends'
                (unfold step update_assumption in
                  rw (fails, says) (own-Cites r t c s b.assumptions)),
          collect-IsCited rs (step callees r baseline b) b' ends',
        )
  ]
