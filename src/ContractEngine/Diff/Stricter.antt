-- ===== src/ContractEngine/Diff/Stricter.antt =====
-- Breaking requirements in crates/contract-engine/src/diff.rs.
use wire_assume.Prelude.{
  str_eq, Bool-cases, any, option_eq, BTreeMap, get, BTreeSet, contains, set_insert,
  contains-set_insert, is_some, String, ◌≡◌, refl, ap, ◌∙◌, inl, inr, true, false, ◌||◌, Option,
  none, some, [], ◌∷◌, arith, eq_iff,
}
use wire_assume.ContractEngine.Records.{ConsumptionLock, Requirement}
use wire_assume.ContractEngine.Diff.{
  RequirementDelta, by_path, shape_of, shape_eq, requirement_shape, stricter,
  classify_requirement_change, insert_keys, requirement_changes, is_required, diff_contracts,
}

insert_keys-contains :
    (m : BTreeMap Requirement) (keys : BTreeSet) (k : String)
    → contains (insert_keys m keys) k ≡ (is_some (get k m) || contains keys k)
unfolding insert_keys get
insert_keys-contains [] keys k = refl
insert_keys-contains ((j, r) ∷ m) keys k =
    ground (arith, insert_keys-contains m (set_insert j keys) k, contains-set_insert j k keys)

abbrev pub presence_of : Option Requirement → Option String
presence_of none = none
presence_of (some r) = r.presence

module _ (bases heads : BTreeMap Requirement) (target : String) where
  changes-breaking :
      (targets : BTreeSet)
      → contains targets target ≡ true
      → option_eq shape_eq (shape_of (get target bases)) (shape_of (get target heads)) ≡ false
      → (classify_requirement_change (get target bases) (get target heads)).0 ≡ true
      → any (λ (c : RequirementDelta). c.breaking) (requirement_changes bases heads targets) ≡ true
  unfolding requirement_changes contains
  changes-breaking [] listed differ breaks = cc
  changes-breaking (t ∷ ts) listed differ breaks = elim (Bool-cases (str_eq t target)) [
    | inl same ↦ let e : t ≡ target = (eq_iff t target).0 same in rw e (rw (differ, breaks) refl)
    | inr other ↦ ground (arith, changes-breaking ts)
  ]

presences-differ :
    (p q : Option String)
    → is_required p ≡ false
    → is_required q ≡ true
    → option_eq str_eq p q ≡ false
presences-differ none none h k = cc
presences-differ none (some y) h k = refl
presences-differ (some x) none h k = refl
presences-differ (some x) (some y) h k = ground (arith, eq_iff x y)

requires-differ :
    (o : Option Requirement) (r : Requirement)
    → is_required (presence_of o) ≡ false
    → is_required r.presence ≡ true
    → option_eq shape_eq (shape_of o) (some (requirement_shape r)) ≡ false
unfolding requirement_shape
requires-differ none r old new = refl
requires-differ (some b) r old new = rw (presences-differ b.presence r.presence old new) refl

requires-breaks :
    (o : Option Requirement) (r : Requirement)
    → is_required (presence_of o) ≡ false
    → is_required r.presence ≡ true
    → (classify_requirement_change o (some r)).0 ≡ true
unfolding classify_requirement_change stricter
requires-breaks none r old new = refl
requires-breaks (some b) r old new = rw (old, new) refl

-- A path that the new lock says must be present, and for which the old lock says nothing or does not say so, makes the
-- difference breaking.
pub diff-required-breaks :
    (base head : ConsumptionLock) (path : String) (r : Requirement)
    → get path (by_path head.requirements) ≡ some r
    → is_required r.presence ≡ true
    → is_required (presence_of (get path (by_path base.requirements))) ≡ false
    → (diff_contracts base head).breaking ≡ true
unfolding diff_contracts
diff-required-breaks base head path r found new old =
    let bases = by_path base.requirements in
    let heads = by_path head.requirements in
    let b = get path bases in
    let targets = insert_keys heads (insert_keys bases []) in
    let listed : contains targets path ≡ true =
      insert_keys-contains heads (insert_keys bases []) path
      ∙ ap (λ o. is_some o || contains (insert_keys bases []) path) found in
    let change =
      changes-breaking bases heads path targets listed
        (ap (λ o. option_eq shape_eq (shape_of b) (shape_of o)) found ∙ requires-differ b r old new)
        (ap (λ o. (classify_requirement_change b o).0) found ∙ requires-breaks b r old new) in
    rw change (ground arith)
