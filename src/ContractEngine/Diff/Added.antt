-- ===== src/ContractEngine/Diff/Added.antt =====
-- Added and removed assumptions in crates/contract-engine/src/diff.rs.
use wire_assume.Prelude.{
  str_eq, any, any-sort_by, BTreeMap, get, insert, get-insert, IsOrdered, insert-IsOrdered, is_some,
  Entries, Entries-insert, String, ◌≡◌, refl, ap₂, ◌∙◌, Bool, true, false, not, ◌&&◌, ◌||◌, List,
  [], ◌∷◌, arith, eq_iff,
}
use wire_assume.ContractEngine.Records.{ConsumptionLock, Assumption}
use wire_assume.ContractEngine.Diff.{
  AssumptionDelta, index_by, by_id, missing_from, is_nil, delta_order, diff_contracts,
}

abbrev pub lists_id : String → List AssumptionDelta → Bool
lists_id id deltas = any (λ (d : AssumptionDelta). str_eq d.id id) deltas

abbrev pub has_id : String → List Assumption → Bool
has_id id assumptions = any (λ (a : Assumption). str_eq a.id id) assumptions

index_by-has :
    {A : Type 0} (key : A → String) (id : String) (xs : List A) (m : BTreeMap A)
    → is_some (get id (index_by key xs m)) ≡ (any (λ x. str_eq (key x) id) xs || is_some (get id m))
unfolding index_by
index_by-has key id [] m = refl
index_by-has key id (x ∷ xs) m =
    ground (arith, index_by-has key id xs (insert (key x) x m), get-insert (key x) id x m)

pub index_by-keys :
    {A : Type 0} (key : A → String) (xs : List A) (m : BTreeMap A)
    → Entries (λ k x. key x ≡ k) m
    → Entries (λ k x. key x ≡ k) (index_by key xs m)
unfolding index_by
index_by-keys key [] m h = h
index_by-keys key (x ∷ xs) m h =
    index_by-keys key xs (insert (key x) x m) (Entries-insert _ (key x) x m refl h)

pub index_by-IsOrdered :
    {A : Type 0} (key : A → String) (xs : List A) (m : BTreeMap A)
    → IsOrdered m
    → IsOrdered (index_by key xs m)
unfolding index_by
index_by-IsOrdered key [] m h = h
index_by-IsOrdered key (x ∷ xs) m h =
    index_by-IsOrdered key xs (insert (key x) x m) (insert-IsOrdered (key x) x m h)

missing_from-lists :
    (id : String) (m other : BTreeMap Assumption)
    → Entries (λ k (a : Assumption). a.id ≡ k) m
    → lists_id id (missing_from m other) ≡ (is_some (get id m) && not (is_some (get id other)))
unfolding missing_from get
missing_from-lists id [] other h = refl
missing_from-lists id ((k, a) ∷ m) other h =
    ground (arith, h.0, eq_iff k id, eq_iff a.id id, missing_from-lists id m other h.1)

by_id-has :
    (id : String) (assumptions : List Assumption)
    → is_some (get id (by_id assumptions)) ≡ has_id id assumptions
unfolding get
by_id-has id assumptions = ground (arith, index_by-has (λ (a : Assumption). a.id) id assumptions [])

-- An assumption's id is among the added ones exactly when the new lock has an assumption of that id and
-- the old lock has none.
pub diff-added :
    (base head : ConsumptionLock) (id : String)
    → lists_id id (diff_contracts base head).added_assumptions
      ≡ (has_id id head.assumptions && not (has_id id base.assumptions))
unfolding diff_contracts
diff-added base head id =
    any-sort_by delta_order (λ (d : AssumptionDelta). str_eq d.id id)
      (missing_from (by_id head.assumptions) (by_id base.assumptions))
    ∙ missing_from-lists id (by_id head.assumptions) (by_id base.assumptions)
        (index_by-keys (λ (a : Assumption). a.id) head.assumptions [] tt)
    ∙ ap₂ (λ new old. new && not old) (by_id-has id head.assumptions)
        (by_id-has id base.assumptions)

-- What is removed from one lock to the other is what is added from the other to the one.
pub diff-removed :
    (base head : ConsumptionLock)
    → (diff_contracts base head).removed_assumptions ≡ (diff_contracts head base).added_assumptions
unfolding diff_contracts
diff-removed base head = refl

listed-not-nil :
    (id : String) (ds : List AssumptionDelta) → lists_id id ds ≡ true → is_nil ds ≡ false
listed-not-nil id [] h = cc
listed-not-nil id (d ∷ ds) h = refl

added-breaks :
    (base head : ConsumptionLock)
    → is_nil (diff_contracts base head).added_assumptions ≡ false
    → (diff_contracts base head).breaking ≡ true
unfolding diff_contracts
added-breaks base head h = rw h refl

-- A new lock with an assumption whose id the old lock has not is breaking.
pub diff-added-breaks :
    (base head : ConsumptionLock) (id : String)
    → has_id id head.assumptions ≡ true
    → has_id id base.assumptions ≡ false
    → (diff_contracts base head).breaking ≡ true
diff-added-breaks base head id new old = added-breaks base head (
    listed-not-nil id (diff_contracts base head).added_assumptions
      (diff-added base head id ∙ ap₂ (λ a b. a && not b) new old))
