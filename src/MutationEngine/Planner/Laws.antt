-- ===== src/MutationEngine/Planner/Laws.antt =====
-- The plans of crates/mutation-engine/src/planner.rs.
use wire_assume.Prelude.{
  Bool-cases, length, take, length-take, All, All-take, dedup_after, dedup_by, All-dedup_by,
  All-filter, str_cmp, str_cmp-IsTotalOrder, IsSorted, sort_by-IsSorted, All-sort_by, IsWeakOrder,
  by_key-IsWeakOrder, then-IsWeakOrder, above_trans, below-total, ℕ, zero, suc, min, String, ◌≡◌,
  inl, inr, Bool, true, List, [], ◌∷◌,
}
use wire_assume.Model.Json.{Value}
use wire_assume.MutationEngine.Kind.{kind_cmp, kind_cmp-IsTotalOrder}
use wire_assume.MutationEngine.Mutation.{Mutation}
use wire_assume.MutationEngine.Planner.{
  PlannerConfig, Mutator, generate_all, is_enabled, is_untested, plan_order, candidates, plan,
}

-- What holds of every generated mutation holds of every planned one, and the planned ones are of an
-- enabled kind (of any kind if none is named) and not tested before.
pub plan-All :
    (mutators : List Mutator) (baseline : Value) (config : PlannerConfig)
    (already_tested : List String) (P : Mutation → Type 0)
    → All P (generate_all mutators baseline config.seed)
    → All
        (λ m. (P m × (is_enabled config m ≡ true)) × (is_untested already_tested m ≡ true))
        (plan mutators baseline config already_tested).selected
unfolding plan candidates
plan-All mutators baseline config already_tested P h = All-take _ config.budget _ (
    All-dedup_by _ _ _ (
      All-sort_by plan_order _ _
        (All-filter _ (is_untested already_tested) _ (All-filter P (is_enabled config) _ h))))

-- A plan has as many mutations as its budget allows: all of the `generated` ones, or `budget` of them.
pub plan-length :
    (mutators : List Mutator) (baseline : Value) (config : PlannerConfig)
    (already_tested : List String)
    → length (plan mutators baseline config already_tested).selected
      ≡ min config.budget (plan mutators baseline config already_tested).generated
unfolding plan
plan-length mutators baseline config already_tested =
    length-take config.budget (candidates mutators baseline config already_tested)

plan_order-IsWeakOrder : IsWeakOrder plan_order
plan_order-IsWeakOrder =
    then-IsWeakOrder _ _
      (then-IsWeakOrder _ _
        (by_key-IsWeakOrder str_cmp str_cmp-IsTotalOrder (λ (m : Mutation). m.path))
        (by_key-IsWeakOrder kind_cmp kind_cmp-IsTotalOrder (λ (m : Mutation). m.kind)))
      (by_key-IsWeakOrder str_cmp str_cmp-IsTotalOrder (λ (m : Mutation). m.id))

without-second :
    (a b : Mutation) (ms : List Mutation)
    → IsSorted plan_order (a ∷ b ∷ ms)
    → IsSorted plan_order (a ∷ ms)
without-second a b [] h = tt
without-second a b (c ∷ ms) h =
    (above_trans plan_order plan_order-IsWeakOrder a b c h.0 h.1.0, h.1.1)

module _ (same : Mutation → Mutation → Bool) where
  dedup_after-IsSorted :
      (kept : Mutation) (ms : List Mutation)
      → IsSorted plan_order (kept ∷ ms)
      → IsSorted plan_order (kept ∷ dedup_after same kept ms)
  unfolding dedup_after
  dedup_after-IsSorted kept [] h = tt
  dedup_after-IsSorted kept (m ∷ ms) h = elim (Bool-cases (same m kept)) [
    | inl equal ↦ rw equal (dedup_after-IsSorted kept ms (without-second kept m ms h))
    | inr other ↦ rw other (h.0, dedup_after-IsSorted m ms h.1)
  ]

  dedup_by-IsSorted :
      (ms : List Mutation) → IsSorted plan_order ms → IsSorted plan_order (dedup_by same ms)
  unfolding dedup_by
  dedup_by-IsSorted [] h = tt
  dedup_by-IsSorted (m ∷ ms) h = dedup_after-IsSorted m ms h

take-IsSorted :
    (n : ℕ) (ms : List Mutation) → IsSorted plan_order ms → IsSorted plan_order (take n ms)
take-IsSorted zero ms h = tt
take-IsSorted (suc n) [] h = tt
take-IsSorted (suc zero) (m ∷ ms) h = tt
take-IsSorted (suc (suc n)) (m ∷ []) h = tt
take-IsSorted (suc (suc n)) (m ∷ k ∷ ms) h = (h.0, take-IsSorted (suc n) (k ∷ ms) h.1)

-- A plan is sorted by path, then kind, then id.
pub plan-IsSorted :
    (mutators : List Mutator) (baseline : Value) (config : PlannerConfig)
    (already_tested : List String)
    → IsSorted plan_order (plan mutators baseline config already_tested).selected
unfolding plan candidates
plan-IsSorted mutators baseline config already_tested = take-IsSorted config.budget _ (
    dedup_by-IsSorted _ _
      (sort_by-IsSorted plan_order (below-total plan_order plan_order-IsWeakOrder) _))
