-- ===== src/ContractEngine/Diff/Same.antt =====
-- The comparison of a lock with itself in crates/contract-engine/src/diff.rs.
use wire_assume.Prelude.{
  str_eq, option_eq, bool_eq, list_eq_refl, option_eq_refl, bool_eq_refl, sort_by, BTreeMap, get,
  BTreeSet, Entries, Entries-found, ◌≡◌, refl, true, false, Option, none, some, [], ◌∷◌, arith,
  eq_refl,
}
use wire_assume.ContractEngine.Records.{ConsumptionLock, Requirement, Assumption}
use wire_assume.ContractEngine.Diff.{
  by_id, by_path, shape_of, shape_eq, missing_from, requirement_shape, insert_keys,
  requirement_changes, compared, provider_changes, diff_contracts,
}
use wire_assume.ContractEngine.Diff.Added.{index_by-IsOrdered}

missing_from-none :
    (m other : BTreeMap Assumption)
    → Entries (λ k a. get k other ≡ some a) m
    → missing_from m other ≡ []
unfolding missing_from
missing_from-none [] other h = refl
missing_from-none ((k, a) ∷ m) other h = rw (h.0, missing_from) (missing_from-none m other h.1)

provider_changes-none :
    (m heads : BTreeMap Assumption)
    → Entries (λ k a. get k heads ≡ some a) m
    → provider_changes m heads ≡ []
unfolding provider_changes compared
provider_changes-none [] heads h = refl
provider_changes-none ((k, a) ∷ m) heads h =
    rw (h.0, provider_changes, eq_refl a.provider_comparison) (provider_changes-none m heads h.1)

shape_eq_refl : (s : Requirement) → shape_eq (requirement_shape s) (requirement_shape s) ≡ true
shape_eq_refl r =
    let s = requirement_shape r in
    ground (
      arith,
      option_eq_refl str_eq s.presence eq_refl,
      list_eq_refl str_eq s.types eq_refl,
      option_eq_refl bool_eq s.nullable bool_eq_refl,
      option_eq_refl bool_eq s.accepted_empty bool_eq_refl,
    )

shape_of_refl : (o : Option Requirement) → option_eq shape_eq (shape_of o) (shape_of o) ≡ true
shape_of_refl none = refl
shape_of_refl (some r) = shape_eq_refl r

requirement_changes-none :
    (m : BTreeMap Requirement) (targets : BTreeSet) → requirement_changes m m targets ≡ []
unfolding requirement_changes
requirement_changes-none m [] = refl
requirement_changes-none m (t ∷ ts) = rw (shape_of_refl (get t m)) (requirement_changes-none m ts)

-- Compared with itself, a lock has no change at all and nothing is breaking.
pub diff_self :
    (lock : ConsumptionLock)
    → diff_contracts lock lock ≡ record {
      base_revision = lock.metadata.source_revision.value;
      head_revision = lock.metadata.source_revision.value;
      added_assumptions = [];
      removed_assumptions = [];
      requirement_changes = [];
      provider_comparison_changes = [];
      breaking = false;
    }
unfolding diff_contracts sort_by
diff_self lock =
    let m = by_id lock.assumptions in
    let found : Entries (λ k a. get k m ≡ some a) m =
      Entries-found m (index_by-IsOrdered (λ (a : Assumption). a.id) lock.assumptions [] tt) in
    rw
      (
        missing_from-none m m found,
        provider_changes-none m m found,
        requirement_changes-none (by_path lock.requirements)
            (insert_keys (by_path lock.requirements) (insert_keys (by_path lock.requirements) [])),
      )
      refl
