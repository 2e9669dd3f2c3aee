-- ===== src/ContractEngine/Diff.antt =====
-- crates/contract-engine/src/diff.rs: the comparison of two locks.
pub mod Added
pub mod Stricter
pub mod Same
mod Samples
use wire_assume.Prelude.{
  str_eq, if◌then◌else◌, any, list_eq, option_eq, bool_eq, then_cmp, str_cmp, sort_by, BTreeMap,
  get, insert, BTreeSet, set_insert, is_some, join, Ordering, String, Bool, true, false, not, ◌&&◌,
  ◌||◌, Option, none, some, List, [], ◌∷◌, ◌++◌,
}
use wire_assume.ContractEngine.Records.{ConsumptionLock, Requirement, Assumption}

pub record AssumptionDelta : Type 0 where
  pub id : String
  pub assumption_type : String
  pub target : String
  pub behavior : String
  pub severity : String

pub record RequirementShape : Type 0 where
  pub presence : Option String
  pub types : List String
  pub nullable : Option Bool
  pub accepted_empty : Option Bool

pub record RequirementDelta : Type 0 where
  pub target : String
  pub base : Option RequirementShape
  pub head : Option RequirementShape
  pub breaking : Bool
  pub reason : String

pub record ProviderComparisonDelta : Type 0 where
  pub assumption_id : String
  pub target : String
  pub base : String
  pub head : String

pub record ContractDiff : Type 0 where
  pub base_revision : String
  pub head_revision : String
  pub added_assumptions : List AssumptionDelta
  pub removed_assumptions : List AssumptionDelta
  pub requirement_changes : List RequirementDelta
  pub provider_comparison_changes : List ProviderComparisonDelta
  pub breaking : Bool

-- `iter().map(|x| (key(x), x)).collect()`: of equal keys the last one stays.
unfoldable pub index_by {ℓ} : {A : Type ℓ} → (A → String) → List A → BTreeMap A → BTreeMap A
index_by key [] m = m
index_by key (x ∷ xs) m = index_by key xs (insert (key x) x m)

abbrev pub by_id : List Assumption → BTreeMap Assumption
by_id assumptions = index_by (λ (a : Assumption). a.id) assumptions []

abbrev pub by_path : List Requirement → BTreeMap Requirement
by_path requirements = index_by (λ (r : Requirement). r.target.path) requirements []

abbrev pub assumption_delta : Assumption → AssumptionDelta
assumption_delta a = record {
  id = a.id;
  assumption_type = a.assumption_type;
  target = a.target.path;
  behavior = a.behavior;
  severity = a.severity;
}

pub delta_order : AssumptionDelta → AssumptionDelta → Ordering
delta_order a b =
    then_cmp (then_cmp (str_cmp a.target b.target) (str_cmp a.assumption_type b.assumption_type))
      (str_cmp a.id b.id)

-- The assumptions of the first map whose id the second has not.
pub missing_from : BTreeMap Assumption → BTreeMap Assumption → List AssumptionDelta
missing_from [] other = []
missing_from ((id, a) ∷ m) other =
    if is_some (get id other)
    then missing_from m other
    else assumption_delta a ∷ missing_from m other

-- `dedup` on texts: of equal neighbours one stays.
pub dedup : List String → List String
dedup [] = []
dedup (x ∷ []) = x ∷ []
dedup (x ∷ y ∷ ys) = let rest = dedup (y ∷ ys) in if str_eq x y then rest else x ∷ rest

pub requirement_shape : Requirement → RequirementShape
unfolding dedup
requirement_shape r = record {
  presence = r.presence;
  types = dedup (sort_by str_cmp r.types);
  nullable = r.nullable;
  accepted_empty = r.accepted_empty;
}

abbrev pub shape_of : Option Requirement → Option RequirementShape
shape_of none = none
shape_of (some r) = some (requirement_shape r)

-- The derived `PartialEq`.
abbrev pub shape_eq : RequirementShape → RequirementShape → Bool
shape_eq a b =
    option_eq str_eq a.presence b.presence
    && list_eq str_eq a.types b.types
    && option_eq bool_eq a.nullable b.nullable
    && option_eq bool_eq a.accepted_empty b.accepted_empty

pub type_set : List String → BTreeSet
type_set [] = []
type_set (t ∷ ts) = set_insert t (type_set ts)

abbrev pub when : Bool → String → List String
when true text = text ∷ []
when false text = []

abbrev pub is_required : Option String → Bool
is_required presence = option_eq str_eq presence (some "required")

abbrev pub is_rejected : Option Bool → Bool
is_rejected o = option_eq bool_eq o (some false)

abbrev no_types : BTreeSet → Bool
no_types [] = true
no_types (t ∷ ts) = false

pub stricter : Requirement → Requirement → List String
unfolding type_set
stricter base head =
    when (not (is_required base.presence) && is_required head.presence) "presence became required"
    ++ when (not (is_rejected base.nullable) && is_rejected head.nullable) "null became rejected"
    ++ when (not (is_rejected base.accepted_empty) && is_rejected head.accepted_empty)
        "empty value became rejected"
    ++ when
        (not (no_types (type_set head.types))
          && not (list_eq str_eq (type_set base.types) (type_set head.types)))
        "accepted/observed type requirement changed"

abbrev verdict : List String → Bool × String
verdict [] = (false, "consumer requirement changed without becoming stricter")
verdict (t ∷ ts) = (true, join "; " (t ∷ ts))

pub classify_requirement_change : Option Requirement → Option Requirement → Bool × String
unfolding stricter
classify_requirement_change none (some head) = (true, "new consumer requirement")
classify_requirement_change (some base) none = (false, "consumer requirement removed")
classify_requirement_change (some base) (some head) = verdict (stricter base head)
classify_requirement_change none none = (false, "no requirement")

pub insert_keys : BTreeMap Requirement → BTreeSet → BTreeSet
insert_keys [] keys = keys
insert_keys ((k, r) ∷ m) keys = insert_keys m (set_insert k keys)

module _ (base_requirements head_requirements : BTreeMap Requirement) where
  abbrev pub change_of : String → RequirementDelta
  change_of target =
      let base = get target base_requirements in
      let head = get target head_requirements in
      let (breaking, reason) = classify_requirement_change base head in
      record {
        target = target;
        base = shape_of base;
        head = shape_of head;
        breaking = breaking;
        reason = reason;
      }

  pub requirement_changes : BTreeSet → List RequirementDelta
  unfolding requirement_shape classify_requirement_change
  requirement_changes [] = []
  requirement_changes (target ∷ targets) =
      if option_eq shape_eq (shape_of (get target base_requirements))
        (shape_of (get target head_requirements))
      then requirement_changes targets
      else change_of target ∷ requirement_changes targets

pub compared : String → Assumption → Option Assumption → List ProviderComparisonDelta
compared id base none = []
compared id base (some head) =
    if str_eq base.provider_comparison head.provider_comparison
    then []
    else record {
      assumption_id = id;
      target = base.target.path;
      base = base.provider_comparison;
      head = head.provider_comparison;
    }
      ∷ []

pub provider_changes : BTreeMap Assumption → BTreeMap Assumption → List ProviderComparisonDelta
unfolding compared
provider_changes [] heads = []
provider_changes ((id, base) ∷ m) heads =
    compared id base (get id heads) ++ provider_changes m heads

pub comparison_order : ProviderComparisonDelta → ProviderComparisonDelta → Ordering
comparison_order a b =
    then_cmp (str_cmp a.target b.target) (str_cmp a.assumption_id b.assumption_id)

abbrev pub is_nil {ℓ} : {A : Type ℓ} → List A → Bool
is_nil [] = true
is_nil (x ∷ xs) = false

pub diff_contracts : ConsumptionLock → ConsumptionLock → ContractDiff
unfolding missing_from delta_order requirement_changes insert_keys provider_changes comparison_order
diff_contracts base head =
    let bases = by_id base.assumptions in
    let heads = by_id head.assumptions in
    let added = sort_by delta_order (missing_from heads bases) in
    let base_requirements = by_path base.requirements in
    let head_requirements = by_path head.requirements in
    let targets = insert_keys head_requirements (insert_keys base_requirements []) in
    let changes = requirement_changes base_requirements head_requirements targets in
    record {
      base_revision = base.metadata.source_revision.value;
      head_revision = head.metadata.source_revision.value;
      added_assumptions = added;
      removed_assumptions = sort_by delta_order (missing_from bases heads);
      requirement_changes = changes;
      provider_comparison_changes = sort_by comparison_order (provider_changes bases heads);
      breaking = not (is_nil added) || any (λ (c : RequirementDelta). c.breaking) changes;
    }
