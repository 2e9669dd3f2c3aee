-- ===== src/MutationEngine/Planner.antt =====
-- crates/mutation-engine/src/planner.rs: the choice of mutations under a budget. The mutators are
-- parameters: a function from the baseline and the seed for each.
pub mod Laws
use wire_assume.Prelude.{
  str_eq, length, take, filter, any, dedup_by, then_cmp, str_cmp, sort_by, ℕ, Ordering, String,
  Bool, true, false, not, ◌||◌, List, [], ◌∷◌, ◌++◌,
}
use wire_assume.Model.Json.{Value}
use wire_assume.MutationEngine.Mutation.{Mutation}
use wire_assume.MutationEngine.Kind.{MutationKind, kind_cmp, has_kind}

pub record PlannerConfig : Type 0 where
  pub budget : ℕ
  pub concurrency : ℕ
  pub seed : ℕ
  pub retry_limit : ℕ
  pub enabled : List MutationKind

pub record MutationPlan : Type 0 where
  pub seed : ℕ
  pub budget : ℕ
  pub generated : ℕ
  pub selected : List Mutation

-- `Default`
abbrev pub default_config : PlannerConfig
default_config = record { budget = 500; concurrency = 4; seed = 42; retry_limit = 1; enabled = [] }

abbrev pub Mutator : Type 0
Mutator = Value → ℕ → List Mutation

-- `mutators.iter().flat_map(|mutator| mutator.generate(baseline, config.seed))`
abbrev pub generate_all : List Mutator → Value → ℕ → List Mutation
generate_all [] baseline seed = []
generate_all (generate ∷ mutators) baseline seed =
    generate baseline seed ++ generate_all mutators baseline seed

abbrev pub no_kinds : List MutationKind → Bool
no_kinds [] = true
no_kinds (k ∷ ks) = false

abbrev pub is_enabled : PlannerConfig → Mutation → Bool
is_enabled config m = no_kinds config.enabled || has_kind config.enabled m.kind

abbrev pub is_untested : List String → Mutation → Bool
is_untested already_tested m = not (any (λ id. str_eq id m.id) already_tested)

-- The closure of `sort_by`.
abbrev pub plan_order : Mutation → Mutation → Ordering
plan_order a b =
    then_cmp (then_cmp (str_cmp a.path b.path) (kind_cmp a.kind b.kind)) (str_cmp a.id b.id)

-- `all` before it is truncated. `already_tested` is a `HashSet`, of which only `contains` is called.
unfoldable pub candidates : List Mutator → Value → PlannerConfig → List String → List Mutation
candidates mutators baseline config already_tested =
    dedup_by (λ (a b : Mutation). str_eq a.id b.id)
      (sort_by plan_order (
        filter (is_untested already_tested)
          (filter (is_enabled config) (generate_all mutators baseline config.seed))))

unfoldable pub plan : List Mutator → Value → PlannerConfig → List String → MutationPlan
unfolding candidates
plan mutators baseline config already_tested =
    let all = candidates mutators baseline config already_tested in
    record {
      seed = config.seed;
      budget = config.budget;
      generated = length all;
      selected = take config.budget all;
    }
