-- ===== src/MutationEngine/Samples.antt =====
-- Plans of crates/mutation-engine/src/planner.rs.
use wire_assume.Prelude.{length, All, IsSorted, min, String, ◌≡◌, refl, true, List, [], ◌∷◌}
use wire_assume.Model.Json.{Value}
use wire_assume.MutationEngine.Kind.{MutationKind, remove_field, null_field, empty_string}
use wire_assume.MutationEngine.Mutation.{Mutation}
use wire_assume.MutationEngine.Planner.{
  Mutator, PlannerConfig, default_config, is_enabled, is_untested, plan_order, plan,
}
use wire_assume.MutationEngine.Planner.Laws.{plan-All, plan-length, plan-IsSorted}

abbrev change : String → MutationKind → String → Mutation
change id kind path = record {
  id = id;
  kind = kind;
  path = path;
  description = "";
  seed = 42;
  mutated = Value.null;
}

abbrev mutators : List Mutator
mutators =
    (λ baseline seed. change "m3" null_field "/b" ∷ change "m1" remove_field "/a" ∷ [])
    ∷ (λ baseline seed. change "m2" remove_field "/b" ∷ change "m4" empty_string "/b" ∷ [])
    ∷ []

abbrev config : PlannerConfig
config = record default_config { budget = 2; enabled = remove_field ∷ null_field ∷ [] }

plan-All_example :
    All
      (λ m. ((m.seed ≡ 42) × (is_enabled config m ≡ true)) × (is_untested ("m1" ∷ []) m ≡ true))
      (plan mutators Value.null config ("m1" ∷ [])).selected
plan-All_example =
    plan-All mutators Value.null config ("m1" ∷ []) (λ m. m.seed ≡ 42)
      (refl, (refl, (refl, (refl, tt))))

plan-length_example :
    length (plan mutators Value.null config ("m1" ∷ [])).selected
    ≡ min 2 (plan mutators Value.null config ("m1" ∷ [])).generated
plan-length_example = plan-length mutators Value.null config ("m1" ∷ [])

plan-IsSorted_example : IsSorted plan_order (plan mutators Value.null config ("m1" ∷ [])).selected
plan-IsSorted_example = plan-IsSorted mutators Value.null config ("m1" ∷ [])
