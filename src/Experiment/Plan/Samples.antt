-- ===== src/Experiment/Plan/Samples.antt =====
-- A plan of crates/experiment/src/lib.rs for one recorded request.
use wire_assume.Prelude.{
  str_eq, if◌then◌else◌, length, All, dedup_by, Result, ok, err, sort_by, contains_str,
  eq_ignore_ascii_case, split_on, ℕ, ◌≤◌, String, ◌≡◌, refl, none, List, [], ◌∷◌,
}
use wire_assume.Model.Json.{Value}
use wire_assume.Model.Corpus.{Body, Interaction, ResponseRecord}
use wire_assume.MutationEngine.Kind.{
  MutationKind, remove_field, null_field, remove_header, delay_response, has_kind, rank,
}
use wire_assume.MutationEngine.Mutation.{Mutation}
use wire_assume.MutationEngine.Planner.{Mutator}
use wire_assume.MutationEngine.Planner
use wire_assume.Experiment.Paths.{request_path, path_matches}
use wire_assume.Experiment.Plan.{ExperimentConfig, TrialMutation, ExperimentCase, plan_experiment}
use wire_assume.Experiment.Plan.Laws.{IsAllowed, plan_experiment_within}

abbrev response : ResponseRecord
response = record { status = 200; headers = []; body = Body.json Value.null }

abbrev interaction : Interaction
interaction = record {
  request = record { method = "get"; uri = "/orders/1"; headers = []; body = Body.empty };
  response = response;
  metadata = record {
    captured_at = "today";
    duration_ms = 3;
    provider_id = "p";
    scenario_id = "s";
    correlation_id = none;
  };
}

abbrev ids : Result String (List String)
ids = ok ("int_1" ∷ [])

abbrev load_one : String → Result String Interaction
load_one id = if str_eq id "int_1" then ok interaction else err "no such file"

abbrev change : String → MutationKind → String → Mutation
change id kind path = record {
  id = id;
  kind = kind;
  path = path;
  description = "";
  seed = 42;
  mutated = Value.null;
}

abbrev mutators : List Mutator
mutators = (λ baseline seed. change "m1" remove_field "/a" ∷ change "m2" null_field "/a" ∷ []) ∷ []

abbrev trial : String → MutationKind → String → TrialMutation
trial id kind target = record {
  id = id;
  kind = kind;
  target = target;
  description = "";
  response = response;
  delay_ms = 0;
}

abbrev generate : ResponseRecord → ℕ → List TrialMutation
generate baseline seed =
    trial "p1" remove_header "response.header.etag"
    ∷ trial "p2" delay_response "timing.response"
    ∷ []

abbrev config : ExperimentConfig
config = record {
  scenario_id = "s";
  method = "GET";
  path_pattern = "/orders/*";
  seed = 42;
  budget = 2;
  include = [];
  exclude = null_field ∷ [];
  source_revision = none;
}

abbrev cases : List ExperimentCase
cases =
    record { interaction_id = "int_1"; mutation = trial "m1" remove_field "response.body/a" }
    ∷ record {
      interaction_id = "int_1";
      mutation = trial "p1" remove_header "response.header.etag";
    }
    ∷ []

plan-cases : plan_experiment ids load_one mutators generate config ≡ ok cases
unfolding plan_experiment eq_ignore_ascii_case path_matches contains_str split_on request_path
    dedup_by sort_by Planner.plan has_kind rank
plan-cases = refl

plan_experiment_within_example : (length cases ≤ 2) × All (IsAllowed config) cases
plan_experiment_within_example =
    plan_experiment_within ids load_one mutators generate config cases plan-cases
