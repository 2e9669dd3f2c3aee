-- ===== src/Config/Samples.antt =====
-- A configuration of crates/config/src/lib.rs.
use wire_assume.Prelude.{
  contains, set_insert, String, ◌≡◌, refl, true, false, none, List, [], ◌∷◌, ok,
}
use wire_assume.Model.Redaction.{Regexes, default_policy}
use wire_assume.Experiment.Plan.{is_blank, is_whitespace}
use wire_assume.Config.{
  http, pos, command, ScenarioConfig, WireAssumeConfig, default_mutation, regex_errors,
  validate_oracle, validate_name, validate_scenario, validate_scenarios, errors_in, validate,
}
use wire_assume.Config.Laws.{IsValid, validate-IsValid}

abbrev no_regexes : Regexes
no_regexes pattern = none

abbrev as_it_is : String → String
as_it_is text = text

abbrev listing : ScenarioConfig
listing = record {
  name = "listing";
  endpoint = record { method = "GET"; path = "/people" };
  oracle = http record {
    method = "GET";
    url = "http://localhost/health";
    timeout_ms = 30000;
    success_statuses = 200 ∷ 204 ∷ [];
    body_contains = [];
    headers = [];
  };
  mutation = default_mutation;
}

abbrev editing : ScenarioConfig
editing = record {
  name = "editing";
  endpoint = record { method = "PUT"; path = "/people/1" };
  oracle = command record {
    argv = "npm" ∷ "test" ∷ [];
    cwd = none;
    timeout_ms = 30000;
    env = [];
    inherit_env = false;
    stdout_contains = [];
    stderr_not_contains = [];
    success_exit_codes = pos 0 ∷ [];
  };
  mutation = default_mutation;
}

abbrev of_scenarios : List ScenarioConfig → WireAssumeConfig
of_scenarios scenarios = record {
  project_name = "orbitdesk";
  provider_name = "peoplecrm";
  openapi = none;
  proxy = record {
    listen = record { text = "127.0.0.1:9090"; is_loopback = true };
    upstream = none;
    max_payload_bytes = 2097152;
    allow_non_loopback = false;
  };
  scenarios = scenarios;
  redaction = default_policy;
}

accepted : validate no_regexes as_it_is as_it_is (of_scenarios (listing ∷ editing ∷ [])) ≡ ok tt
unfolding contains set_insert is_whitespace is_blank regex_errors validate_oracle validate_name
    validate_scenario validate_scenarios errors_in validate
accepted = refl

duplicated :
    errors_in no_regexes as_it_is as_it_is (of_scenarios (listing ∷ listing ∷ []))
    ≡ ("scenario name listing is duplicated" ∷ [])
unfolding contains set_insert is_whitespace is_blank regex_errors validate_oracle validate_name
    validate_scenario validate_scenarios errors_in
duplicated = refl

validate-IsValid_example : IsValid no_regexes (of_scenarios (listing ∷ editing ∷ []))
validate-IsValid_example =
    validate-IsValid no_regexes as_it_is as_it_is (of_scenarios (listing ∷ editing ∷ [])) accepted
