-- ===== src/Config.antt =====
-- `WireAssumeConfig::validate` of crates/config/src/lib.rs. A socket address is its text and whether it is a
-- loopback address; `{:?}` of a text, and the text for an invalid expression, are parameters.
pub mod Laws
mod Samples
use wire_assume.Prelude.{
  ◌==◌, if◌then◌else◌, Result, ok, err, BTreeMap, BTreeSet, contains, set_insert, join, put_before,
  ℕ, String, Bool, true, false, not, ◌&&◌, Option, none, some, List, [], ◌∷◌, ◌++◌, map,
}
use wire_assume.Model.Redaction.{RedactionPolicy, Regexes}
use wire_assume.MutationEngine.Kind.{MutationKind}
use wire_assume.Experiment.Plan.{is_blank}

pub record SocketAddr : Type 0 where
  pub text : String
  pub is_loopback : Bool

pub record ProxyConfig : Type 0 where
  pub listen : SocketAddr
  pub upstream : Option String
  pub max_payload_bytes : ℕ
  pub allow_non_loopback : Bool

pub record EndpointMatcher : Type 0 where
  pub method : String
  pub path : String

-- A signed integer; `negsuc n` is -(n + 1).
pub data ℤ : Type 0 where
  pos negsuc : ℕ → ℤ

pub record CommandOracleConfig : Type 0 where
  pub argv : List String
  pub cwd : Option String
  pub timeout_ms : ℕ
  pub env : BTreeMap String
  pub inherit_env : Bool
  pub stdout_contains : List String
  pub stderr_not_contains : List String
  pub success_exit_codes : List ℤ

pub record HttpOracleConfig : Type 0 where
  pub method : String
  pub url : String
  pub timeout_ms : ℕ
  pub success_statuses : List ℕ
  pub body_contains : List String
  pub headers : BTreeMap String

pub record PlaywrightOracleConfig : Type 0 where
  pub argv : List String
  pub cwd : Option String
  pub timeout_ms : ℕ
  pub env : BTreeMap String

pub data OracleConfig : Type 0 where
  command custom : CommandOracleConfig → OracleConfig
  http : HttpOracleConfig → OracleConfig
  playwright : PlaywrightOracleConfig → OracleConfig

pub record MutationConfig : Type 0 where
  pub budget : ℕ
  pub concurrency : ℕ
  pub seed : ℕ
  pub include : List MutationKind
  pub exclude : List MutationKind

-- `traffic` has the endpoint as its only field.
pub record ScenarioConfig : Type 0 where
  pub name : String
  pub endpoint : EndpointMatcher
  pub oracle : OracleConfig
  pub mutation : MutationConfig

-- The fields of `project` and `provider` stand in the record itself.
pub record WireAssumeConfig : Type 0 where
  pub project_name : String
  pub provider_name : String
  pub openapi : Option String
  pub proxy : ProxyConfig
  pub scenarios : List ScenarioConfig
  pub redaction : RedactionPolicy

abbrev pub default_mutation : MutationConfig
default_mutation = record { budget = 500; concurrency = 4; seed = 42; include = []; exclude = [] }

-- `if b { errors.push(…) }`
abbrev pub error_if : Bool → String → List String
error_if true text = text ∷ []
error_if false text = []

abbrev pub is_empty_list {ℓ} : {A : Type ℓ} → List A → Bool
is_empty_list [] = true
is_empty_list (x ∷ xs) = false

module _ (new_regex : Regexes) (debug : String → String) (regex_text : String → String) where
  -- `RedactionPolicy::regex_errors`
  unfoldable pub regex_errors : List String → List String
  regex_errors [] = []
  regex_errors (pattern ∷ patterns) = elim (new_regex pattern) [
    | none ↦
        put_before (debug pattern) (put_before ": " (regex_text pattern)) ∷ regex_errors patterns
    | some _ ↦ regex_errors patterns
  ]

  abbrev pub in_scenario : String → String → String
  in_scenario name text = put_before "scenario " (put_before (debug name) text)

  unfoldable pub validate_oracle : String → OracleConfig → List String
  validate_oracle name (command config) =
      error_if (is_empty_list config.argv)
        (in_scenario name " command/custom oracle argv must not be empty")
      ++ error_if (config.timeout_ms == 0)
          (in_scenario name " oracle timeout_ms must be greater than zero")
  validate_oracle name (custom config) =
      error_if (is_empty_list config.argv)
        (in_scenario name " command/custom oracle argv must not be empty")
      ++ error_if (config.timeout_ms == 0)
          (in_scenario name " oracle timeout_ms must be greater than zero")
  validate_oracle name (playwright config) =
      error_if (is_empty_list config.argv)
        (in_scenario name " playwright oracle argv must not be empty")
      ++ error_if (config.timeout_ms == 0)
          (in_scenario name " oracle timeout_ms must be greater than zero")
  validate_oracle name (http config) =
      error_if (config.timeout_ms == 0)
        (in_scenario name " oracle timeout_ms must be greater than zero")
      ++ error_if (is_empty_list config.success_statuses)
          (in_scenario name " HTTP oracle success_statuses must not be empty")

  -- The errors of a scenario's name, and the names with it; a blank one is not inserted.
  unfoldable pub validate_name : BTreeSet → String → List String × BTreeSet
  validate_name names name =
      if is_blank name then ("scenario.name must not be empty" ∷ [], names) else (
        error_if (contains names name)
            (put_before "scenario name " (put_before (debug name) " is duplicated")),
        set_insert name names,
      )

  -- The rest of the loop's body.
  unfoldable pub validate_scenario : ScenarioConfig → List String
  validate_scenario s =
      error_if (s.mutation.budget == 0)
        (in_scenario s.name " mutation.budget must be greater than zero")
      ++ error_if (s.mutation.concurrency == 0)
          (in_scenario s.name " mutation.concurrency must be greater than zero")
      ++ error_if (is_blank s.endpoint.path)
          (in_scenario s.name " traffic.endpoint.path must not be empty")
      ++ validate_oracle s.name s.oracle

  unfoldable pub validate_scenarios : BTreeSet → List ScenarioConfig → List String
  validate_scenarios names [] = []
  validate_scenarios names (s ∷ scenarios) =
      (validate_name names s.name).0
      ++ validate_scenario s
      ++ validate_scenarios (validate_name names s.name).1 scenarios

  unfoldable pub errors_in : WireAssumeConfig → List String
  errors_in config =
      error_if (is_blank config.project_name) "project.name must not be empty"
      ++ error_if (is_blank config.provider_name) "provider.name must not be empty"
      ++ error_if (is_empty_list config.scenarios) "at least one scenario is required"
      ++ error_if (not config.proxy.allow_non_loopback && not config.proxy.listen.is_loopback) (
          put_before "proxy.listen=" (
            put_before config.proxy.listen.text
              " is not loopback; set proxy.allow_non_loopback=true only in a trusted environment"))
      ++ error_if (config.proxy.max_payload_bytes == 0)
          "proxy.max_payload_bytes must be greater than zero"
      ++ map (λ text. put_before "redaction.regexes contains invalid pattern " text)
          (regex_errors config.redaction.regexes)
      ++ validate_scenarios [] config.scenarios

  -- The texts of `Invalid`.
  unfoldable pub validate : WireAssumeConfig → Result String (Unit {0})
  validate config =
      if is_empty_list (errors_in config) then ok tt else err (join "\n" (errors_in config))
