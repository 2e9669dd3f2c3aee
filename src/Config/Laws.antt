-- ===== src/Config/Laws.antt =====
-- What a validated configuration guarantees: crates/config/src/lib.rs.
use wire_assume.Prelude.{
  ◌==◌, str_eq, Bool-cases, Option-cases, All, All-mp, ok, BTreeSet, contains, set_insert,
  contains-set_insert, is_some, ℕ, ◌<◌, String, ◌≡◌, refl, ap, ◌⊎◌, inl, inr, Bool, true, false,
  not, ◌&&◌, List, [], ◌∷◌, ◌++◌, map, arith,
}
use wire_assume.Model.Redaction.{Regexes}
use wire_assume.MutationEngine.Distinct.{AreDistinct}
use wire_assume.Experiment.Plan.{is_blank}
use wire_assume.Config.{
  OracleConfig, command, custom, http, playwright, ScenarioConfig, WireAssumeConfig, error_if,
  is_empty_list, regex_errors, validate_oracle, validate_name, validate_scenario,
  validate_scenarios, errors_in, validate,
}

append-empty :
    {A : Type 0} (xs ys : List A)
    → is_empty_list (xs ++ ys) ≡ true
    → (is_empty_list xs ≡ true) × (is_empty_list ys ≡ true)
append-empty [] ys h = (refl, h)
append-empty (x ∷ xs) ys h = cc h

error_if-empty : (b : Bool) (text : String) → is_empty_list (error_if b text) ≡ true → b ≡ false
error_if-empty true text h = cc h
error_if-empty false text h = refl

map-empty :
    {A B : Type 0} (f : A → B) (xs : List A)
    → is_empty_list (map f xs) ≡ true
    → is_empty_list xs ≡ true
map-empty f [] h = refl
map-empty f (x ∷ xs) h = cc h

-- An oracle waits for something, and has something to run or a status to accept.
abbrev pub IsValidOracle : OracleConfig → Type 0
IsValidOracle (command c) = (is_empty_list c.argv ≡ false) × (0 < c.timeout_ms)
IsValidOracle (custom c) = (is_empty_list c.argv ≡ false) × (0 < c.timeout_ms)
IsValidOracle (playwright c) = (is_empty_list c.argv ≡ false) × (0 < c.timeout_ms)
IsValidOracle (http c) = (0 < c.timeout_ms) × (is_empty_list c.success_statuses ≡ false)

pub record IsValidScenario (s : ScenarioConfig) : Type 0 where
  pub name : is_blank s.name ≡ false
  pub budget : 0 < s.mutation.budget
  pub concurrency : 0 < s.mutation.concurrency
  pub path : is_blank s.endpoint.path ≡ false
  pub oracle : IsValidOracle s.oracle

abbrev pub name_of : ScenarioConfig → String
name_of s = s.name

pub record IsValid (new_regex : Regexes) (config : WireAssumeConfig) : Type 0 where
  pub project : is_blank config.project_name ≡ false
  pub provider : is_blank config.provider_name ≡ false
  pub some_scenario : is_empty_list config.scenarios ≡ false
  pub private_listen :
      (config.proxy.allow_non_loopback ≡ true) ⊎ (config.proxy.listen.is_loopback ≡ true)
  pub payload : 0 < config.proxy.max_payload_bytes
  pub regexes : All (λ pattern. is_some (new_regex pattern) ≡ true) config.redaction.regexes
  pub scenarios : All IsValidScenario config.scenarios
  pub distinct : AreDistinct name_of config.scenarios

one_holds : (a b : Bool) → (not a && not b) ≡ false → (a ≡ true) ⊎ (b ≡ true)
one_holds true b h = inl refl
one_holds false true h = inr refl
one_holds false false h = cc h

module _ (new_regex : Regexes) (debug : String → String) (regex_text : String → String) where
  regex_errors-empty :
      (patterns : List String)
      → is_empty_list (regex_errors new_regex debug regex_text patterns) ≡ true
      → All (λ pattern. is_some (new_regex pattern) ≡ true) patterns
  unfolding regex_errors
  regex_errors-empty [] h = tt
  regex_errors-empty (pattern ∷ patterns) h = elim (Option-cases (new_regex pattern)) [
    | inl invalid ↦ cc (rw (invalid, regex_errors) at h)
    | inr (replace_all, valid) ↦
        (ap is_some valid, regex_errors-empty patterns (rw (valid, regex_errors) at h))
  ]

  positive : (n : ℕ) (text : String) → is_empty_list (error_if (n == 0) text) ≡ true → 0 < n
  positive n text h = let other = error_if-empty (n == 0) text h in ground arith

  validate_oracle-empty :
      (name : String) (oracle : OracleConfig)
      → is_empty_list (validate_oracle new_regex debug regex_text name oracle) ≡ true
      → IsValidOracle oracle
  unfolding validate_oracle
  validate_oracle-empty name (command c) h =
      let (a, b) = append-empty (error_if (is_empty_list c.argv) _) _ h in
      (error_if-empty _ _ a, positive c.timeout_ms _ b)
  validate_oracle-empty name (custom c) h =
      let (a, b) = append-empty (error_if (is_empty_list c.argv) _) _ h in
      (error_if-empty _ _ a, positive c.timeout_ms _ b)
  validate_oracle-empty name (playwright c) h =
      let (a, b) = append-empty (error_if (is_empty_list c.argv) _) _ h in
      (error_if-empty _ _ a, positive c.timeout_ms _ b)
  validate_oracle-empty name (http c) h =
      let (a, b) = append-empty (error_if (c.timeout_ms == 0) _) _ h in
      (positive c.timeout_ms _ a, error_if-empty _ _ b)

  validate_name-empty :
      (names : BTreeSet) (name : String)
      → is_empty_list (validate_name new_regex debug regex_text names name).0 ≡ true
      → (is_blank name ≡ false)
        × (contains names name ≡ false)
        × ((validate_name new_regex debug regex_text names name).1 ≡ set_insert name names)
  unfolding validate_name
  validate_name-empty names name h = elim (Bool-cases (is_blank name)) [
    | inl blank ↦ cc (rw blank at h)
    | inr filled ↦ rw filled (refl, error_if-empty _ _ (rw filled at h), refl)
  ]

  validate_scenario-empty :
      (s : ScenarioConfig)
      → is_blank s.name ≡ false
      → is_empty_list (validate_scenario new_regex debug regex_text s) ≡ true
      → IsValidScenario s
  unfolding validate_scenario
  validate_scenario-empty s filled h =
      let (h2, o) = append-empty _ (validate_oracle new_regex debug regex_text s.name s.oracle) h in
      let (h1, p) = append-empty _ (error_if (is_blank s.endpoint.path) _) h2 in
      let (b, c) = append-empty (error_if (s.mutation.budget == 0) _) _ h1 in
      record {
        name = filled;
        budget = positive s.mutation.budget _ b;
        concurrency = positive s.mutation.concurrency _ c;
        path = error_if-empty _ _ p;
        oracle = validate_oracle-empty s.name s.oracle o;
      }

  abbrev IsFresh : BTreeSet → ScenarioConfig → Type 0
  IsFresh names s = contains names s.name ≡ false

  inserted-IsFresh :
      (names : BTreeSet) (name : String) (s : ScenarioConfig)
      → IsFresh (set_insert name names) s
      → (IsFresh names s) × (str_eq name s.name ≡ false)
  inserted-IsFresh names name s h = let e = contains-set_insert name s.name names in ground arith

  validate_scenarios-empty :
      (names : BTreeSet) (scenarios : List ScenarioConfig)
      → is_empty_list (validate_scenarios new_regex debug regex_text names scenarios) ≡ true
      → All IsValidScenario scenarios
        × AreDistinct name_of scenarios
        × All (IsFresh names) scenarios
  unfolding validate_scenarios
  validate_scenarios-empty names [] h = (tt, tt, tt)
  validate_scenarios-empty names (s ∷ scenarios) h =
      let (h1, h2) = append-empty (_ ++ validate_scenario new_regex debug regex_text s) _ h in
      let (n, v) = append-empty (validate_name new_regex debug regex_text names s.name).0 _ h1 in
      let (filled, fresh, inserted) = validate_name-empty names s.name n in
      let (valid, distinct, later) =
        validate_scenarios-empty (set_insert s.name names) scenarios (rw inserted at h2) in
      (
        (validate_scenario-empty s filled v, valid),
        (
          All-mp (IsFresh (set_insert s.name names)) (λ t. str_eq s.name t.name ≡ false) scenarios
              (λ t f. (inserted-IsFresh names s.name t f).1) later,
          distinct,
        ),
        (
          fresh,
          All-mp (IsFresh (set_insert s.name names)) (IsFresh names) scenarios
              (λ t f. (inserted-IsFresh names s.name t f).0) later,
        ),
      )

  errors_in-empty :
      (config : WireAssumeConfig)
      → is_empty_list (errors_in new_regex debug regex_text config) ≡ true
      → IsValid new_regex config
  unfolding errors_in
  errors_in-empty config h =
      let (h6, ss) =
        append-empty _ (validate_scenarios new_regex debug regex_text [] config.scenarios) h in
      let (h5, rs) =
        append-empty _ (map _ (regex_errors new_regex debug regex_text config.redaction.regexes))
          h6 in
      let (h4, payload) = append-empty _ (error_if (config.proxy.max_payload_bytes == 0) _) h5 in
      let (h3, private) =
        append-empty _
          (error_if (not config.proxy.allow_non_loopback && not config.proxy.listen.is_loopback) _)
          h4 in
      let (h2, some_one) = append-empty _ (error_if (is_empty_list config.scenarios) _) h3 in
      let (pr, pv) = append-empty (error_if (is_blank config.project_name) _) _ h2 in
      let (valid, distinct, fresh) = validate_scenarios-empty [] config.scenarios ss in
      record {
        project = error_if-empty _ _ pr;
        provider = error_if-empty _ _ pv;
        some_scenario = error_if-empty _ _ some_one;
        private_listen = one_holds _ _ (error_if-empty _ _ private);
        payload = positive config.proxy.max_payload_bytes _ payload;
        regexes = regex_errors-empty config.redaction.regexes (map-empty _ _ rs);
        scenarios = valid;
        distinct = distinct;
      }

  -- A configuration that is validated has a project, a provider and at least one scenario; it listens on
  -- a loopback address unless others are allowed; its payload bound is positive and its patterns are
  -- valid; and its scenarios have different names that are not blank, a path, positive budgets and
  -- concurrency, and an oracle that has time and something to check.
  pub validate-IsValid :
      (config : WireAssumeConfig)
      → validate new_regex debug regex_text config ≡ ok tt
      → IsValid new_regex config
  unfolding validate
  validate-IsValid config h =
      elim (Bool-cases (is_empty_list (errors_in new_regex debug regex_text config))) [
        | inl none_found ↦ errors_in-empty config none_found
        | inr found ↦ cc (rw found at h)
      ]
