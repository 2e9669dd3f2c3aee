-- ===== src/Model/Redaction.antt =====
-- crates/model/src/redaction.rs: what is removed from an interaction before it is written. The regular
-- expressions and the URL parser are parameters.
pub mod Laws
use wire_assume.Prelude.{
  str_eq, if◌then◌else◌, BTreeSet, contains, strip_prefix, contains_str, is_empty,
  to_ascii_lowercase, split_on, String, ◌||◌, Option, none, some, List, [], ◌∷◌,
}
use wire_assume.Model.Json.{Value, Items, Fields, nil, cons, end, field}
use wire_assume.Model.Corpus.{Header, Body, Interaction, RequestRecord, ResponseRecord}

abbrev pub redacted : String
redacted = "[REDACTED]"

pub record RedactionPolicy : Type 0 where
  pub headers : BTreeSet
  pub query_parameters : BTreeSet
  pub jsonpaths : BTreeSet
  pub regexes : BTreeSet

abbrev pub default_headers : BTreeSet
default_headers =
    "authorization" ∷ "cookie" ∷ "proxy-authorization" ∷ "set-cookie" ∷ "x-api-key" ∷ "x-auth-token"
    ∷ []

abbrev pub default_query_parameters : BTreeSet
default_query_parameters = "access_token" ∷ "api_key" ∷ "apikey" ∷ "key" ∷ "token" ∷ []

-- `Default`
abbrev pub default_policy : RedactionPolicy
default_policy = record {
  headers = default_headers;
  query_parameters = default_query_parameters;
  jsonpaths = [];
  regexes = [];
}

pub redact_headers : BTreeSet → List Header → List Header
redact_headers names [] = []
redact_headers names (h ∷ hs) =
    (if contains names (to_ascii_lowercase h.name) then record h { value = redacted } else h)
    ∷ redact_headers names hs

pub simple_jsonpath : String → Option (List String)
simple_jsonpath path = elim (strip_prefix path "$.") [
  | none ↦ none
  | some remainder ↦
      if is_empty remainder
        || contains_str remainder "["
        || contains_str remainder "]"
        || contains_str remainder "*"
      then none
      else some (split_on 46 remainder)
]

-- `rest.is_empty()`
abbrev pub if_last : List String → Value → Value → Value
if_last [] last other = last
if_last (k ∷ rest) last other = other

-- An object has each of its keys once, so the first entry of a key is the only one.
unfoldable mutual
  pub redact_json_path : Value → List String → Value
  redact_json_path value [] = value
  redact_json_path (Value.object fs) (k ∷ rest) = Value.object (redact_in fs k rest)
  redact_json_path value (k ∷ rest) = value

  pub redact_in : Fields → String → List String → Fields
  redact_in end k rest = end
  redact_in (field j v fs) k rest =
      let others = redact_in fs k rest in
      let inner = if_last rest (Value.string redacted) (redact_json_path v rest) in
      if str_eq j k then field j inner fs else field j v others

-- `Regex::new`, and `replace_all` with the fixed text.
abbrev pub Regexes : Type 0
Regexes = String → Option (String → String)

-- `url::Url`: `parse`, `query_pairs`, `query_pairs_mut().clear().extend_pairs(…)` and `to_string`.
pub record Urls (U : Type 0) : Type 0 where
  pub parse : String → Option U
  pub query_pairs : U → List (String × String)
  pub with_pairs : U → List (String × String) → U
  pub to_string : U → String

module _ (new_regex : Regexes) where
  pub redact_each : List String → String → String
  redact_each [] text = text
  redact_each (pattern ∷ patterns) text = elim (new_regex pattern) [
    | none ↦ redacted
    | some replace_all ↦ redact_each patterns (replace_all text)
  ]

  pub redact_text : RedactionPolicy → String → String
  unfolding redact_each
  redact_text policy text = redact_each policy.regexes text

  mutual
    unfolding redact_text

    pub redact_json_strings : RedactionPolicy → Value → Value
    redact_json_strings policy (Value.string text) = Value.string (redact_text policy text)
    redact_json_strings policy (Value.array items) = Value.array (redact_items policy items)
    redact_json_strings policy (Value.object fs) = Value.object (redact_fields policy fs)
    redact_json_strings policy value = value

    pub redact_items : RedactionPolicy → Items → Items
    redact_items policy nil = nil
    redact_items policy (cons v items) =
        cons (redact_json_strings policy v) (redact_items policy items)

    pub redact_fields : RedactionPolicy → Fields → Fields
    redact_fields policy end = end
    redact_fields policy (field k v fs) =
        field k (redact_json_strings policy v) (redact_fields policy fs)

  pub redact_at : Option (List String) → Value → Value
  unfolding redact_json_path
  redact_at none value = value
  redact_at (some keys) value = redact_json_path value keys

  -- The `for` loop over `jsonpaths`.
  pub redact_paths : List String → Value → Value
  unfolding redact_at simple_jsonpath
  redact_paths [] value = value
  redact_paths (path ∷ paths) value = redact_paths paths (redact_at (simple_jsonpath path) value)

  pub redact_body : RedactionPolicy → Body → Body
  unfolding redact_paths redact_json_strings
  redact_body policy (Body.json value) =
      Body.json (redact_json_strings policy (redact_paths policy.jsonpaths value))
  redact_body policy (Body.text text) = Body.text (redact_text policy text)
  redact_body policy body = body

  abbrev pub redact_values : RedactionPolicy → List Header → List Header
  redact_values policy [] = []
  redact_values policy (h ∷ hs) =
      record h { value = redact_text policy h.value } ∷ redact_values policy hs

  module _ {U : Type 0} (urls : Urls U) where
    abbrev pub redact_pairs : BTreeSet → List (String × String) → List (String × String)
    redact_pairs names [] = []
    redact_pairs names ((key, value) ∷ pairs) =
        (key, (if contains names (to_ascii_lowercase key) then redacted else value))
        ∷ redact_pairs names pairs

    abbrev pub with_query : String → U → List (String × String) → String
    with_query uri parsed [] = uri
    with_query uri parsed (p ∷ pairs) = urls.to_string (urls.with_pairs parsed (p ∷ pairs))

    pub redact_uri : BTreeSet → String → String
    redact_uri names uri = elim (urls.parse uri) [
      | none ↦ uri
      | some parsed ↦ with_query uri parsed (redact_pairs names (urls.query_pairs parsed))
    ]

    -- `RedactionPolicy::apply`
    pub apply : RedactionPolicy → Interaction → Interaction
    unfolding redact_headers redact_uri redact_text redact_body
    apply policy interaction =
        let request = interaction.request in
        let response = interaction.response in
        record interaction {
          request = record request {
            headers = redact_values policy (redact_headers policy.headers request.headers);
            uri = redact_text policy (redact_uri policy.query_parameters request.uri);
            body = redact_body policy request.body;
          };
          response = record response {
            headers = redact_values policy (redact_headers policy.headers response.headers);
            body = redact_body policy response.body;
          };
        }
