-- ===== src/Normalizer.antt =====
-- crates/normalizer/src/lib.rs: the view of an interaction for analysis, with volatile values replaced. The
-- URL parser and `Value::pointer_mut` are parameters.
pub mod Laws
mod Samples
use wire_assume.Prelude.{
  BTreeMap, get, insert, to_ascii_lowercase, String, Option, none, some, List, [], ◌∷◌, map,
}
use wire_assume.Model.Json.{Value, string}
use wire_assume.Model.Corpus.{Header, Body, Interaction}
use wire_assume.Model.Redaction.{Urls}
use wire_assume.MutationEngine.Mutation.{Pointers}

pub record NormalizationPolicy : Type 0 where
  pub headers : BTreeMap String
  pub query_parameters : BTreeMap String
  pub json_pointers : BTreeMap String

-- The array of `default_headers`, collected into a map.
unfoldable pub default_headers : BTreeMap String
unfolding insert
default_headers = insert "date" "<normalized-date>" (
    insert "x-request-id" "<normalized-request-id>" (
      insert "x-correlation-id" "<normalized-correlation-id>" (
        insert "traceparent" "<normalized-traceparent>"
          (insert "tracestate" "<normalized-tracestate>" []))))

abbrev pub default_policy : NormalizationPolicy
default_policy = record { headers = default_headers; query_parameters = []; json_pointers = [] }

abbrev pub replaced : Option String → String → String
replaced none value = value
replaced (some replacement) value = replacement

abbrev pub normalize_header : BTreeMap String → Header → Header
normalize_header replacements h = record h {
  value = replaced (get (to_ascii_lowercase h.name) replacements) h.value;
}

unfoldable pub normalize_headers : BTreeMap String → List Header → List Header
normalize_headers replacements headers = map (normalize_header replacements) headers

module _ {U : Type 0} (urls : Urls U) (pointer_mut : Pointers) where
  abbrev pub normalize_pair : BTreeMap String → String × String → String × String
  normalize_pair replacements (key, value) =
      (key, replaced (get (to_ascii_lowercase key) replacements) value)

  -- After the guard on an empty map.
  abbrev pub normalize_parsed : BTreeMap String → String → Option U → String
  normalize_parsed replacements uri none = uri
  normalize_parsed replacements uri (some parsed) =
      urls.to_string
        (urls.with_pairs parsed (map (normalize_pair replacements) (urls.query_pairs parsed)))

  unfoldable pub normalize_uri : BTreeMap String → String → String
  normalize_uri [] uri = uri
  normalize_uri (r ∷ replacements) uri = normalize_parsed (r ∷ replacements) uri (urls.parse uri)

  abbrev pub put_text : Option (Value × (Value → Value)) → Value → String → Value
  put_text none value replacement = value
  put_text (some (target, put)) value replacement = put (string replacement)

  unfoldable pub normalize_value : BTreeMap String → Value → Value
  normalize_value [] value = value
  normalize_value ((pointer, replacement) ∷ replacements) value =
      normalize_value replacements (put_text (pointer_mut value pointer) value replacement)

  unfoldable pub normalize_body : BTreeMap String → Body → Body
  unfolding normalize_value
  normalize_body replacements (Body.json value) = Body.json (normalize_value replacements value)
  normalize_body replacements body = body

  unfoldable pub normalize : NormalizationPolicy → Interaction → Interaction
  unfolding normalize_headers normalize_uri normalize_body
  normalize policy interaction =
      let request = interaction.request in
      let response = interaction.response in
      record interaction {
        request = record request {
          headers = normalize_headers policy.headers request.headers;
          uri = normalize_uri policy.query_parameters request.uri;
          body = normalize_body policy.json_pointers request.body;
        };
        response = record response {
          headers = normalize_headers policy.headers response.headers;
          body = normalize_body policy.json_pointers response.body;
        };
      }
