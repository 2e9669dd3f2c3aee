-- ===== src/Model/Samples.antt =====
-- Redacted interactions, crates/model/src/redaction.rs.
use wire_assume.Prelude.{
  str_eq, if◌then◌else◌, contains, to_ascii_lowercase, String, ◌≡◌, refl, inl, inr, true, none,
  some, [], ◌∷◌,
}
use wire_assume.Model.Json.{Value, end, field}
use wire_assume.Model.Corpus.{Header, Body, Interaction}
use wire_assume.Model.Redaction.{
  redacted, RedactionPolicy, default_policy, redact_json_path, Regexes, Urls, redact_text, apply,
}
use wire_assume.Model.Redaction.Laws.{
  apply_hides_headers, redact_text_fails_closed, value_at, redacted_if, redact_json_path_marks,
}

-- Only the expression "secret" is valid, and a text is replaced where it is that word.
abbrev regexes : Regexes
regexes pattern =
    if str_eq pattern "secret"
    then some (λ text. if str_eq text "secret" then redacted else text)
    else none

-- No text is an absolute URL.
abbrev urls : Urls String
urls = record {
  parse = λ uri. none;
  query_pairs = λ u. [];
  with_pairs = λ u pairs. u;
  to_string = λ u. u;
}

abbrev header : String → String → Header
header name value = record { name = name; value = value }

abbrev interaction : Interaction
interaction = record {
  request = record {
    method = "GET";
    uri = "/me";
    headers = header "Cookie" "a=1" ∷ header "Accept" "*/*" ∷ [];
    body = Body.empty;
  };
  response = record {
    status = 200;
    headers = header "Set-Cookie" "a=2" ∷ [];
    body = Body.text "secret";
  };
  metadata = record {
    captured_at = "today";
    duration_ms = 3;
    provider_id = "p";
    scenario_id = "s";
    correlation_id = none;
  };
}

cookie : contains default_policy.headers (to_ascii_lowercase "Cookie") ≡ true
unfolding contains to_ascii_lowercase
cookie = refl

set_cookie : contains default_policy.headers (to_ascii_lowercase "Set-Cookie") ≡ true
unfolding contains to_ascii_lowercase
set_cookie = refl

apply_hides_headers_example :
    apply regexes urls default_policy interaction
    ≡ apply regexes urls default_policy (record interaction {
      request = record interaction.request {
        headers = header "Cookie" "b=1" ∷ header "Accept" "*/*" ∷ [];
      };
      response = record interaction.response { headers = header "Set-Cookie" "b=2" ∷ [] };
    })
apply_hides_headers_example =
    apply_hides_headers regexes urls default_policy interaction
      (header "Cookie" "b=1" ∷ header "Accept" "*/*" ∷ []) (header "Set-Cookie" "b=2" ∷ [])
      ((refl, inr cookie), ((refl, inl refl), tt)) ((refl, inr set_cookie), tt)

abbrev policy : RedactionPolicy
policy = record default_policy { regexes = "(" ∷ "secret" ∷ [] }

redact_text_fails_closed_example : redact_text regexes policy "name" ≡ redacted
redact_text_fails_closed_example = redact_text_fails_closed regexes policy "name" refl

abbrev user : Value
user = Value.object (field "user" (Value.object (field "token" (Value.string "abc") end)) end)

redact_json_path_marks_example :
    value_at (redact_json_path user ("user" ∷ "token" ∷ [])) ("user" ∷ "token" ∷ [])
    ≡ redacted_if (value_at user ("user" ∷ "token" ∷ []))
redact_json_path_marks_example = redact_json_path_marks user "user" ("token" ∷ [])
