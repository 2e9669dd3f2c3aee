-- ===== src/Normalizer/Samples.antt =====
-- A view of crates/normalizer/src/lib.rs, after its own test.
use wire_assume.Prelude.{
  get, insert, to_ascii_lowercase, String, ◌≡◌, refl, inl, inr, none, some, List, [], ◌∷◌,
}
use wire_assume.Model.Corpus.{Header, Body, Interaction}
use wire_assume.Model.Redaction.{Urls}
use wire_assume.MutationEngine.Mutation.{Pointers}
use wire_assume.Normalizer.{default_headers, default_policy, normalize}
use wire_assume.Normalizer.Laws.{AreAlike, normalize-AreAlike}

abbrev urls : Urls String
urls = record {
  parse = λ text. some text;
  query_pairs = λ url. [];
  with_pairs = λ url pairs. url;
  to_string = λ url. url;
}

abbrev pointer_mut : Pointers
pointer_mut value pointer = none

abbrev header : String → String → Header
header name value = record { name = name; value = value }

abbrev original : Interaction
original = record {
  request = record {
    method = "GET";
    uri = "/items";
    headers = header "X-Request-Id" "req-123" ∷ [];
    body = Body.empty;
  };
  response = record { status = 200; headers = header "ETag" "1" ∷ []; body = Body.text "ok" };
  metadata = record {
    captured_at = "today";
    duration_ms = 3;
    provider_id = "p";
    scenario_id = "s";
    correlation_id = none;
  };
}

abbrev asked : List Header
asked = header "X-Request-Id" "req-456" ∷ []

asked-AreAlike : AreAlike default_policy.headers asked original.request.headers
unfolding default_headers get insert to_ascii_lowercase
asked-AreAlike = (record { name = refl; value = inr ("<normalized-request-id>", refl) }, tt)

answered-AreAlike :
    AreAlike default_policy.headers original.response.headers original.response.headers
answered-AreAlike = (record { name = refl; value = inl refl }, tt)

normalize-AreAlike_example :
    normalize urls pointer_mut default_policy
      (record original { request = record original.request { headers = asked } })
    ≡ normalize urls pointer_mut default_policy original
normalize-AreAlike_example =
    normalize-AreAlike urls pointer_mut default_policy original asked original.response.headers
      asked-AreAlike answered-AreAlike
