-- ===== src/Replay/Samples.antt =====
-- A replay of crates/replay/src/lib.rs with an override.
use wire_assume.Prelude.{
  strip_prefix, starts_with, eq_ignore_ascii_case, ℕ, String, ◌≡◌, refl, Option, none, some, List,
  [], ◌∷◌,
}
use wire_assume.Model.Corpus.{Body, ResponseRecord}
use wire_assume.Proxy.{ResponseOverride}
use wire_assume.Replay.{
  ReplayEntry, Targets, request_target, is_match, find_first, find, respond, handle,
}
use wire_assume.Replay.Laws.{IsFirst, IsAnswer, handle-IsAnswer}

abbrev targets : Targets String
targets = record { parse = λ uri. none; path = λ url. url; query = λ url. none }

abbrev response : ℕ → ResponseRecord
response status = record { status = status; headers = []; body = Body.empty }

abbrev entry : String → String → ReplayEntry
entry id uri = record {
  interaction_id = id;
  interaction = record {
    request = record { method = "get"; uri = uri; headers = []; body = Body.empty };
    response = response 200;
    metadata = record {
      captured_at = "today";
      duration_ms = 3;
      provider_id = "p";
      scenario_id = "s";
      correlation_id = none;
    };
  };
}

abbrev entries : List ReplayEntry
entries = entry "int_1" "/users" ∷ entry "int_2" "/orders" ∷ entry "int_3" "/orders" ∷ []

abbrev active : Option ResponseOverride
active = some (record { interaction_id = "int_2"; response = response 500; delay_ms = 10 })

answered : handle targets entries active "GET" "/orders" ≡ some (response 500, 10)
unfolding handle find find_first is_match request_target respond starts_with strip_prefix
    eq_ignore_ascii_case
answered = refl

handle-IsAnswer_example :
    (target : String) × (found : ReplayEntry) × (request_target targets "/orders" ≡ some target)
    × IsFirst (is_match targets "GET" target) entries found
    × IsAnswer active found (response 500, 10)
handle-IsAnswer_example =
    handle-IsAnswer targets entries active "GET" "/orders" (response 500, 10) answered
