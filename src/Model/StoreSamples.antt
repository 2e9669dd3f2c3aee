-- ===== src/Model/StoreSamples.antt =====
-- Files and stored interactions: crates/model/src/corpus.rs.
use wire_assume.Prelude.{
  ◌==◌, str_eq, if◌then◌else◌, ok, get, insert, set_insert, strip_prefix, starts_with, rsplit_once,
  String, ◌≡◌, refl, true, false, none, some, [], ◌∷◌,
}
use wire_assume.Model.Json.{null}
use wire_assume.Model.Canonical.{Serde, canonical_json, stable_hash, stable_id, sort_value}
use wire_assume.Model.Corpus.{Body, Interaction}
use wire_assume.Model.Redaction.{default_policy, Regexes, Urls, apply}
use wire_assume.Model.Files.{
  Disk, Faults, make_dirs, perform, write_file, clear_file, delete_file, erase, rename_file,
  write_atomic, with_tmp,
}
use wire_assume.Model.Files.Laws.{Written, SameBut, write_atomic-Written}
use wire_assume.Model.Store.{
  PersistedInteraction, Codec, is_valid_id, all_id_chars, is_id_char, text_length, directory_of,
  save, save_parts, persist_redacted, persist, load,
}
use wire_assume.Model.Store.Laws.{IsDecoded, load-persist}

-- Every fourth operation fails.
abbrev failing : Faults String
failing = record {
  fault = λ n op. if n == 3 then some "disk full" else none;
  not_found = λ path. path;
  left = λ n bytes. [];
}

abbrev disk : Disk
disk = record { files = ("a.json", 1 ∷ []) ∷ []; dirs = []; clock = 1 }

apart : str_eq (with_tmp "a.json") "a.json" ≡ false
unfolding with_tmp rsplit_once
apart = refl

write_atomic-Written_example :
    Written failing "a.json"
      (2 ∷ [])
      apart
      (write_atomic failing "a.json" (2 ∷ []) disk).0
      disk
      (write_atomic failing "a.json" (2 ∷ []) disk).1
    × SameBut "a.json" (with_tmp "a.json") disk (write_atomic failing "a.json" (2 ∷ []) disk).1
write_atomic-Written_example = write_atomic-Written failing "a.json" (2 ∷ []) apart disk

abbrev steady : Faults String
steady = record { fault = λ n op. none; not_found = λ path. path; left = λ n bytes. [] }

abbrev serde : Serde String
serde = record { to_vec = λ value. ok (1 ∷ []); sha256_hex = λ bytes. "0a1b2c3d4e5f6a7b8c9d0e" }

abbrev interaction : Interaction
interaction = record {
  request = record { method = "GET"; uri = "/orders"; headers = []; body = Body.empty };
  response = record { status = 200; headers = []; body = Body.empty };
  metadata = record {
    captured_at = "today";
    duration_ms = 3;
    provider_id = "p";
    scenario_id = "s";
    correlation_id = none;
  };
}

abbrev new_regex : Regexes
new_regex pattern = none

abbrev urls : Urls String
urls = record {
  parse = λ text. none;
  query_pairs = λ url. [];
  with_pairs = λ url pairs. url;
  to_string = λ url. url;
}

abbrev redacted_one : Interaction
redacted_one = apply new_regex urls default_policy interaction

abbrev codec : Codec String
codec = record {
  interaction_value = λ i. ok null;
  request_value = λ r. ok null;
  response_value = λ r. ok null;
  metadata_value = λ r. ok null;
  request_of = λ bytes. ok redacted_one.request;
  response_of = λ bytes. ok redacted_one.response;
  metadata_of = λ bytes. ok redacted_one.metadata;
}

abbrev stored : PersistedInteraction
stored = record {
  id = "int_0a1b2c3d4e5f6a7b8c9d";
  content_sha256 = "0a1b2c3d4e5f6a7b8c9d0e";
  directory = "w/corpus/int_0a1b2c3d4e5f6a7b8c9d";
}

abbrev after : Disk
after = (persist steady serde codec new_regex urls "w" default_policy interaction disk).1

persisted :
    persist steady serde codec new_regex urls "w" default_policy interaction disk
    ≡ (ok stored, after)
unfolding persist persist_redacted save_parts save directory_of make_dirs perform write_file
    clear_file delete_file erase rename_file write_atomic with_tmp stable_hash stable_id
    canonical_json sort_value rsplit_once get insert set_insert
persisted = refl

decoded : IsDecoded serde codec redacted_one
decoded = record {
  request = λ bytes made. refl;
  response = λ bytes made. refl;
  metadata = λ bytes made. refl;
}

valid : is_valid_id stored.id ≡ true
unfolding is_valid_id all_id_chars is_id_char text_length starts_with strip_prefix
valid = refl

load-persist_example :
    (load steady serde codec new_regex urls "w" stored.id after).0 ≡ ok redacted_one
load-persist_example =
    load-persist steady serde codec new_regex urls "w" (λ n path. refl) default_policy interaction
      stored disk after persisted valid decoded
