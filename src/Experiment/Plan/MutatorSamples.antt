-- ===== src/Experiment/Plan/MutatorSamples.antt =====
-- A plan of crates/experiment/src/lib.rs with the program's mutators, for one recorded request.
use Prim.Native.String.{slice}
use wire_assume.Prelude.{
  All, dedup_by, Result, ok, err, sort_by, contains, ◌++ₛ◌, contains_str, to_ascii_lowercase,
  eq_ignore_ascii_case, split_on, to_decimal, String, ◌≡◌, refl, false, none, List, [], ◌∷◌,
}
use wire_assume.Model.Json.{null}
use wire_assume.Model.Canonical.{Serde, stable_id, stable_hash, canonical_json, sort_value}
use wire_assume.Model.Corpus.{Body, Interaction}
use wire_assume.MutationEngine.Kind.{has_kind, rank}
use wire_assume.MutationEngine.Mutation.{MutationFingerprint, Fingerprints, Pointers}
use wire_assume.MutationEngine.JsonMutator.{first_of_each_id}
use wire_assume.MutationEngine.ArrayMutator.{Randomness}
use wire_assume.MutationEngine.Protocol.Records.{ProtocolMutatorConfig, body_eq, response_eq}
use wire_assume.MutationEngine.Protocol.Headers.{without_header, set_header}
use wire_assume.MutationEngine.Protocol.Generate.{
  each_status, status_mutations, each_header, header_mutations, body_mutations, errors_of,
  error_mutations, paginations_of, pagination_mutations, delay_mutations, pushed, generate,
}
use wire_assume.Experiment.Paths.{request_path, path_matches}
use wire_assume.Experiment.Plan.{ExperimentConfig, ExperimentCase, plan_experiment}
use wire_assume.Experiment.Runner.{body_mutators, protocol_trials, plan_with_mutators}
use wire_assume.Experiment.Runner.Laws.{IsOfRecorded, plan_with_mutators-IsOfRecorded}

abbrev serde : Serde String
serde = record { to_vec = λ value. ok []; sha256_hex = λ bytes. "0a1b2c3d4e5f6a7b8c9d0e" }

abbrev mutation_id : MutationFingerprint → String
mutation_id f = "mut" ++ₛ "_" ++ₛ slice "0a1b2c3d4e5f6a7b8c9d0e" 0 20

id_is : (f : MutationFingerprint) → stable_id serde (λ _. ok null) "mut" f ≡ ok (mutation_id f)
unfolding stable_id stable_hash canonical_json sort_value
id_is f = refl

abbrev fingerprints : Fingerprints String
fingerprints = record {
  serde = serde;
  to_value = λ _. ok null;
  mutation_id = mutation_id;
  id_is = id_is;
}

abbrev pointer_mut : Pointers
pointer_mut value pointer = none

abbrev random : Randomness
random = record { sha256 = λ bytes. bytes; shuffle = λ seed items. items }

abbrev protocol : ProtocolMutatorConfig
protocol = record { status_codes = 500 ∷ []; delay_ms = 10; malformed_body = false }

abbrev recorded : Interaction
recorded = record {
  request = record { method = "get"; uri = "/orders/1"; headers = []; body = Body.empty };
  response = record {
    status = 200;
    headers = record { name = "ETag"; value = "1" } ∷ [];
    body = Body.text "ok";
  };
  metadata = record {
    captured_at = "today";
    duration_ms = 3;
    provider_id = "p";
    scenario_id = "s";
    correlation_id = none;
  };
}

abbrev load_recorded : String → Result String Interaction
load_recorded id = ok recorded

abbrev config : ExperimentConfig
config = record {
  scenario_id = "s";
  method = "GET";
  path_pattern = "/orders/*";
  seed = 42;
  budget = 4;
  include = [];
  exclude = [];
  source_revision = none;
}

abbrev cases_of : {X : Type 0} → Result X (List ExperimentCase) → List ExperimentCase
cases_of (ok cases) = cases
cases_of (err e) = []

abbrev cases : List ExperimentCase
cases = cases_of (
    plan_with_mutators fingerprints pointer_mut random protocol (ok ("int_1" ∷ [])) load_recorded
      config)

is_planned :
    plan_with_mutators fingerprints pointer_mut random protocol
      (ok ("int_1" ∷ []))
      load_recorded
      config
    ≡ ok cases
unfolding plan_with_mutators body_mutators protocol_trials plan_experiment request_path path_matches
    generate pushed status_mutations each_status header_mutations each_header set_header
    without_header body_mutations error_mutations errors_of pagination_mutations paginations_of
    delay_mutations first_of_each_id response_eq body_eq contains eq_ignore_ascii_case
    to_ascii_lowercase to_decimal sort_by dedup_by has_kind rank contains_str split_on
is_planned = refl

plan_with_mutators-IsOfRecorded_example :
    All (IsOfRecorded load_recorded fingerprints pointer_mut random protocol config) cases
plan_with_mutators-IsOfRecorded_example =
    plan_with_mutators-IsOfRecorded load_recorded fingerprints pointer_mut random protocol config
      (ok ("int_1" ∷ [])) cases is_planned
