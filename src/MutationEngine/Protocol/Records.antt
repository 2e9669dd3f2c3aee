-- ===== src/MutationEngine/Protocol/Records.antt =====
-- The configuration and the mutations of crates/mutation-engine/src/protocol.rs, and the derived equality
-- of the responses of crates/model/src/corpus.rs.
use wire_assume.Prelude.{◌==◌, str_eq, list_eq, ℕ, String, Bool, true, false, ◌&&◌, List, [], ◌∷◌}
use wire_assume.Model.Corpus.{Header, Body, ResponseRecord}
use wire_assume.Model.Objects.{value_eq}
use wire_assume.MutationEngine.Kind.{MutationKind}
use wire_assume.MutationEngine.Mutation.{Fingerprints}

pub record ProtocolMutatorConfig : Type 0 where
  pub status_codes : List ℕ
  pub delay_ms : ℕ
  pub malformed_body : Bool

abbrev pub default_status_codes : List ℕ
default_status_codes = 400 ∷ 422 ∷ 429 ∷ 500 ∷ 502 ∷ 503 ∷ 504 ∷ []

abbrev pub default_delay_ms : ℕ
default_delay_ms = 1000

abbrev pub default_config : ProtocolMutatorConfig
default_config = record {
  status_codes = default_status_codes;
  delay_ms = default_delay_ms;
  malformed_body = false;
}

pub record ProtocolMutation : Type 0 where
  pub id : String
  pub kind : MutationKind
  pub target : String
  pub description : String
  pub seed : ℕ
  pub response : ResponseRecord
  pub delay_ms : ℕ

-- `ProtocolMutation::new`
abbrev pub new_protocol :
    {E : Type 0}
    → Fingerprints E
    → MutationKind
    → String
    → String
    → ℕ
    → String
    → ResponseRecord
    → ℕ
    → ProtocolMutation
new_protocol fingerprints kind target description seed variant response delay_ms = record {
  id =
      fingerprints.mutation_id
        (record { kind = kind; path = target; seed = seed; variant = variant });
  kind = kind;
  target = target;
  description = description;
  seed = seed;
  response = response;
  delay_ms = delay_ms;
}

abbrev pub protocol_id : ProtocolMutation → String
protocol_id m = m.id

abbrev pub header_eq : Header → Header → Bool
header_eq a b = str_eq a.name b.name && str_eq a.value b.value

unfoldable pub body_eq : Body → Body → Bool
unfolding value_eq
body_eq Body.empty Body.empty = true
body_eq (Body.json a) (Body.json b) = value_eq a b
body_eq (Body.text a) (Body.text b) = str_eq a b
body_eq (Body.base64 a) (Body.base64 b) = str_eq a b
body_eq _ _ = false

unfoldable pub response_eq : ResponseRecord → ResponseRecord → Bool
unfolding body_eq
response_eq a b =
    (a.status == b.status) && (list_eq header_eq a.headers b.headers && body_eq a.body b.body)
