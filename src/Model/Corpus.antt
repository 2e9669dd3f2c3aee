-- ===== src/Model/Corpus.antt =====
-- The records of crates/model/src/corpus.rs.
use wire_assume.Prelude.{ℕ, String, List, Option}
use wire_assume.Model.Json.{Value}

pub record Header : Type 0 where
  pub name : String
  pub value : String

pub data Body : Type 0 where
  empty : Body
  json : Value → Body
  text : String → Body
  base64 : String → Body

pub record RequestRecord : Type 0 where
  pub method : String
  pub uri : String
  pub headers : List Header
  pub body : Body

pub record ResponseRecord : Type 0 where
  pub status : ℕ
  pub headers : List Header
  pub body : Body

pub record InteractionMetadata : Type 0 where
  pub captured_at : String
  pub duration_ms : ℕ
  pub provider_id : String
  pub scenario_id : String
  pub correlation_id : Option String

pub record Interaction : Type 0 where
  pub request : RequestRecord
  pub response : ResponseRecord
  pub metadata : InteractionMetadata
