-- ===== src/Oracles.antt =====
-- crates/oracles/src/lib.rs: what an oracle answers. The oracles themselves start processes and send
-- requests; an oracle is a parameter.
use wire_assume.Prelude.{Result, put_before, ℕ, String, Option}
use wire_assume.Proxy.{ResponseOverride}

pub data OracleStatus : Type 0 where
  pass fail inconclusive : OracleStatus

pub record OracleResult : Type 0 where
  pub status : OracleStatus
  pub duration_ms : ℕ
  pub summary : String
  pub stdout : String
  pub stderr : String

pub data OracleError : Type 0 where
  invalid execution : String → OracleError

-- `to_string`, by the attributes of thiserror.
abbrev pub error_text : OracleError → String
error_text (invalid text) = put_before "oracle configuration is invalid: " text
error_text (execution text) = put_before "oracle execution failed: " text

-- The trait `Oracle`: the consumer's requests are answered by the replay, with the override that is
-- active, and everything else outside the program may change.
pub record Oracle (S : Type 0) : Type 0 where
  pub kind : String
  pub evaluate : Option ResponseOverride → S → Result OracleError OracleResult × S
