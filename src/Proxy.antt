-- ===== src/Proxy.antt =====
-- The controller of crates/proxy/src/experiment_server.rs: the override that the replay answers with.
use wire_assume.Prelude.{ℕ, String, Option, none, some}
use wire_assume.Model.Corpus.{ResponseRecord}

pub record ResponseOverride : Type 0 where
  pub interaction_id : String
  pub response : ResponseRecord
  pub delay_ms : ℕ

-- `ExperimentReplayController`; `S` is what lies outside the program.
pub record World (S : Type 0) : Type 0 where
  pub active : Option ResponseOverride
  pub outside : S

module _ {S : Type 0} where
  -- `ExperimentReplayController::apply`
  abbrev pub apply : ResponseOverride → World S → World S
  apply response_override w = record w { active = some response_override }

  -- `ExperimentReplayController::reset`
  abbrev pub reset : World S → World S
  reset w = record w { active = none }
