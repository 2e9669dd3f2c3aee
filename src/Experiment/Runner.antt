-- ===== src/Experiment/Runner.antt =====
-- The mutators that `ExperimentRunner::plan` of crates/experiment/src/lib.rs plans with.
pub mod Laws
use wire_assume.Prelude.{Result, ℕ, String, List, [], ◌∷◌, map}
use wire_assume.Model.Corpus.{Interaction, ResponseRecord}
use wire_assume.MutationEngine.Mutation.{Fingerprints, Pointers}
use wire_assume.MutationEngine.Planner.{Mutator}
use wire_assume.MutationEngine.JsonMutator
use wire_assume.MutationEngine.ArrayMutator
use wire_assume.MutationEngine.ArrayMutator.{Randomness}
use wire_assume.MutationEngine.Protocol.Records.{ProtocolMutatorConfig, ProtocolMutation}
use wire_assume.MutationEngine.Protocol.Generate
use wire_assume.Experiment.Plan.{
  ExperimentConfig, TrialMutation, ExperimentCase, ExperimentError, plan_experiment,
}

-- The fields that are passed on.
abbrev pub trial_mutation : ProtocolMutation → TrialMutation
trial_mutation m = record {
  id = m.id;
  kind = m.kind;
  target = m.target;
  description = m.description;
  response = m.response;
  delay_ms = m.delay_ms;
}

module _ {F : Type 0} (fingerprints : Fingerprints F) (pointer_mut : Pointers) (random : Randomness)
    (protocol : ProtocolMutatorConfig) where
  -- `vec![Box::new(JsonMutator), Box::new(ArrayMutator)]`
  unfoldable pub body_mutators : List Mutator
  body_mutators =
      JsonMutator.generate fingerprints pointer_mut
      ∷ ArrayMutator.generate fingerprints pointer_mut random
      ∷ []

  unfoldable pub protocol_trials : ResponseRecord → ℕ → List TrialMutation
  protocol_trials response seed =
      map trial_mutation (Generate.generate fingerprints pointer_mut protocol response seed)

  -- `ExperimentRunner::plan`, where `ids` and `load` are what the corpus store returns.
  unfoldable pub plan_with_mutators :
      {E : Type 0}
      → Result E (List String)
      → (String → Result E Interaction)
      → ExperimentConfig
      → Result (ExperimentError E) (List ExperimentCase)
  unfolding body_mutators protocol_trials
  plan_with_mutators ids load config = plan_experiment ids load body_mutators protocol_trials config
