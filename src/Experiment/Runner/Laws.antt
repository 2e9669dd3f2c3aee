-- ===== src/Experiment/Runner/Laws.antt =====
-- What the cases of a plan change: crates/experiment/src/lib.rs with the mutators.
use mathlib.Core.List.{Mem}
use wire_assume.Prelude.{
  All-append, All-mp, All-Mem, All, Result, ok, String, ◌≡◌, refl, ◌⊎◌, inl, inr, List,
}
use wire_assume.Model.Corpus.{Body, Interaction, ResponseRecord}
use wire_assume.MutationEngine.Mutation.{Mutation, Fingerprints, Pointers}
use wire_assume.MutationEngine.Planner.{generate_all}
use wire_assume.MutationEngine.JsonMutator
use wire_assume.MutationEngine.ArrayMutator
use wire_assume.MutationEngine.ArrayMutator.{Randomness}
use wire_assume.MutationEngine.Protocol.Records.{ProtocolMutatorConfig}
use wire_assume.MutationEngine.Protocol.Generate
use wire_assume.MutationEngine.Protocol.Scope.{Keeps, IsScoped}
use wire_assume.Model.Json.{Value}
use wire_assume.MutationEngine.Protocol.Laws.{generate-IsScoped}
use wire_assume.Experiment.Plan.{ExperimentConfig, TrialMutation, ExperimentCase}
use wire_assume.Experiment.Plan.Cases.{All-map, plan_experiment-All}
use wire_assume.Experiment.Runner.{
  trial_mutation, body_mutators, protocol_trials, plan_with_mutators,
}

module _ {E F : Type 0} (load : String → Result E Interaction) (fingerprints : Fingerprints F)
    (pointer_mut : Pointers) (random : Randomness) (protocol : ProtocolMutatorConfig)
    (config : ExperimentConfig) where
  -- One of the mutations that the two mutators of a body make of it.
  abbrev pub IsGenerated : Value → Mutation → Type 0
  IsGenerated body m =
      Mem m (JsonMutator.generate fingerprints pointer_mut body config.seed)
      ⊎ Mem m (ArrayMutator.generate fingerprints pointer_mut random body config.seed)

  -- A mutation of the recorded JSON body, which does not wait.
  abbrev pub ChangesBody : ResponseRecord → TrialMutation → Type 0
  ChangesBody recorded t =
      (body : Value) × (m : Mutation) × (recorded.body ≡ Body.json body)
      × IsGenerated body m
      × (t.id ≡ m.id)
      × (t.kind ≡ m.kind)
      × (t.response ≡ record recorded { body = Body.json m.mutated })
      × (t.delay_ms ≡ 0)

  pub record IsOfRecorded (c : ExperimentCase) : Type 0 where
    pub recorded : Interaction
    pub loaded : load c.interaction_id ≡ ok recorded
    pub changes :
        ChangesBody recorded.response c.mutation
        ⊎ Keeps pointer_mut protocol recorded.response c.mutation.response c.mutation.delay_ms
            c.mutation.kind

  generate_all-IsGenerated :
      (body : Value)
      → All
          (IsGenerated body)
          (generate_all (body_mutators fingerprints pointer_mut random protocol) body config.seed)
  unfolding body_mutators
  generate_all-IsGenerated body =
      let of_json = JsonMutator.generate fingerprints pointer_mut body config.seed in
      let of_arrays = ArrayMutator.generate fingerprints pointer_mut random body config.seed in
      All-append (IsGenerated body) of_json _
        (All-mp (λ m. Mem m of_json) (IsGenerated body) of_json (λ m made. inl made)
          (All-Mem of_json of_json (λ m made. made)))
        (All-append (IsGenerated body) of_arrays _
          (All-mp (λ m. Mem m of_arrays) (IsGenerated body) of_arrays (λ m made. inr made)
            (All-Mem of_arrays of_arrays (λ m made. made)))
          tt)

  module _ (ids : Result E (List String)) where
    of_protocol :
        (id : String) (i : Interaction)
        → load id ≡ ok i
        → All
            (λ t. IsOfRecorded (record { interaction_id = id; mutation = t }))
            (protocol_trials fingerprints pointer_mut random protocol i.response config.seed)
    unfolding protocol_trials
    of_protocol id i h =
        All-map (λ t. IsOfRecorded (record { interaction_id = id; mutation = t }))
          (IsScoped pointer_mut protocol i.response) trial_mutation
          (Generate.generate fingerprints pointer_mut protocol i.response config.seed)
          (λ m scoped. record { recorded = i; loaded = h; changes = inr scoped })
          (generate-IsScoped fingerprints pointer_mut protocol i.response config.seed)

    -- Every case of a plan with the program's mutators is of an interaction that the corpus has. It has the
    -- id, the kind and the document of a mutation that the JSON or the array mutator makes of the recorded
    -- body, keeps the rest and does not wait, or it differs from the recorded response by just what the
    -- kind of its mutation names.
    pub plan_with_mutators-IsOfRecorded :
        (cases : List ExperimentCase)
        → plan_with_mutators fingerprints pointer_mut random protocol ids load config ≡ ok cases
        → All IsOfRecorded cases
    unfolding plan_with_mutators
    plan_with_mutators-IsOfRecorded cases e =
        plan_experiment-All ids load (body_mutators fingerprints pointer_mut random protocol)
          (protocol_trials fingerprints pointer_mut random protocol) config IsOfRecorded IsGenerated
          generate_all-IsGenerated
          (λ id i body m h e made. record {
            recorded = i;
            loaded = h;
            changes = inl (body, m, e, made, refl, refl, refl, refl);
          })
          of_protocol cases e
