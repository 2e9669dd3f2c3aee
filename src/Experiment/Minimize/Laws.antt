-- ===== src/Experiment/Minimize/Laws.antt =====
-- What `minimize_response_fields` of crates/experiment/src/minimize.rs establishes.
use mathlib.Core.List.{Sublist}
use wire_assume.Prelude.{
  ltb, Bool-cases, Option-cases, length, Result, ok, err, str_cmp, sort_by, ◌<◌, String, ◌≡◌, refl,
  sym, ap, ◌∙◌, ◌≢◌, ◌⊎◌, inl, inr, true, false, Option, none, some, List, [],
}
use wire_assume.Model.Json.{object, Fields}
use wire_assume.Model.Objects.{keys}
use wire_assume.Model.Corpus.{Body, ResponseRecord}
use wire_assume.Model.Redaction.{RedactionPolicy, Regexes}
use wire_assume.DeltaDebugger.{
  TestOutcome, pass, MinimizeResult, MinimizeError, ddmin, minimize_success,
}
use wire_assume.DeltaDebugger.Async.{await, minimize_success_async, minimize_success_async-eq}
use wire_assume.DeltaDebugger.Termination.{ddmin-total}
use wire_assume.DeltaDebugger.Minimal.{IsOneMinimal}
use wire_assume.Oracles.{Oracle}
use wire_assume.Proxy.{ResponseOverride, World}
use wire_assume.Experiment.Report.{ResponseMinimization}
use wire_assume.Experiment.Minimize.{
  MinimizationIds, MinimizationArtifact, Trials, verdict_of, candidate_override, test,
  finish_minimization, minimize_object, field_count, minimize_body, minimize_response_fields,
}

module _ {E S : Type 0} (ids : MinimizationIds E) (new_regex : Regexes) (policy : RedactionPolicy)
    (oracle : Oracle S) (interaction_id : String) (baseline : ResponseRecord)
    (values : Fields) where
  -- The closure, when it is awaited at once.
  abbrev pub awaited : Trials S → List String → TestOutcome × Trials S
  awaited s names = await (test ids new_regex policy oracle interaction_id baseline values names) s

  abbrev pub override_of : List String → ResponseOverride
  override_of = candidate_override ids new_regex policy oracle interaction_id baseline values

  run_minimize : World S → Option (Result MinimizeError (MinimizeResult String) × Trials S)
  run_minimize w =
      minimize_success_async (test ids new_regex policy oracle interaction_id baseline values)
        (record { world = w; trials = [] }) (sort_by str_cmp (keys values))

  run_minimize-eq :
      (w : World S)
      → run_minimize w
        ≡ ddmin awaited pass (record { world = w; trials = [] }) (sort_by str_cmp (keys values))
  unfolding minimize_success run_minimize
  run_minimize-eq w =
      minimize_success_async-eq (test ids new_regex policy oracle interaction_id baseline values)
        (record { world = w; trials = [] }) (sort_by str_cmp (keys values))

  finished :
      Option (Result MinimizeError (MinimizeResult String) × Trials S)
      → Option ((ResponseMinimization × MinimizationArtifact) × World S)
  finished none = none
  finished (some (minimized, s)) = some (
      finish_minimization ids new_regex policy oracle interaction_id baseline values
        (sort_by str_cmp (keys values)) minimized s)

  ends-with :
      (w : World S) (o : Option (Result MinimizeError (MinimizeResult String) × Trials S))
      → run_minimize w ≡ o
      → minimize_object ids new_regex policy oracle interaction_id baseline values w ≡ finished o
  unfolding minimize_object run_minimize finished
  ends-with w o e = ap finished e

  -- The reduction of an object always ends.
  pub minimize_object-total :
      (w : World S)
      → minimize_object ids new_regex policy oracle interaction_id baseline values w ≢ none
  unfolding finished
  minimize_object-total w e = elim (Option-cases (run_minimize w)) [
    | inl out_of_fuel ↦
        ddmin-total awaited pass (record { world = w; trials = [] }) (sort_by str_cmp (keys values))
          (sym (run_minimize-eq w) ∙ out_of_fuel)
    | inr ((minimized, s), ends) ↦ cc (ends-with w (some (minimized, s)) ends, e)
  ]

  module _ (p : ResponseOverride → TestOutcome)
      (steady : (o : ResponseOverride) (s : S)
        → (verdict_of (oracle.evaluate (some o) s).0).outcome ≡ p o) where
    pub agrees : (s : Trials S) (names : List String) → (awaited s names).0 ≡ p (override_of names)
    unfolding test
    agrees s names = steady (override_of names) s.world.outside

    -- The fields that are left are some of the recorded ones, the consumer passes with them, and, if they
    -- are two or more, with none of them left out.
    pub record IsEstablished (m : ResponseMinimization) : Type 0 where
      pub recorded : Sublist m.minimal_fields m.original_fields
      pub passes : p (override_of m.minimal_fields) ≡ pass
      pub needed :
          (length m.minimal_fields < 2)
          ⊎ IsOneMinimal awaited pass (λ names. p (override_of names)) agrees m.minimal_fields

    -- The consumer does not pass with all of the fields, and all are kept.
    pub record IsRefused (m : ResponseMinimization) : Type 0 where
      pub kept : m.minimal_fields ≡ m.original_fields
      pub fails : p (override_of m.original_fields) ≢ pass

    abbrev pub Tells : ResponseMinimization → Type 0
    Tells m = ((m.established ≡ true) × IsEstablished m) ⊎ ((m.established ≡ false) × IsRefused m)

    abbrev Sound : (ResponseMinimization × MinimizationArtifact) × World S → Type 0
    Sound ((m, artifact), w) =
        (length artifact.trials ≡ m.tests_executed) × (w.active ≡ none) × Tells m

module _ {E S : Type 0} (ids : MinimizationIds E) (new_regex : Regexes) (policy : RedactionPolicy)
    (oracle : Oracle S) (interaction_id : String) (baseline : ResponseRecord) where
  finish-quiet :
      (values : Fields) (original : List String)
      (minimized : Result MinimizeError (MinimizeResult String)) (s : Trials S)
      → (finish_minimization ids new_regex policy oracle interaction_id baseline values original
          minimized s).1.active
        ≡ none
  finish-quiet values original (ok result) s = refl
  finish-quiet values original (err e) s = refl

  -- No override is active after a reduction that found none active.
  pub minimize_body-quiet :
      (body : Body) (w w' : World S) (m : Option (ResponseMinimization × MinimizationArtifact))
      → w.active ≡ none
      → minimize_body ids new_regex policy oracle interaction_id baseline body w ≡ some (m, w')
      → w'.active ≡ none
  unfolding field_count finished
  minimize_body-quiet (Body.json (object values)) w w' m h e =
      elim (Bool-cases (ltb (field_count values) 2)) [
        | inl few ↦ cc (h, rw few at e)
        | inr many ↦
            elim (Option-cases
              (run_minimize ids new_regex policy oracle interaction_id baseline values w)) [
                | inl out_of_fuel ↦ cc (
                    rw
                      (
                        many,
                        ends-with ids new_regex policy oracle interaction_id baseline values w none
                            out_of_fuel,
                      )
                      at e)
                | inr ((minimized, s), ends) ↦ cc (
                  rw
                      (
                        many,
                        ends-with ids new_regex policy oracle interaction_id baseline values w
                            (some (minimized, s)) ends,
                      )
                      at e,
                  finish-quiet values (sort_by str_cmp (keys values)) minimized s,
                )
              ]
      ]
  minimize_body-quiet _ w w' m h e = cc (h, e)

  minimize_body-total :
      (body : Body) (w : World S)
      → minimize_body ids new_regex policy oracle interaction_id baseline body w ≢ none
  unfolding field_count
  minimize_body-total (Body.json (object values)) w e =
      elim (Bool-cases (ltb (field_count values) 2)) [
        | inl few ↦ cc (rw few at e)
        | inr many ↦
            elim (Option-cases
              (minimize_object ids new_regex policy oracle interaction_id baseline values w)) [
                | inl out_of_fuel ↦
                    minimize_object-total ids new_regex policy oracle interaction_id baseline values
                      w out_of_fuel
                | inr (_, ends) ↦ cc (rw (many, ends) at e)
              ]
      ]
  minimize_body-total _ w e = cc e

  minimize_response_fields-total :
      (w : World S)
      → minimize_response_fields ids new_regex policy oracle interaction_id baseline w ≢ none
  unfolding minimize_response_fields
  minimize_response_fields-total w e = minimize_body-total baseline.body w e
