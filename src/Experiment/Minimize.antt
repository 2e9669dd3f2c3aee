-- ===== src/Experiment/Minimize.antt =====
-- crates/experiment/src/minimize.rs: the fields of a recorded response that the consumer needs.
pub mod Laws
use wire_assume.Prelude.{
  ltb, if◌then◌else◌, length, Result, ok, err, str_cmp, sort_by, ℕ, suc, String, ◌≡◌, Bool, true,
  false, Option, none, some, List, [], ◌∷◌, ◌++◌, map,
}
use wire_assume.Model.Json.{Value, object, Fields, end, field}
use wire_assume.Model.Objects.{keys, get_key, with_key}
use wire_assume.Model.Canonical.{Serde, stable_id}
use wire_assume.Model.Corpus.{Body, ResponseRecord}
use wire_assume.Model.Redaction.{RedactionPolicy, Regexes, redact_text}
use wire_assume.DeltaDebugger.{TestOutcome, MinimizeResult, MinimizeError}
use wire_assume.DeltaDebugger.Async.{Future, ready, pending, minimize_success_async}
use wire_assume.Oracles.{OracleStatus, OracleResult, OracleError, error_text, Oracle}
use wire_assume.Oracles
use wire_assume.Proxy.{ResponseOverride, World, apply, reset}
use wire_assume.Experiment.Report.{ResponseMinimization}

pub record MinimizationTrial : Type 0 where
  pub candidate_fields : List String
  pub outcome : String
  pub duration_ms : ℕ
  pub summary : String

pub record MinimizationArtifact : Type 0 where
  pub interaction_id : String
  pub original_fields : List String
  pub minimal_fields : List String
  pub tests_executed : ℕ
  pub established : Bool
  pub trials : List MinimizationTrial

pub record MinimizationFingerprint : Type 0 where
  pub interaction_id : String
  pub original_fields : List String
  pub minimal_fields : List String
  pub established : Bool
  pub trial_outcomes : List (List String × String)

-- The identifier of a minimization; the code expects that serde writes the fingerprint without an error.
pub record MinimizationIds (E : Type 0) : Type 0 where
  pub serde : Serde E
  pub to_value : MinimizationFingerprint → Result E Value
  pub minimization_id : MinimizationFingerprint → String
  pub id_is :
      (f : MinimizationFingerprint) → stable_id serde to_value "min" f ≡ ok (minimization_id f)

-- The `for` loop that fills `candidate_object`.
unfoldable pub restrict : Fields → List String → Fields → Fields
restrict values [] candidate = candidate
restrict values (name ∷ names) candidate = elim (get_key name values) [
  | none ↦ restrict values names candidate
  | some value ↦ restrict values names (with_key name value candidate)
]

-- The `match evaluated`: the outcome, its label, and what the trial records.
pub record Verdict : Type 0 where
  pub outcome : TestOutcome
  pub label : String
  pub duration_ms : ℕ
  pub summary : String

abbrev pub outcome_of : OracleStatus → TestOutcome
outcome_of Oracles.pass = TestOutcome.pass
outcome_of Oracles.fail = TestOutcome.fail
outcome_of Oracles.inconclusive = TestOutcome.unresolved

abbrev pub label_of : OracleStatus → String
label_of Oracles.pass = "pass"
label_of Oracles.fail = "fail"
label_of Oracles.inconclusive = "unresolved"

abbrev pub verdict_of : Result OracleError OracleResult → Verdict
verdict_of (ok result) = record {
  outcome = outcome_of result.status;
  label = label_of result.status;
  duration_ms = result.duration_ms;
  summary = result.summary;
}
verdict_of (err error) = record {
  outcome = TestOutcome.unresolved;
  label = "unresolved";
  duration_ms = 0;
  summary = error_text error;
}

-- The world and the `Mutex` of the trials.
pub record Trials (S : Type 0) : Type 0 where
  pub world : World S
  pub trials : List MinimizationTrial

-- `object.len()`
unfoldable pub field_count : Fields → ℕ
field_count end = 0
field_count (field k v fs) = suc (field_count fs)

module _ {E S : Type 0} (ids : MinimizationIds E) (new_regex : Regexes) (policy : RedactionPolicy)
    (oracle : Oracle S) (interaction_id : String) (baseline : ResponseRecord)
    (values : Fields) where
  -- The override of one candidate, whose fields are sorted first.
  unfoldable pub candidate_override : List String → ResponseOverride
  unfolding restrict
  candidate_override names = record {
    interaction_id = interaction_id;
    response = record baseline {
      body = Body.json (object (restrict values (sort_by str_cmp names) end));
    };
    delay_ms = 0;
  }

  abbrev pub evaluated : Trials S → Result OracleError OracleResult × S
  evaluated s = oracle.evaluate s.world.active s.world.outside

  abbrev pub trial_of : List String → Verdict → MinimizationTrial
  trial_of names v = record {
    candidate_fields = sort_by str_cmp names;
    outcome = v.label;
    duration_ms = v.duration_ms;
    summary = redact_text new_regex policy v.summary;
  }

  -- The closure: the four futures that it awaits, then its outcome.
  unfoldable pub test : List String → Future (Trials S) TestOutcome
  unfolding candidate_override
  test names =
      pending (λ s. record s { world = apply (candidate_override names) s.world })
        (λ _.
          pending (λ s. record s { world = record s.world { outside = (evaluated s).1 } })
            (λ s.
              let v = verdict_of (evaluated s).0 in
              pending (λ t. record t { world = reset t.world })
                (λ _.
                  pending (λ t. record t { trials = t.trials ++ trial_of names v ∷ [] })
                    (λ _. ready v.outcome))))

  -- What is made of the fields that are left.
  unfoldable pub report_minimization :
      List String
      → List String
      → ℕ
      → Bool
      → List MinimizationTrial
      → ResponseMinimization × MinimizationArtifact
  report_minimization original minimal tests_executed established trials = (
    record {
      id = ids.minimization_id (record {
        interaction_id = interaction_id;
        original_fields = original;
        minimal_fields = minimal;
        established = established;
        trial_outcomes = map (λ (t : MinimizationTrial). (t.candidate_fields, t.outcome)) trials;
      });
      interaction_id = interaction_id;
      original_fields = original;
      minimal_fields = minimal;
      tests_executed = tests_executed;
      established = established;
      artifact_ref = "";
    },
    record {
      interaction_id = interaction_id;
      original_fields = original;
      minimal_fields = minimal;
      tests_executed = tests_executed;
      established = established;
      trials = trials;
    },
  )

  -- The `match minimized`, after the reset.
  abbrev pub finish_minimization :
      List String
      → Result MinimizeError (MinimizeResult String)
      → Trials S
      → (ResponseMinimization × MinimizationArtifact) × World S
  finish_minimization original (ok result) s =
      (report_minimization original result.items result.tests_executed true s.trials, reset s.world)
  finish_minimization original (err e) s =
      (report_minimization original original (length s.trials) false s.trials, reset s.world)

  -- An object with two fields or more; `none` if the reducer runs out of fuel.
  unfoldable pub minimize_object :
      World S → Option ((ResponseMinimization × MinimizationArtifact) × World S)
  unfolding test report_minimization
  minimize_object w =
      let original = sort_by str_cmp (keys values) in
      elim (minimize_success_async test (record { world = w; trials = [] }) original) [
        | none ↦ none
        | some (minimized, s) ↦ some (finish_minimization original minimized s)
      ]

module _ {E S : Type 0} (ids : MinimizationIds E) (new_regex : Regexes) (policy : RedactionPolicy)
    (oracle : Oracle S) (interaction_id : String) (baseline : ResponseRecord) where
  abbrev pub minimized_as :
      Option ((ResponseMinimization × MinimizationArtifact) × World S)
      → Option (Option (ResponseMinimization × MinimizationArtifact) × World S)
  minimized_as none = none
  minimized_as (some (m, w)) = some (some m, w)

  abbrev pub minimize_body :
      Body → World S → Option (Option (ResponseMinimization × MinimizationArtifact) × World S)
  minimize_body (Body.json (object values)) w =
      if ltb (field_count values) 2
      then some (none, w)
      else minimized_as
          (minimize_object ids new_regex policy oracle interaction_id baseline values w)
  minimize_body _ w = some (none, w)

  unfoldable pub minimize_response_fields :
      World S → Option (Option (ResponseMinimization × MinimizationArtifact) × World S)
  unfolding minimize_object field_count
  minimize_response_fields w = minimize_body baseline.body w
