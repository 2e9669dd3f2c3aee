-- ===== src/Experiment/Plan.antt =====
-- `ExperimentRunner::plan` of crates/experiment/src/lib.rs. The corpus is input and output: `ids` and
-- `load` are parameters, and so are the mutators, which this function only calls.
pub mod Laws
pub mod Cases
mod Samples
mod MutatorSamples
use Prim.Native.Char.{code}
use wire_assume.Prelude.{
  leb, ◌==◌, str_eq, if◌then◌else◌, length, take, dedup_by, Result, ok, err, ◌>>=◌, then_cmp,
  str_cmp, sort_by, ◌++ₛ◌, eq_ignore_ascii_case, ℕ, ◌-◌, ◌*◌, ◌^◌, min, max, Ordering, String, Bool,
  true, false, not, ◌&&◌, ◌||◌, Option, List, [], ◌∷◌, ◌++◌, map,
}
use wire_assume.Model.Json.{Value}
use wire_assume.Model.Corpus.{Body, Interaction, ResponseRecord}
use wire_assume.MutationEngine.Kind.{MutationKind, kind_cmp, has_kind}
use wire_assume.MutationEngine.Mutation.{Mutation}
use wire_assume.MutationEngine.Planner.{Mutator, no_kinds}
use wire_assume.MutationEngine.Planner
use wire_assume.Experiment.Paths.{request_path, path_matches}

-- `protocol` stands in the parameter that generates the protocol mutations.
pub record ExperimentConfig : Type 0 where
  pub scenario_id : String
  pub method : String
  pub path_pattern : String
  pub seed : ℕ
  pub budget : ℕ
  pub include : List MutationKind
  pub exclude : List MutationKind
  pub source_revision : Option String

-- ProtocolMutation has the same fields and a seed, which is not passed on.
pub record TrialMutation : Type 0 where
  pub id : String
  pub kind : MutationKind
  pub target : String
  pub description : String
  pub response : ResponseRecord
  pub delay_ms : ℕ

pub record ExperimentCase : Type 0 where
  pub interaction_id : String
  pub mutation : TrialMutation

-- `no_interactions` is the `Invalid` whose text is made of its three fields.
pub data ExperimentError (E : Type 0) : Type 0 where
  invalid : String → ExperimentError E
  no_interactions : String → String → String → ExperimentError E
  corpus : E → ExperimentError E

-- `char::is_whitespace`, by code point.
unfoldable pub is_whitespace : ℕ → Bool
is_whitespace c =
    (leb 9 c && leb c 13)
    || (c == 32)
    || (c == 133)
    || (c == 160)
    || (c == 5760)
    || (leb 8192 c && leb c 8202)
    || (c == 8232)
    || (c == 8233)
    || (c == 8239)
    || (c == 8287)
    || (c == 12288)

-- `trim().is_empty()`
unfoldable pub is_blank : String → Bool
unfolding is_whitespace
is_blank String.[] = true
is_blank (String.◌∷◌ c s) = is_whitespace (code c) && is_blank s

-- `budget.saturating_mul(4).max(budget)` on `usize` of 64 bits.
pub candidate_cap : ℕ → ℕ
candidate_cap budget = max (min (budget * 4) (2 ^ 64 - 1)) budget

abbrev pub case_order : ExperimentCase → ExperimentCase → Ordering
case_order a b =
    then_cmp
      (then_cmp
        (then_cmp (str_cmp a.interaction_id b.interaction_id)
          (str_cmp a.mutation.target b.mutation.target))
        (kind_cmp a.mutation.kind b.mutation.kind))
      (str_cmp a.mutation.id b.mutation.id)

abbrev pub same_case : ExperimentCase → ExperimentCase → Bool
same_case a b = str_eq a.interaction_id b.interaction_id && str_eq a.mutation.id b.mutation.id

abbrev pub body_case : String → ResponseRecord → Mutation → ExperimentCase
body_case interaction_id response m = record {
  interaction_id = interaction_id;
  mutation = record {
    id = m.id;
    kind = m.kind;
    target = "response.body" ++ₛ m.path;
    description = m.description;
    response = record response { body = Body.json m.mutated };
    delay_ms = 0;
  };
}

abbrev pub is_taken : ExperimentConfig → MutationKind → Bool
is_taken config kind =
    (no_kinds config.include || has_kind config.include kind) && not (has_kind config.exclude kind)

-- One of the two inner loops, over the cases that its mutations make: a case of a kind that `skips` is
-- passed over, and the Boolean is `break 'interactions`.
pub push_cases :
    (MutationKind → Bool)
    → (cap : ℕ) → List ExperimentCase
    → List ExperimentCase
    → Bool × List ExperimentCase
push_cases skips cap [] cases = (false, cases)
push_cases skips cap (c ∷ more) cases =
    let skipped = push_cases skips cap more cases in
    let cases' = cases ++ c ∷ [] in
    let pushed = push_cases skips cap more cases' in
    if skips c.mutation.kind
    then skipped
    else if leb cap (length cases')
    then (true, cases')
    else pushed

module _ {E : Type 0} (ids : Result E (List String)) (load : String → Result E Interaction)
    (mutators : List Mutator) (generate : ResponseRecord → ℕ → List TrialMutation) where
  pub validate_config : ExperimentConfig → Result (ExperimentError E) (Unit {0})
  unfolding is_blank
  validate_config config =
      if is_blank config.scenario_id
      then err (invalid "scenario_id must not be empty")
      else if is_blank config.method
      then err (invalid "method must not be empty")
      else if is_blank config.path_pattern
      then err (invalid "path_pattern must not be empty")
      else if config.budget == 0
      then err (invalid "budget must be greater than zero")
      else ok tt

  abbrev pub from_corpus : {A : Type 0} → Result E A → Result (ExperimentError E) A
  from_corpus (ok a) = ok a
  from_corpus (err e) = err (corpus e)

  abbrev pub wanted : ExperimentConfig → Interaction → Bool
  wanted config interaction =
      str_eq interaction.metadata.scenario_id config.scenario_id
      && eq_ignore_ascii_case interaction.request.method config.method
      && path_matches config.path_pattern (request_path interaction.request.uri)

  pub load_wanted :
      ExperimentConfig → List String → Result (ExperimentError E) (List (String × Interaction))
  load_wanted config [] = ok []
  load_wanted config (id ∷ rest) = do
    interaction ← from_corpus (load id)
    others ← load_wanted config rest
    ok (if wanted config interaction then (id, interaction) ∷ others else others)

  abbrev pub body_cases : ExperimentConfig → String → ResponseRecord → Body → List ExperimentCase
  body_cases config id response (Body.json body) = map (body_case id response) (
      (Planner.plan mutators body
        (record {
          budget = config.budget;
          concurrency = 1;
          seed = config.seed;
          retry_limit = 0;
          enabled = config.include;
        })
        []).selected)
  body_cases config id response body = []

  abbrev pub protocol_cases : ExperimentConfig → String → ResponseRecord → List ExperimentCase
  protocol_cases config id response =
      map (λ m. record { interaction_id = id; mutation = m }) (generate response config.seed)

  -- `'interactions: for …`
  pub push_all :
      ExperimentConfig → List (String × Interaction) → List ExperimentCase → List ExperimentCase
  unfolding push_cases candidate_cap
  push_all config [] cases = cases
  push_all config ((id, interaction) ∷ rest) cases =
      let response = interaction.response in
      let cap = candidate_cap config.budget in
      let (full, bodies) =
        push_cases (has_kind config.exclude) cap (body_cases config id response response.body)
          cases in
      let (full', both) =
        push_cases (λ kind. not (is_taken config kind)) cap (protocol_cases config id response)
          bodies in
      let others = push_all config rest both in
      if full then bodies else if full' then both else others

  abbrev finish_plan :
      ExperimentConfig
      → List (String × Interaction)
      → Result (ExperimentError E) (List ExperimentCase)
  finish_plan config [] = err (no_interactions config.scenario_id config.method config.path_pattern)
  finish_plan config (i ∷ interactions) = ok (
      take config.budget (
        dedup_by same_case (
          sort_by case_order
            (push_all config (sort_by (λ a b. str_cmp a.0 b.0) (i ∷ interactions)) []))))

  pub plan_experiment : ExperimentConfig → Result (ExperimentError E) (List ExperimentCase)
  unfolding validate_config load_wanted push_all
  plan_experiment config = do
    _ ← validate_config config
    names ← from_corpus ids
    interactions ← load_wanted config names
    finish_plan config interactions
