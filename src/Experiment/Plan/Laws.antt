-- ===== src/Experiment/Plan/Laws.antt =====
-- The plans of `ExperimentRunner::plan` in crates/experiment/src/lib.rs.
use wire_assume.Prelude.{
  leb, Bool-cases, length, take, length-take, All, All-take, All-snoc, dedup_by, All-dedup_by,
  Result, ok, >>=-eq-ok, str_cmp, sort_by, All-sort_by, ℕ, ◌≤◌, String, ◌≡◌, inl, inr, Bool, false,
  not, List, [], ◌∷◌, ◌++◌, arith,
}
use wire_assume.Model.Corpus.{Interaction, ResponseRecord}
use wire_assume.MutationEngine.Kind.{MutationKind, has_kind}
use wire_assume.MutationEngine.Planner.{Mutator}
use wire_assume.Experiment.Plan.{
  ExperimentConfig, TrialMutation, ExperimentCase, candidate_cap, case_order, same_case, is_taken,
  push_cases, validate_config, load_wanted, from_corpus, body_cases, protocol_cases, push_all,
  finish_plan, plan_experiment,
}

-- Not of a kind that the configuration excludes.
abbrev pub IsAllowed : ExperimentConfig → ExperimentCase → Type 0
IsAllowed config c = has_kind config.exclude c.mutation.kind ≡ false

push_cases-IsAllowed :
    (config : ExperimentConfig) (skips : MutationKind → Bool) (cap : ℕ)
    (more cases : List ExperimentCase)
    → ((kind : MutationKind) → skips kind ≡ false → has_kind config.exclude kind ≡ false)
    → All (IsAllowed config) cases
    → All (IsAllowed config) (push_cases skips cap more cases).1
unfolding push_cases
push_cases-IsAllowed config skips cap [] cases keeps h = h
push_cases-IsAllowed config skips cap (c ∷ more) cases keeps h =
    elim (Bool-cases (skips c.mutation.kind)) [
      | inl skipped ↦ rw skipped (push_cases-IsAllowed config skips cap more cases keeps h)
      | inr kept ↦
          let h' = All-snoc (IsAllowed config) cases c h (keeps c.mutation.kind kept) in
          elim (Bool-cases (leb cap (length (cases ++ c ∷ [])))) [
            | inl full ↦ rw (kept, full) h'
            | inr room ↦
                rw (kept, room)
                  (push_cases-IsAllowed config skips cap more (cases ++ c ∷ []) keeps h')
          ]
    ]

is_taken-allowed :
    (config : ExperimentConfig) (kind : MutationKind)
    → not (is_taken config kind) ≡ false
    → has_kind config.exclude kind ≡ false
is_taken-allowed config kind h = ground arith

module _ {E : Type 0} (ids : Result E (List String)) (load : String → Result E Interaction)
    (mutators : List Mutator) (generate : ResponseRecord → ℕ → List TrialMutation) where
  push_all-IsAllowed :
      (config : ExperimentConfig) (interactions : List (String × Interaction))
      (cases : List ExperimentCase)
      → All (IsAllowed config) cases
      → All (IsAllowed config) (push_all ids load mutators generate config interactions cases)
  unfolding push_all
  push_all-IsAllowed config [] cases h = h
  push_all-IsAllowed config ((id, i) ∷ rest) cases h =
      let cap = candidate_cap config.budget in
      let bodies =
        push_cases (has_kind config.exclude) cap
          (body_cases ids load mutators generate config id i.response i.response.body) cases in
      let both =
        push_cases (λ kind. not (is_taken config kind)) cap
          (protocol_cases ids load mutators generate config id i.response) bodies.1 in
      let h1 =
        push_cases-IsAllowed config (has_kind config.exclude) cap
          (body_cases ids load mutators generate config id i.response i.response.body) cases
          (λ kind e. e) h in
      let h2 =
        push_cases-IsAllowed config (λ kind. not (is_taken config kind)) cap
          (protocol_cases ids load mutators generate config id i.response) bodies.1
          (is_taken-allowed config) h1 in
      elim (Bool-cases bodies.0) [
        | inl full ↦ rw full h1
        | inr room ↦ elim (Bool-cases both.0) [
          | inl full ↦ rw (room, full) h2
          | inr room' ↦ rw (room, room') (push_all-IsAllowed config rest both.1 h2)
        ]
      ]

  finish_plan-ok :
      (config : ExperimentConfig) (interactions : List (String × Interaction))
      (cases : List ExperimentCase)
      → finish_plan ids load mutators generate config interactions ≡ ok cases
      → (length cases ≤ config.budget) × All (IsAllowed config) cases
  finish_plan-ok config [] cases e = cc
  finish_plan-ok config (i ∷ interactions) cases e =
      let pushed =
        push_all ids load mutators generate config
          (sort_by (λ a b. str_cmp a.0 b.0) (i ∷ interactions)) [] in
      let chosen = dedup_by same_case (sort_by case_order pushed) in
      let same : take config.budget chosen ≡ cases = cc e in
      rw (← same) (
        omega (arith, length-take config.budget chosen),
        All-take _ config.budget chosen (
            All-dedup_by same_case _ _ (
              All-sort_by case_order _ pushed (
                push_all-IsAllowed config (sort_by (λ a b. str_cmp a.0 b.0) (i ∷ interactions)) []
                  tt))),
      )

  -- A plan of an experiment has at most as many cases as its budget, and none of a kind that is excluded.
  pub plan_experiment_within :
      (config : ExperimentConfig) (cases : List ExperimentCase)
      → plan_experiment ids load mutators generate config ≡ ok cases
      → (length cases ≤ config.budget) × All (IsAllowed config) cases
  unfolding plan_experiment
  plan_experiment_within config cases e =
      let (u, _, e1) = >>=-eq-ok (validate_config ids load mutators generate config) _ e in
      let (names, _, e2) = >>=-eq-ok (from_corpus ids load mutators generate ids) _ e1 in
      let (interactions, _, last) =
        >>=-eq-ok (load_wanted ids load mutators generate config names) _ e2 in
      finish_plan-ok config interactions cases last
