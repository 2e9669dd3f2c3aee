-- ===== src/Experiment/Plan/Cases.antt =====
-- What holds of the cases that the mutators make holds of a plan, crates/experiment/src/lib.rs.
use wire_assume.Prelude.{
  leb, if◌then◌else◌, Bool-cases, length, All, All-take, All-snoc, All-dedup_by, Result, ok, err,
  >>=-eq-ok, str_cmp, sort_by, All-sort_by, ℕ, String, ◌≡◌, refl, subst, inl, inr, Bool, true,
  false, not, List, [], ◌∷◌, ◌++◌, map,
}
use wire_assume.Model.Corpus.{Body, Interaction, ResponseRecord}
use wire_assume.MutationEngine.Kind.{MutationKind, has_kind}
use wire_assume.MutationEngine.Mutation.{Mutation}
use wire_assume.MutationEngine.Planner.{PlannerConfig, Mutator, generate_all}
use wire_assume.MutationEngine.Planner.Laws.{plan-All}
use wire_assume.Model.Json.{Value}
use wire_assume.Experiment.Plan.{
  ExperimentConfig, TrialMutation, ExperimentCase, candidate_cap, case_order, same_case, is_taken,
  push_cases, validate_config, load_wanted, from_corpus, wanted, body_case, body_cases,
  protocol_cases, push_all, finish_plan, plan_experiment,
}

push_cases-All :
    (P : ExperimentCase → Type 0) (skips : MutationKind → Bool) (cap : ℕ)
    (more cases : List ExperimentCase)
    → All P more
    → All P cases
    → All P (push_cases skips cap more cases).1
unfolding push_cases
push_cases-All P skips cap [] cases k h = h
push_cases-All P skips cap (c ∷ more) cases k h = elim (Bool-cases (skips c.mutation.kind)) [
  | inl skipped ↦ rw skipped (push_cases-All P skips cap more cases k.1 h)
  | inr kept ↦ elim (Bool-cases (leb cap (length (cases ++ c ∷ [])))) [
    | inl full ↦ rw (kept, full) (All-snoc P cases c h k.0)
    | inr room ↦
        rw (kept, room)
          (push_cases-All P skips cap more (cases ++ c ∷ []) k.1 (All-snoc P cases c h k.0))
  ]
]

pub All-map :
    {A B : Type 0} (P : B → Type 0) (Q : A → Type 0) (f : A → B) (xs : List A)
    → ((x : A) → Q x → P (f x))
    → All Q xs
    → All P (map f xs)
All-map P Q f [] k h = tt
All-map P Q f (x ∷ xs) k h = (k x h.0, All-map P Q f xs k h.1)

ok-injective : {X A : Type 0} {a b : A} → ◌≡◌ {A = Result X A} (ok a) (ok b) → a ≡ b
ok-injective e = cc e

All-if :
    {A : Type 0} (P : A → Type 0) (b : Bool) (x : A) (xs : List A)
    → P x
    → All P xs
    → All P (if b then x ∷ xs else xs)
All-if P true x xs h k = (h, k)
All-if P false x xs h k = k

module _ {E : Type 0} (ids : Result E (List String)) (load : String → Result E Interaction)
    (mutators : List Mutator) (generate : ResponseRecord → ℕ → List TrialMutation)
    (config : ExperimentConfig) (P : ExperimentCase → Type 0) (Q : Value → Mutation → Type 0)
    (of_mutators : (body : Value) → All (Q body) (generate_all mutators body config.seed))
    (of_body : (id : String) (i : Interaction) (body : Value) (m : Mutation)
      → load id ≡ ok i
      → i.response.body ≡ Body.json body
      → Q body m
      → P (body_case id i.response m))
    (of_protocol : (id : String) (i : Interaction)
      → load id ≡ ok i
      → All
          (λ t. P (record { interaction_id = id; mutation = t }))
          (generate i.response config.seed)) where
  body_cases-All :
      (id : String) (i : Interaction) (body : Body)
      → load id ≡ ok i
      → i.response.body ≡ body
      → All P (body_cases ids load mutators generate config id i.response body)
  body_cases-All id i (Body.json body) h e =
      let planner : PlannerConfig = record {
        budget = config.budget;
        concurrency = 1;
        seed = config.seed;
        retry_limit = 0;
        enabled = config.include;
      } in
      All-map P _ (body_case id i.response) _ (λ m made. of_body id i body m h e made.0.0)
        (plan-All mutators body planner [] (Q body) (of_mutators body))
  body_cases-All id i _ h e = tt

  abbrev Loaded : String × Interaction → Type 0
  Loaded e = load e.0 ≡ ok e.1

  push_all-All :
      (interactions : List (String × Interaction)) (cases : List ExperimentCase)
      → All Loaded interactions
      → All P cases
      → All P (push_all ids load mutators generate config interactions cases)
  unfolding push_all
  push_all-All [] cases k h = h
  push_all-All ((id, i) ∷ rest) cases k h =
      let cap = candidate_cap config.budget in
      let bodies =
        push_cases (has_kind config.exclude) cap
          (body_cases ids load mutators generate config id i.response i.response.body) cases in
      let both =
        push_cases (λ kind. not (is_taken config kind)) cap
          (protocol_cases ids load mutators generate config id i.response) bodies.1 in
      let h1 =
        push_cases-All P (has_kind config.exclude) cap
          (body_cases ids load mutators generate config id i.response i.response.body) cases
          (body_cases-All id i i.response.body k.0 refl) h in
      let h2 =
        push_cases-All P (λ kind. not (is_taken config kind)) cap
          (protocol_cases ids load mutators generate config id i.response) bodies.1
          (All-map P (λ t. P (record { interaction_id = id; mutation = t })) _ _ (λ t made. made)
            (of_protocol id i k.0))
          h1 in
      elim (Bool-cases bodies.0) [
        | inl full ↦ rw full h1
        | inr room ↦ elim (Bool-cases both.0) [
          | inl full ↦ rw (room, full) h2
          | inr room' ↦ rw (room, room') (push_all-All rest both.1 k.1 h2)
        ]
      ]

  from_corpus-ok :
      {A : Type 0} (r : Result E A) (a : A)
      → from_corpus ids load mutators generate r ≡ ok a
      → r ≡ ok a
  from_corpus-ok (ok b) a e = cc e
  from_corpus-ok (err x) a e = cc e

  load_wanted-Loaded :
      (names : List String) (found : List (String × Interaction))
      → load_wanted ids load mutators generate config names ≡ ok found
      → All Loaded found
  unfolding load_wanted
  load_wanted-Loaded [] found e = subst (All Loaded) (ok-injective e) tt
  load_wanted-Loaded (id ∷ names) found e =
      let (i, loaded, rest) = >>=-eq-ok (from_corpus ids load mutators generate (load id)) _ e in
      let (others, found', last) =
        >>=-eq-ok (load_wanted ids load mutators generate config names) _ rest in
      subst (All Loaded) (ok-injective last) (
        All-if Loaded (wanted ids load mutators generate config i) (id, i) others
          (from_corpus-ok (load id) i loaded) (load_wanted-Loaded names others found'))

  finish_plan-All :
      (interactions : List (String × Interaction)) (cases : List ExperimentCase)
      → All Loaded interactions
      → finish_plan ids load mutators generate config interactions ≡ ok cases
      → All P cases
  finish_plan-All [] cases k e = cc e
  finish_plan-All (i ∷ interactions) cases k e =
      let sorted = sort_by (λ a b. str_cmp a.0 b.0) (i ∷ interactions) in
      let pushed = push_all ids load mutators generate config sorted [] in
      subst (All P) (ok-injective e) (
        All-take P config.budget _ (
          All-dedup_by same_case P _ (
            All-sort_by case_order P pushed
              (push_all-All sorted [] (All-sort_by _ Loaded (i ∷ interactions) k) tt))))

  -- What holds of every case that the mutators can make of a loaded interaction holds of every case of the
  -- plan.
  pub plan_experiment-All :
      (cases : List ExperimentCase)
      → plan_experiment ids load mutators generate config ≡ ok cases
      → All P cases
  unfolding plan_experiment
  plan_experiment-All cases e =
      let (u, _, e1) = >>=-eq-ok (validate_config ids load mutators generate config) _ e in
      let (names, _, e2) = >>=-eq-ok (from_corpus ids load mutators generate ids) _ e1 in
      let (interactions, found, last) =
        >>=-eq-ok (load_wanted ids load mutators generate config names) _ e2 in
      finish_plan-All interactions cases (load_wanted-Loaded names interactions found) last
