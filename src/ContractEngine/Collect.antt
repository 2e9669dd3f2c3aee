-- ===== src/ContractEngine/Collect.antt =====
-- Proof rules for the loop and the ends of `build_consumption_lock` in crates/contract-engine/src/lib.rs.
use mathlib.Core.List.{Mem, mem-cons_self, mem-cons_of_mem}
use wire_assume.Prelude.{
  All-Mem, str_eq, Bool-cases, Option-cases, All, Result, ok, >>=-eq-ok, BTreeMap, get, Entries,
  String, ◌≡◌, sym, ap, subst, ◌∙◌, inl, inr, some, List, [], ◌∷◌, arith,
}
use wire_assume.Model.Corpus.{ResponseRecord}
use wire_assume.Experiment.Report.{TrialResult, ExperimentReport}
use wire_assume.ContractEngine.Records.{ContractContext, ConsumptionLock}
use wire_assume.ContractEngine.Build.{Builders, Callees, Failure}
use wire_assume.ContractEngine.Lock.{
  step, collect, no_builders, finish_requirement, finish_assumption, finish_all,
  build_consumption_lock,
}

module _ {E : Type 0} (callees : Callees E) (baselines : BTreeMap ResponseRecord) where
  module _ (P : Builders → Type 0) (all : List TrialResult)
      (keeps : (r : TrialResult) (baseline : ResponseRecord) (b : Builders)
        → Mem r all
        → P b
        → P (step callees r baseline b)) where
    collect_from :
        (results : List TrialResult) (b b' : Builders)
        → All (λ r. Mem r all) results
        → P b
        → collect callees baselines results b ≡ ok b'
        → P b'
    unfolding collect
    collect_from [] b b' listed h e = subst P (ground arith) h
    collect_from (r ∷ rs) b b' listed h e = elim (Option-cases (get r.interaction_id baselines)) [
      | inl nothing ↦ absurd (ground (arith, nothing))
      | inr (baseline, found) ↦
          collect_from rs (step callees r baseline b) b' listed.1 (keeps r baseline b listed.0 h)
            (ground (arith, found))
    ]

    -- What each step keeps holds at the end.
    pub collect_inv : (b b' : Builders) → P b → collect callees baselines all b ≡ ok b' → P b'
    collect_inv b b' = collect_from all b b' (All-Mem all all (λ r m. m))

module _ {E B A : Type 0} (callees : Callees E) (f : B → Result (Failure E) A) where
  -- Every finished value comes from an entry.
  pub finish_all-All :
      (P : String → B → Type 0) (Q : A → Type 0)
      → ((k : String) (b : B) (a : A) → P k b → f b ≡ ok a → Q a)
      → (m : BTreeMap B) (as' : List A) → Entries P m
      → finish_all callees f m ≡ ok as'
      → All Q as'
  unfolding finish_all
  finish_all-All P Q one [] [] all e = tt
  finish_all-All P Q one [] (a ∷ as') all e = cc
  finish_all-All P Q one ((k, b) ∷ m) as' all e =
      let (a, first, e') = >>=-eq-ok (f b) _ e in
      let (rest, others, last) = >>=-eq-ok (finish_all callees f m) _ e' in
      let result : a ∷ rest ≡ as' = cc last in
      subst (All Q) result (one k b a all.0 first, finish_all-All P Q one m rest all.1 others)

  -- Every entry is finished.
  pub finish_all-get :
      (k : String) (b : B) (m : BTreeMap B) (as' : List A)
      → get k m ≡ some b
      → finish_all callees f m ≡ ok as'
      → (a : A) × Mem a as' × (f b ≡ ok a)
  unfolding finish_all get
  finish_all-get k b [] as' found e = cc
  finish_all-get k b ((j, c) ∷ m) as' found e =
      let (a, first, e') = >>=-eq-ok (f c) _ e in
      let (rest, others, last) = >>=-eq-ok (finish_all callees f m) _ e' in
      let result : a ∷ rest ≡ as' = cc last in
      elim (Bool-cases (str_eq j k)) [
        | inl same ↦
            let value : c ≡ b = ground arith in
            (a, subst (Mem a) result mem-cons_self, ap f (sym value) ∙ first)
        | inr other ↦
            let (a', later, done) = finish_all-get k b m rest (rw other at found) others in
            (a', subst (Mem a') result (mem-cons_of_mem a later), done)
      ]

-- A run that returns a lock.
pub record Built {E : Type 0} (callees : Callees E) (report : ExperimentReport)
    (baselines : BTreeMap ResponseRecord) (lock : ConsumptionLock) : Type 0 where
  pub builders : Builders
  pub collected : collect callees baselines report.results no_builders ≡ ok builders
  pub requirements :
      finish_all callees (finish_requirement callees) builders.requirements ≡ ok lock.requirements
  pub assumptions :
      finish_all callees (finish_assumption callees) builders.assumptions ≡ ok lock.assumptions

pub build-Built :
    {E : Type 0} (callees : Callees E) (report : ExperimentReport)
    (baselines : BTreeMap ResponseRecord) (context : ContractContext) (lock : ConsumptionLock)
    → build_consumption_lock callees report baselines context ≡ ok lock
    → Built callees report baselines lock
unfolding build_consumption_lock
build-Built callees report baselines context lock e =
    let (builders, collected, e₁) =
      >>=-eq-ok (collect callees baselines report.results no_builders) _ e in
    let (rs, requirements, e₂) =
      >>=-eq-ok (finish_all callees (finish_requirement callees) builders.requirements) _ e₁ in
    let (as', assumptions, e₃) =
      >>=-eq-ok (finish_all callees (finish_assumption callees) builders.assumptions) _ e₂ in
    record {
      builders = builders;
      collected = collected;
      requirements = requirements ∙ cc e₃;
      assumptions = assumptions ∙ cc e₃;
    }
