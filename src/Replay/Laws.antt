-- ===== src/Replay/Laws.antt =====
-- Which response is replayed: crates/replay/src/lib.rs and crates/proxy/src/experiment_server.rs.
use wire_assume.Prelude.{
  str_eq, Bool-cases, Option-cases, str_ne, All, Result, ok, >>=-eq-ok, str_cmp,
  str_cmp-IsTotalOrder, IsSorted, sort_by-IsSorted, by_key-IsWeakOrder, below-total, ℕ, String, ◌≡◌,
  refl, sym, ap, subst, ◌∙◌, ◌≢◌, ◌⊎◌, inl, inr, Bool, true, false, Option, none, some, List, [],
  ◌∷◌, ◌++◌, eq_iff,
}
use wire_assume.Model.Corpus.{ResponseRecord, Interaction}
use wire_assume.Proxy.{ResponseOverride}
use wire_assume.Replay.{
  ReplayEntry, Targets, load_entries, entry_order, load_index, find_first, request_target, is_match,
  find, respond, handle,
}

-- The entry matches, and no entry before it does.
pub record IsFirst {A : Type 0} (p : A → Bool) (xs : List A) (found : A) : Type 0 where
  pub before : List A
  pub after : List A
  pub split : xs ≡ before ++ found ∷ after
  pub matches : p found ≡ true
  pub misses : All (λ x. p x ≡ false) before

some-path : {A : Type 0} {a b : A} → some a ≡ some b → a ≡ b
some-path e = cc e

find_first-IsFirst :
    {A : Type 0} (p : A → Bool) (xs : List A) (found : A)
    → find_first p xs ≡ some found
    → IsFirst p xs found
unfolding find_first
find_first-IsFirst p [] found e = cc e
find_first-IsFirst p (x ∷ xs) found e = elim (Bool-cases (p x)) [
  | inl hit ↦
      let same : x ≡ found = some-path (rw (hit, find_first) at e) in
      record {
        before = [];
        after = xs;
        split = ap (λ y. y ∷ xs) same;
        matches = ap p (sym same) ∙ hit;
        misses = tt;
      }
  | inr miss ↦
      let later = find_first-IsFirst p xs found (rw (miss, find_first) at e) in
      record {
        before = x ∷ later.before;
        after = later.after;
        split = ap (λ ys. x ∷ ys) later.split;
        matches = later.matches;
        misses = (miss, later.misses);
      }
]

-- The answer is the override's where it is of the entry's interaction, and else the recorded response.
pub record IsAnswer (active : Option ResponseOverride) (entry : ReplayEntry)
    (answer : ResponseRecord × ℕ) : Type 0 where
  pub chosen :
      ((o : ResponseOverride) × (active ≡ some o)
        × (o.interaction_id ≡ entry.interaction_id)
        × (answer ≡ (o.response, o.delay_ms)))
      ⊎ (((o : ResponseOverride) → active ≡ some o → o.interaction_id ≢ entry.interaction_id)
          × (answer ≡ (entry.interaction.response, 0)))

respond-IsAnswer :
    (active : Option ResponseOverride) (entry : ReplayEntry)
    → IsAnswer active entry (respond active entry)
unfolding respond
respond-IsAnswer none entry = record { chosen = inr (λ o e. absurd (cc e), refl) }
respond-IsAnswer (some o) entry = elim (Bool-cases (str_eq o.interaction_id entry.interaction_id)) [
  | inl same ↦ record { chosen = inl (o, refl, (eq_iff _ _).0 same, rw (same, respond) refl) }
  | inr other ↦ record {
    chosen = inr (
      λ k e.
          subst (λ (j : ResponseOverride). j.interaction_id ≢ entry.interaction_id) (some-path e)
            (str_ne o.interaction_id entry.interaction_id other),
      rw (other, respond) refl,
    );
  }
]

module _ {U : Type 0} (targets : Targets U) where
  -- A request is answered from the first entry of its method and target: with the active override where it
  -- is of this entry's interaction, and with the recorded response otherwise.
  pub handle-IsAnswer :
      (entries : List ReplayEntry) (active : Option ResponseOverride) (method uri : String)
      (answer : ResponseRecord × ℕ)
      → handle targets entries active method uri ≡ some answer
      → (target : String) × (entry : ReplayEntry) × (request_target targets uri ≡ some target)
        × IsFirst (is_match targets method target) entries entry
        × IsAnswer active entry answer
  unfolding handle find
  handle-IsAnswer entries active method uri answer e =
      elim (Option-cases (request_target targets uri)) [
        | inl nowhere ↦ cc (rw (nowhere, handle, find) at e)
        | inr (target, aimed) ↦
            elim (Option-cases (find_first (is_match targets method target) entries)) [
              | inl missing ↦ cc (rw (aimed, missing, handle, find) at e)
              | inr (entry, there) ↦
                  let same = some-path (rw (aimed, there, handle, find) at e) in
                  (
                    target,
                    entry,
                    aimed,
                    find_first-IsFirst _ entries entry there,
                    subst (IsAnswer active entry) same (respond-IsAnswer active entry),
                  )
            ]
      ]

ok-path : {X A : Type 0} {a b : A} → ◌≡◌ {A = Result X A} (ok a) (ok b) → a ≡ b
ok-path e = cc e

-- The entries of an index are in the order of their ids.
pub load_index-IsSorted :
    {E : Type 0} (ids : Result E (List String)) (load : String → Result E Interaction)
    (entries : List ReplayEntry)
    → load_index ids load ≡ ok entries
    → IsSorted entry_order entries
unfolding load_index
load_index-IsSorted ids load entries e =
    let (names, _, rest) = >>=-eq-ok ids _ e in
    let (found, _, last) = >>=-eq-ok (load_entries load names) _ rest in
    subst (IsSorted entry_order) (ok-path last) (
      sort_by-IsSorted entry_order
        (below-total entry_order (
          by_key-IsWeakOrder str_cmp str_cmp-IsTotalOrder
            (λ (entry : ReplayEntry). entry.interaction_id)))
        found)
