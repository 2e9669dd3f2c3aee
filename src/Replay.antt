-- ===== src/Replay.antt =====
-- crates/replay/src/lib.rs: the lookup of a recorded response; and how the handler of
-- crates/proxy/src/experiment_server.rs chooses between it and the active override. The URL parser is a
-- parameter, and so is what the corpus store returns.
pub mod Laws
mod Samples
use wire_assume.Prelude.{
  str_eq, if◌then◌else◌, option_eq, Result, ok, ◌>>=◌, str_cmp, sort_by, starts_with,
  eq_ignore_ascii_case, put_before, ℕ, Ordering, String, Bool, ◌&&◌, Option, none, some, List, [],
  ◌∷◌,
}
use wire_assume.Model.Corpus.{ResponseRecord, Interaction}
use wire_assume.Proxy.{ResponseOverride}

pub record ReplayEntry : Type 0 where
  pub interaction_id : String
  pub interaction : Interaction

-- `url::Url`
pub record Targets (U : Type 0) : Type 0 where
  pub parse : String → Option U
  pub path : U → String
  pub query : U → Option String

-- The loop over the ids.
unfoldable pub load_entries :
    {E : Type 0} → (String → Result E Interaction) → List String → Result E (List ReplayEntry)
load_entries load [] = ok []
load_entries load (id ∷ names) = do
  interaction ← load id
  entries ← load_entries load names
  ok (record { interaction_id = id; interaction = interaction } ∷ entries)

abbrev pub entry_order : ReplayEntry → ReplayEntry → Ordering
entry_order a b = str_cmp a.interaction_id b.interaction_id

-- `ReplayIndex::load`
unfoldable pub load_index :
    {E : Type 0}
    → Result E (List String)
    → (String → Result E Interaction)
    → Result E (List ReplayEntry)
unfolding load_entries
load_index ids load = do
  names ← ids
  entries ← load_entries load names
  ok (sort_by entry_order entries)

-- `iter().find(…)`
unfoldable pub find_first {ℓ} : {A : Type ℓ} → (A → Bool) → List A → Option A
find_first p [] = none
find_first p (x ∷ xs) = let rest = find_first p xs in if p x then some x else rest

module _ {U : Type 0} (targets : Targets U) where
  abbrev pub with_query : String → Option String → String
  with_query path none = path
  with_query path (some query) = put_before path (put_before "?" query)

  unfoldable pub request_target : String → Option String
  unfolding starts_with
  request_target uri = elim (targets.parse uri) [
    | some url ↦ some (with_query (targets.path url) (targets.query url))
    | none ↦ if starts_with uri "/" then some uri else none
  ]

  -- The closure of `find`.
  unfoldable pub is_match : String → String → ReplayEntry → Bool
  unfolding request_target
  is_match method target entry =
      eq_ignore_ascii_case entry.interaction.request.method method
      && option_eq str_eq (request_target entry.interaction.request.uri) (some target)

  unfoldable pub find : List ReplayEntry → String → String → Option ReplayEntry
  unfolding is_match find_first
  find entries method uri = elim (request_target uri) [
    | none ↦ none
    | some target ↦ find_first (is_match method target) entries
  ]

-- The `match active` of the handler: the response and its delay.
unfoldable pub respond : Option ResponseOverride → ReplayEntry → ResponseRecord × ℕ
respond none entry = (entry.interaction.response, 0)
respond (some active) entry =
    if str_eq active.interaction_id entry.interaction_id
    then (active.response, active.delay_ms)
    else (entry.interaction.response, 0)

-- The answer of the handler; `none` is `NOT_FOUND`.
unfoldable pub handle :
    {U : Type 0}
    → Targets U
    → List ReplayEntry
    → Option ResponseOverride
    → String
    → String
    → Option (ResponseRecord × ℕ)
unfolding find respond
handle targets entries active method uri = elim (find targets entries method uri) [
  | none ↦ none
  | some entry ↦ some (respond active entry)
]
