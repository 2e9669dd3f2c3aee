-- ===== src/MutationEngine/Mutation.antt =====
-- crates/mutation-engine/src/mutation.rs: mutations, their identifiers, and the changes at a JSON pointer.
pub mod Laws
use wire_assume.Prelude.{
  if◌then◌else◌, Result, ok, is_empty, parse_usize, replace_char, replace_two, rsplit_once, ℕ, zero,
  suc, String, ◌≡◌, Option, none, some, List, [], ◌∷◌,
}
use wire_assume.Model.Json.{Value, array, object}
use wire_assume.Model.Objects.{to_list, of_list, contains_key, without_key}
use wire_assume.Model.Canonical.{Serde, stable_id}
use wire_assume.MutationEngine.Kind.{MutationKind}

pub record Mutation : Type 0 where
  pub id : String
  pub kind : MutationKind
  pub path : String
  pub description : String
  pub seed : ℕ
  pub mutated : Value

pub record MutationFingerprint : Type 0 where
  pub kind : MutationKind
  pub path : String
  pub seed : ℕ
  pub variant : String

-- `Value::pointer_mut` of serde_json, a reference that can be written through: the value that the pointer
-- points at, and the whole with another value in its place.
abbrev pub Pointers : Type 0
Pointers = Value → String → Option (Value × (Value → Value))

-- The identifier of a fingerprint. `Mutation::new` expects that serde writes these two texts, a number and
-- a kind without an error, and so does the law.
pub record Fingerprints (E : Type 0) : Type 0 where
  pub serde : Serde E
  pub to_value : MutationFingerprint → Result E Value
  pub mutation_id : MutationFingerprint → String
  pub id_is : (f : MutationFingerprint) → stable_id serde to_value "mut" f ≡ ok (mutation_id f)

module _ {E : Type 0} (fingerprints : Fingerprints E) where
  -- `Mutation::new`
  abbrev pub new_mutation : MutationKind → String → String → ℕ → String → Value → Mutation
  new_mutation kind path description seed variant mutated = record {
    id =
        fingerprints.mutation_id
          (record { kind = kind; path = path; seed = seed; variant = variant });
    kind = kind;
    path = path;
    description = description;
    seed = seed;
    mutated = mutated;
  }

unfoldable pub escape_pointer_segment : String → String
escape_pointer_segment segment = replace_char 47 "~1" (replace_char 126 "~0" segment)

-- `key.replace("~1", "/").replace("~0", "~")`
unfoldable pub unescape_key : String → String
unescape_key key = replace_two 126 48 "~" (replace_two 126 49 "/" key)

-- `Vec::remove` at an index, where it is in range.
unfoldable pub remove_index : ℕ → List Value → Option (List Value)
remove_index i [] = none
remove_index zero (x ∷ xs) = some xs
remove_index (suc i) (x ∷ xs) = elim (remove_index i xs) [ none ↦ none | some ys ↦ some (x ∷ ys) ]

abbrev pub removed_index : Option ℕ → List Value → Option Value
removed_index none items = none
removed_index (some index) items = elim (remove_index index items) [
  | none ↦ none
  | some rest ↦ some (array (of_list rest))
]

-- The `match parent`: the parent without the child.
unfoldable pub remove_child : Value → String → Option Value
remove_child (object fs) key =
    if contains_key key fs then some (object (without_key key fs)) else none
remove_child (array items) key = removed_index (parse_usize key) (to_list items)
remove_child _ key = none

module _ (pointer_mut : Pointers) where
  unfoldable pub mutate_at_pointer : Value → String → (Value → Value) → Option Value
  mutate_at_pointer baseline pointer f =
      if is_empty pointer then some (f baseline) else elim (pointer_mut baseline pointer) [
        | none ↦ none
        | some (target, put) ↦ some (put (f target))
      ]

  unfoldable pub remove_below : Value → String → String → Option Value
  unfolding remove_child
  remove_below baseline parent_pointer key =
      if is_empty parent_pointer
      then remove_child baseline key
      else elim (pointer_mut baseline parent_pointer) [
        | none ↦ none
        | some (parent, put) ↦ elim (remove_child parent key) [
          | none ↦ none
          | some rest ↦ some (put rest)
        ]
      ]

  unfoldable pub remove_at_pointer : Value → String → Option Value
  unfolding remove_below unescape_key
  remove_at_pointer baseline pointer = elim (rsplit_once 47 pointer) [
    | none ↦ none
    | some (parent_pointer, key) ↦ remove_below baseline parent_pointer (unescape_key key)
  ]
