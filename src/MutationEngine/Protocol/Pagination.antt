-- ===== src/MutationEngine/Protocol/Pagination.antt =====
-- The pagination fields of crates/mutation-engine/src/protocol.rs and the two changes at a pointer.
use Prim.Native.Char.{code}
use wire_assume.Prelude.{
  ◌==◌, if◌then◌else◌, contains, to_ascii_lowercase, to_decimal, put_before, ℕ, ◌+◌, String, ◌||◌,
  Option, none, some, List, [], ◌∷◌, ◌++◌,
}
use wire_assume.Model.Json.{Value, array, object, Items, nil, cons, Fields, end, field}
use wire_assume.MutationEngine.Mutation.{Pointers, escape_pointer_segment, remove_at_pointer}
use wire_assume.MutationEngine.JsonMutator.{in_key_order}

pub data PaginationField : Type 0 where
  cursor metadata : PaginationField

-- `chars().filter(|ch| *ch != '-' && *ch != '_').collect()`
unfoldable pub without_separators : String → String
without_separators String.[] = String.[]
without_separators (String.◌∷◌ c s) =
    let rest = without_separators s in
    if (code c == 45) || (code c == 95) then rest else String.◌∷◌ c rest

-- The two `matches!` on the normalized name.
unfoldable pub pagination_field : String → Option PaginationField
pagination_field name =
    if contains ("cursor" ∷ "nextcursor" ∷ "nextpagecursor" ∷ "nexttoken" ∷ "pagetoken" ∷ []) name
    then some cursor
    else if contains ("pagination" ∷ "pagemeta" ∷ "pagemetadata" ∷ []) name
    then some metadata
    else none

-- What is pushed for the key itself.
abbrev pub found_at : String → Option PaginationField → List (String × PaginationField)
found_at pointer none = []
found_at pointer (some kind) = (pointer, kind) ∷ []

unfoldable mutual
  unfolding pagination_field without_separators

  pub find_pagination_fields : Value → String → List (String × PaginationField)
  find_pagination_fields (object fs) pointer = in_key_order (find_in_fields fs pointer)
  find_pagination_fields (array items) pointer = find_in_items items pointer 0
  find_pagination_fields _ pointer = []

  pub find_in_fields : Fields → String → List (String × List (String × PaginationField))
  find_in_fields end pointer = []
  find_in_fields (field key child fs) pointer =
      let child_pointer = put_before pointer (put_before "/" (escape_pointer_segment key)) in
      (
        key,
        found_at child_pointer (pagination_field (without_separators (to_ascii_lowercase key)))
            ++ find_pagination_fields child child_pointer,
      )
      ∷ find_in_fields fs pointer

  pub find_in_items : Items → String → ℕ → List (String × PaginationField)
  find_in_items nil pointer index = []
  find_in_items (cons item items) pointer index =
      find_pagination_fields item (put_before pointer (put_before "/" (to_decimal index)))
      ++ find_in_items items pointer (index + 1)

-- The same statements as those of `remove_at_pointer`.
unfoldable pub remove_json_pointer : Pointers → Value → String → Option Value
unfolding remove_at_pointer
remove_json_pointer = remove_at_pointer

unfoldable pub replace_json_pointer : Pointers → Value → String → Value → Option Value
replace_json_pointer pointer_mut value pointer replacement = elim (pointer_mut value pointer) [
  | none ↦ none
  | some (target, put) ↦ some (put replacement)
]
