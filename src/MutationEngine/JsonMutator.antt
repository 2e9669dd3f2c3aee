-- ===== src/MutationEngine/JsonMutator.antt =====
-- crates/mutation-engine/src/json.rs: the mutations of the values of a JSON document.
pub mod Laws
pub mod Covers
use wire_assume.Prelude.{
  if◌then◌else◌, filter, concat_lists, str_cmp, sort_by, contains, is_empty, to_decimal, put_before,
  ℕ, zero, suc, ◌+◌, String, Bool, true, false, not, Option, none, some, List, [], ◌∷◌, ◌++◌,
}
use wire_assume.Model.Json.{
  Value, null, bool, number, string, array, object, Items, nil, cons, Fields, end, field,
}
use wire_assume.Model.Objects.{with_key, value_eq}
use wire_assume.MutationEngine.Kind.{MutationKind}
use wire_assume.MutationEngine.Kind
use wire_assume.MutationEngine.Mutation.{
  Mutation, Fingerprints, Pointers, new_mutation, escape_pointer_segment, mutate_at_pointer,
  remove_at_pointer,
}

unfoldable pub supported_kinds : List MutationKind
supported_kinds =
    MutationKind.remove_field ∷ MutationKind.null_field ∷ MutationKind.empty_string
    ∷ MutationKind.whitespace_string ∷ MutationKind.wrong_primitive_type ∷ MutationKind.empty_array
    ∷ MutationKind.empty_object ∷ MutationKind.unknown_enum ∷ MutationKind.numeric_zero
    ∷ MutationKind.negative_number ∷ MutationKind.very_large_number
    ∷ MutationKind.float_instead_of_integer ∷ MutationKind.unicode_string ∷ MutationKind.long_string
    ∷ MutationKind.additional_unknown_property ∷ []

-- `str::repeat`
repeat : ℕ → String → String
repeat zero text = ""
repeat (suc n) text = put_before text (repeat n text)

abbrev pub integer : String → Value
integer text = number (record { text = text; is_integer = true })

abbrev pub is_null : Value → Bool
is_null null = true
is_null _ = false

pub record ScalarMutationSpec : Type 0 where
  pub kind : MutationKind
  pub replacement : Value
  pub description : String
  pub variant : String

abbrev pub new_spec : MutationKind → Value → String → String → ScalarMutationSpec
new_spec kind replacement description variant = record {
  kind = kind;
  replacement = replacement;
  description = description;
  variant = variant;
}

-- The replacements of one value, in the order of the calls of `scalar`.
unfoldable pub specs_of : Value → List ScalarMutationSpec
unfolding repeat
specs_of (string s) =
    new_spec MutationKind.empty_string (string "") "empty string" "empty"
    ∷ new_spec MutationKind.whitespace_string (string " \t\n") "whitespace string" "whitespace"
    ∷ new_spec MutationKind.wrong_primitive_type (integer "0") "replace string with number" "number"
    ∷ new_spec MutationKind.unknown_enum (string "__wireassume_unknown__")
        "unknown enum-like string" "unknown-enum"
    ∷ new_spec MutationKind.unicode_string (string "東京-🧪-é") "unicode string" "unicode"
    ∷ new_spec MutationKind.long_string (string (repeat 4096 "w")) "4096-byte-ish long string"
        "long-4096"
    ∷ []
specs_of (number n) =
    new_spec MutationKind.numeric_zero (integer "0") "numeric zero" "zero"
    ∷ new_spec MutationKind.negative_number (integer "-1") "negative number" "negative-one"
    ∷ new_spec MutationKind.very_large_number (integer "9007199254740991") "very large integer"
        "max-safe-integer"
    ∷ new_spec MutationKind.wrong_primitive_type (string n.text) "replace number with string"
        "string"
    ∷ (if n.is_integer
        then new_spec MutationKind.float_instead_of_integer
            (number (record { text = "1.5"; is_integer = false }))
            "floating point instead of integer" "float-1.5"
          ∷ []
        else [])
specs_of (bool b) =
    new_spec MutationKind.wrong_primitive_type (string (if b then "true" else "false"))
      "replace boolean with string" "string"
    ∷ []
specs_of (array nil) =
    new_spec MutationKind.wrong_primitive_type (object end) "replace array with object" "object"
    ∷ []
specs_of (array (cons x xs)) =
    new_spec MutationKind.empty_array (array nil) "empty array" "empty-array"
    ∷ new_spec MutationKind.wrong_primitive_type (object end) "replace array with object" "object"
    ∷ []
specs_of (object end) =
    new_spec MutationKind.wrong_primitive_type (array nil) "replace object with array" "array" ∷ []
specs_of (object (field k v fs)) =
    new_spec MutationKind.empty_object (object end) "empty object" "empty-object"
    ∷ new_spec MutationKind.wrong_primitive_type (array nil) "replace object with array" "array"
    ∷ []
specs_of null =
    new_spec MutationKind.wrong_primitive_type (string "not-null") "replace null with string"
      "string"
    ∷ []

-- `filter(|mutation| seen.insert(mutation.id.clone()))`; `seen` is a `HashSet`.
unfoldable pub first_of_each_id : {A : Type 0} → (A → String) → List String → List A → List A
first_of_each_id id_of seen [] = []
first_of_each_id id_of seen (m ∷ ms) =
    let skipped = first_of_each_id id_of seen ms in
    let kept = m ∷ first_of_each_id id_of (id_of m ∷ seen) ms in
    if contains seen (id_of m) then skipped else kept

-- `Mutation` has the id as a field.
abbrev pub id_of : Mutation → String
id_of m = m.id

unfoldable pub dedupe_noops : Value → List Mutation → List Mutation
unfolding first_of_each_id
dedupe_noops baseline mutations =
    first_of_each_id id_of [] (filter (λ m. not (value_eq m.mutated baseline)) mutations)

-- The lists of the keys in the order of the keys: `keys.sort()` and the loop over them.
abbrev pub in_key_order : {A : Type 0} → List (String × List A) → List A
in_key_order found = concat_lists (sort_by (λ a b. str_cmp a.0 b.0) found)

module _ {E : Type 0} (fingerprints : Fingerprints E) (pointer_mut : Pointers) (root : Value)
    (seed : ℕ) where
  -- `push`, where there is a mutated document.
  abbrev pub push : MutationKind → String → String → String → Option Value → List Mutation
  push kind pointer description variant none = []
  push kind pointer description variant (some mutated) =
      new_mutation fingerprints kind pointer description seed variant mutated ∷ []

  unfoldable pub replace : String → Value → Option Value
  replace pointer replacement = mutate_at_pointer pointer_mut root pointer (λ target. replacement)

  unfoldable pub scalar : String → ScalarMutationSpec → List Mutation
  unfolding replace
  scalar pointer s = push s.kind pointer s.description s.variant (replace pointer s.replacement)

  unfoldable pub scalars : String → List ScalarMutationSpec → List Mutation
  unfolding scalar
  scalars pointer [] = []
  scalars pointer (s ∷ specs) = scalar pointer s ++ scalars pointer specs

  -- What is done at any value but the root.
  unfoldable pub below_root : Value → String → List Mutation
  unfolding replace
  below_root current pointer =
      if is_empty pointer
      then []
      else push MutationKind.remove_field pointer "remove value" "remove"
          (remove_at_pointer pointer_mut root pointer)
        ++ (if is_null current
            then []
            else push MutationKind.null_field pointer "replace with null" "null"
                (replace pointer null))

  -- The closure that adds a property to an object.
  abbrev pub add_unknown : Value → Value
  add_unknown (object fs) = object (with_key "__wireassume_unknown__" (bool true) fs)
  add_unknown value = value

  unfoldable pub unknown_property : Value → String → List Mutation
  unknown_property (object fs) pointer =
      push MutationKind.additional_unknown_property pointer "add unknown property"
        "unknown-property" (mutate_at_pointer pointer_mut root pointer add_unknown)
  unknown_property _ pointer = []

  -- The mutations of one value, without its children.
  unfoldable pub at_value : Value → String → List Mutation
  unfolding scalars specs_of unknown_property
  at_value current pointer = scalars pointer (specs_of current) ++ unknown_property current pointer

  unfoldable mutual
    unfolding below_root at_value

    pub walk : Value → String → List Mutation
    walk (array items) pointer =
        below_root (array items) pointer
        ++ at_value (array items) pointer
        ++ walk_items items pointer 0
    walk (object fs) pointer =
        below_root (object fs) pointer
        ++ at_value (object fs) pointer
        ++ in_key_order (walk_fields fs pointer)
    walk current pointer = below_root current pointer ++ at_value current pointer

    pub walk_items : Items → String → ℕ → List Mutation
    walk_items nil pointer index = []
    walk_items (cons child items) pointer index =
        walk child (put_before pointer (put_before "/" (to_decimal index)))
        ++ walk_items items pointer (index + 1)

    pub walk_fields : Fields → String → List (String × List Mutation)
    walk_fields end pointer = []
    walk_fields (field key child fs) pointer =
        (key, walk child (put_before pointer (put_before "/" (escape_pointer_segment key))))
        ∷ walk_fields fs pointer

-- `JsonMutator::generate`
unfoldable pub generate : {E : Type 0} → Fingerprints E → Pointers → Value → ℕ → List Mutation
unfolding walk dedupe_noops
generate fingerprints pointer_mut baseline seed =
    dedupe_noops baseline (walk fingerprints pointer_mut baseline seed baseline "")
