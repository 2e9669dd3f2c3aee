-- ===== src/MutationEngine/ArrayMutator.antt =====
-- crates/mutation-engine/src/arrays.rs: the mutations of the arrays of a JSON document. The digest of sha2
-- and the shuffle of rand, seeded by ChaCha8Rng, are parameters.
pub mod Laws
use Prim.Native.Char.{code}
use wire_assume.Prelude.{
  ltb, if◌then◌else◌, length, take, drop, to_decimal, put_before, ℕ, zero, suc, ◌+◌, ◌-◌, ◌*◌, ◌/◌,
  ◌%◌, ◌^◌, max, String, none, some, List, [], ◌∷◌, ◌++◌,
}
use wire_assume.Model.Json.{Value, array, object, Items, nil, cons, Fields, end, field}
use wire_assume.Model.Objects.{to_list, of_list}
use wire_assume.MutationEngine.Kind.{MutationKind}
use wire_assume.MutationEngine.Kind
use wire_assume.MutationEngine.Mutation.{
  Mutation, Fingerprints, Pointers, new_mutation, escape_pointer_segment, mutate_at_pointer,
}
use wire_assume.MutationEngine.JsonMutator.{dedupe_noops, in_key_order}

unfoldable pub supported_kinds : List MutationKind
supported_kinds =
    MutationKind.reverse_array ∷ MutationKind.shuffle_array ∷ MutationKind.duplicate_array_item
    ∷ MutationKind.remove_first_array_item ∷ MutationKind.remove_last_array_item
    ∷ MutationKind.empty_array ∷ MutationKind.one_array_item ∷ MutationKind.repeated_array_items
    ∷ []

-- `u64::to_be_bytes`, from the last `n` bytes.
be_bytes : ℕ → ℕ → List ℕ
be_bytes zero n = []
be_bytes (suc count) n = (n / 256 ^ count) % 256 ∷ be_bytes count n

-- `u64::from_be_bytes`, after the bytes that make `n`.
of_be_bytes : ℕ → List ℕ → ℕ
of_be_bytes n [] = n
of_be_bytes n (b ∷ bs) = of_be_bytes (n * 256 + b) bs

-- A character of `str::as_bytes`, in UTF-8.
utf8_char : ℕ → List ℕ
utf8_char c =
    if ltb c 128
    then c ∷ []
    else if ltb c 2048
    then (192 + c / 64) ∷ (128 + c % 64) ∷ []
    else if ltb c 65536
    then (224 + c / 4096) ∷ (128 + (c / 64) % 64) ∷ (128 + c % 64) ∷ []
    else (240 + c / 262144) ∷ (128 + (c / 4096) % 64) ∷ (128 + (c / 64) % 64) ∷ (128 + c % 64) ∷ []

as_bytes : String → List ℕ
unfolding utf8_char
as_bytes String.[] = []
as_bytes (String.◌∷◌ c s) = utf8_char (code c) ++ as_bytes s

-- What the mutator calls of sha2 and rand: a digest, and `shuffle` by a generator with the seed.
pub record Randomness : Type 0 where
  pub sha256 : List ℕ → List ℕ
  pub shuffle : ℕ → List Value → List Value

unfoldable pub derive_seed : Randomness → ℕ → String → ℕ
unfolding be_bytes of_be_bytes as_bytes
derive_seed random seed pointer =
    of_be_bytes 0 (take 8 (random.sha256 (be_bytes 8 seed ++ as_bytes pointer)))

pub record ArrayMutationSpec : Type 0 where
  pub kind : MutationKind
  pub description : String
  pub variant : String

-- A call of `add`: the spec and the closure.
pub record ArrayChange : Type 0 where
  pub spec : ArrayMutationSpec
  pub transform : List Value → List Value

abbrev pub new_change : MutationKind → String → String → (List Value → List Value) → ArrayChange
new_change kind description variant transform = record {
  spec = record { kind = kind; description = description; variant = variant };
  transform = transform;
}

-- The closures. `items[0]` and `items[..len - 1]` are only reached on arrays that are not empty.
abbrev pub keep_one : List Value → List Value
keep_one [] = []
keep_one (x ∷ xs) = x ∷ []

abbrev pub duplicate_first : List Value → List Value
duplicate_first [] = []
duplicate_first (x ∷ xs) = x ∷ x ∷ xs

abbrev pub remove_first : List Value → List Value
remove_first items = drop 1 items

abbrev pub remove_last : List Value → List Value
remove_last items = take (length items - 1) items

-- `vec![x; n]`
unfoldable pub replicate : ℕ → Value → List Value
replicate zero x = []
replicate (suc n) x = x ∷ replicate n x

abbrev pub repeat_first : List Value → List Value
repeat_first [] = []
repeat_first (x ∷ xs) = replicate (max (length (x ∷ xs)) 2) x

-- `slice::reverse`
unfoldable pub reverse : List Value → List Value
reverse [] = []
reverse (x ∷ xs) = reverse xs ++ x ∷ []

-- `if !items.is_empty()`
unfoldable pub changes_of_any : List Value → List ArrayChange
unfolding replicate
changes_of_any [] = []
changes_of_any (x ∷ xs) =
    new_change MutationKind.empty_array "empty array" "empty" (λ items. [])
    ∷ new_change MutationKind.one_array_item "keep one array item" "one" keep_one
    ∷ new_change MutationKind.duplicate_array_item "duplicate first array item" "duplicate-first"
        duplicate_first
    ∷ new_change MutationKind.remove_first_array_item "remove first array item" "remove-first"
        remove_first
    ∷ new_change MutationKind.remove_last_array_item "remove last array item" "remove-last"
        remove_last
    ∷ new_change MutationKind.repeated_array_items "repeat first array item" "repeat-first"
        repeat_first
    ∷ []

-- The closure that `add` gives to `mutate_at_pointer`.
abbrev pub transform_array : (List Value → List Value) → Value → Value
transform_array transform (array items) = array (of_list (transform (to_list items)))
transform_array transform target = target

module _ {E : Type 0} (fingerprints : Fingerprints E) (pointer_mut : Pointers) (random : Randomness)
    (root : Value) (seed : ℕ) where
  -- `if items.len() > 1`
  unfoldable pub changes_of_more : String → List Value → List ArrayChange
  unfolding derive_seed reverse
  changes_of_more pointer (x ∷ y ∷ items) =
      new_change MutationKind.reverse_array "reverse array order" "reverse" reverse
      ∷ new_change MutationKind.shuffle_array "deterministically shuffle array"
          (put_before "shuffle-" (to_decimal (derive_seed random seed pointer)))
          (random.shuffle (derive_seed random seed pointer))
      ∷ []
  changes_of_more pointer items = []

  unfoldable pub add : String → ArrayChange → List Mutation
  add pointer c = elim (mutate_at_pointer pointer_mut root pointer (transform_array c.transform)) [
    | none ↦ []
    | some mutated ↦
        new_mutation fingerprints c.spec.kind pointer c.spec.description seed c.spec.variant mutated
        ∷ []
  ]

  unfoldable pub add_all : String → List ArrayChange → List Mutation
  unfolding add
  add_all pointer [] = []
  add_all pointer (c ∷ cs) = add pointer c ++ add_all pointer cs

  unfoldable mutual
    unfolding changes_of_any changes_of_more add_all

    pub walk : Value → String → List Mutation
    walk (array items) pointer =
        add_all pointer (changes_of_any (to_list items))
        ++ add_all pointer (changes_of_more pointer (to_list items))
        ++ walk_items items pointer 0
    walk (object fs) pointer = in_key_order (walk_fields fs pointer)
    walk current pointer = []

    pub walk_items : Items → String → ℕ → List Mutation
    walk_items nil pointer index = []
    walk_items (cons child items) pointer index =
        walk child (put_before pointer (put_before "/" (to_decimal index)))
        ++ walk_items items pointer (index + 1)

    pub walk_fields : Fields → String → List (String × List Mutation)
    walk_fields end pointer = []
    walk_fields (field key child fs) pointer =
        (key, walk child (put_before pointer (put_before "/" (escape_pointer_segment key))))
        ∷ walk_fields fs pointer

-- `ArrayMutator::generate`
unfoldable pub generate :
    {E : Type 0} → Fingerprints E → Pointers → Randomness → Value → ℕ → List Mutation
unfolding walk dedupe_noops
generate fingerprints pointer_mut random baseline seed =
    dedupe_noops baseline (walk fingerprints pointer_mut random baseline seed baseline "")
