-- ===== src/MutationEngine/ArrayMutator/Laws.antt =====
-- What the mutations of arrays are: crates/mutation-engine/src/arrays.rs.
use mathlib.Core.List.{Mem, Perm, mem-cons_self, mem-cons_of_mem}
use mathlib.Core.List.Perm
use wire_assume.Prelude.{
  All-Mem, Option-cases, length, All, All-mp, All-take, All-append, All-concat_lists, All-sort_by,
  to_decimal, put_before, ℕ, zero, suc, ◌+◌, ◌-◌, max, String, ◌≡◌, refl, ◌≢◌, inl, inr, true, some,
  List, [], ◌∷◌,
}
use wire_assume.Model.Json.{
  Value, null, bool, number, string, array, object, Items, nil, cons, Fields, end, field,
}
use wire_assume.Model.Objects.{to_list}
use wire_assume.MutationEngine.Kind.{MutationKind, has_kind}
use wire_assume.MutationEngine.Kind
use wire_assume.MutationEngine.Mutation.{
  Mutation, Fingerprints, Pointers, mutate_at_pointer, escape_pointer_segment,
}
use wire_assume.MutationEngine.Distinct.{HasDistinctIds, dedupe-HasDistinctIds, dedupe-All}
use wire_assume.MutationEngine.ArrayMutator.{
  reverse, replicate, remove_first, keep_one, duplicate_first, repeat_first, supported_kinds,
  Randomness, ArrayChange, changes_of_any, changes_of_more, transform_array, add, add_all, walk,
  walk_items, walk_fields, generate,
}

abbrev pub IsSupported : Mutation → Type 0
IsSupported m = has_kind supported_kinds m.kind ≡ true

-- The function makes a list of items of the list that it is given.
abbrev pub KeepsItems : (List Value → List Value) → Type 0
KeepsItems transform = (items : List Value) → All (λ y. Mem y items) (transform items)

-- The mutation puts another array at its path, made of items of the array that stands there.
pub record IsRearrangement (pointer_mut : Pointers) (baseline : Value) (m : Mutation) : Type 0 where
  pub transform : List Value → List Value
  pub keeps : KeepsItems transform
  pub made :
      mutate_at_pointer pointer_mut baseline m.path (transform_array transform) ≡ some m.mutated

itself : (items : List Value) → All (λ y. Mem y items) items
itself items = All-Mem items items (λ y listed. listed)

later :
    (x : Value) (items ys : List Value)
    → All (λ y. Mem y items) ys
    → All (λ y. Mem y (x ∷ items)) ys
later x items ys h =
    All-mp (λ y. Mem y items) (λ y. Mem y (x ∷ items)) ys (λ y listed. mem-cons_of_mem x listed) h

reverse-KeepsItems : KeepsItems reverse
unfolding reverse
reverse-KeepsItems [] = tt
reverse-KeepsItems (x ∷ xs) =
    All-append (λ y. Mem y (x ∷ xs)) (reverse xs) (x ∷ [])
      (later x xs (reverse xs) (reverse-KeepsItems xs)) (mem-cons_self, tt)

remove_first-KeepsItems : KeepsItems remove_first
remove_first-KeepsItems [] = tt
remove_first-KeepsItems (x ∷ xs) = later x xs xs (itself xs)

replicate-All : (n : ℕ) (x : Value) (xs : List Value) → All (λ y. Mem y (x ∷ xs)) (replicate n x)
unfolding replicate
replicate-All zero x xs = tt
replicate-All (suc n) x xs = (mem-cons_self, replicate-All n x xs)

keep_one-KeepsItems : KeepsItems keep_one
keep_one-KeepsItems [] = tt
keep_one-KeepsItems (x ∷ xs) = (mem-cons_self, tt)

duplicate_first-KeepsItems : KeepsItems duplicate_first
duplicate_first-KeepsItems [] = tt
duplicate_first-KeepsItems (x ∷ xs) = (mem-cons_self, itself (x ∷ xs))

repeat_first-KeepsItems : KeepsItems repeat_first
repeat_first-KeepsItems [] = tt
repeat_first-KeepsItems (x ∷ xs) = replicate-All (max (length (x ∷ xs)) 2) x xs

abbrev IsSoundChange : ArrayChange → Type 0
IsSoundChange c = (has_kind supported_kinds c.spec.kind ≡ true) × KeepsItems c.transform

changes_of_any-All : (items : List Value) → All IsSoundChange (changes_of_any items)
unfolding changes_of_any has_kind supported_kinds Kind.rank
changes_of_any-All [] = tt
changes_of_any-All (x ∷ xs) = (
  (refl, λ items. tt),
  (
    (refl, keep_one-KeepsItems),
    (
      (refl, duplicate_first-KeepsItems),
      (
        (refl, remove_first-KeepsItems),
        (
          (refl, λ items. All-take (λ y. Mem y items) (length items - 1) items (itself items)),
          ((refl, repeat_first-KeepsItems), tt),
        ),
      ),
    ),
  ),
)

module _ {E : Type 0} (fingerprints : Fingerprints E) (pointer_mut : Pointers) (random : Randomness)
    (shuffles : (seed : ℕ) (items : List Value) → Perm (random.shuffle seed items) items)
    (root : Value) (seed : ℕ) where
  changes_of_more-All :
      (pointer : String) (items : List Value)
      → All IsSoundChange (changes_of_more fingerprints pointer_mut random root seed pointer items)
  unfolding changes_of_more has_kind supported_kinds Kind.rank
  changes_of_more-All pointer [] = tt
  changes_of_more-All pointer (x ∷ []) = tt
  changes_of_more-All pointer (x ∷ y ∷ items) = (
    (refl, reverse-KeepsItems),
    ((refl, λ ys. All-Mem _ ys (λ y listed. (Perm.mem_iff (shuffles _ ys)).0 listed)), tt),
  )

  abbrev IsSound : Mutation → Type 0
  IsSound m = IsSupported m × IsRearrangement pointer_mut root m

  add-All :
      (pointer : String) (c : ArrayChange)
      → IsSoundChange c
      → All IsSound (add fingerprints pointer_mut random root seed pointer c)
  unfolding add
  add-All pointer c h =
      elim (Option-cases
        (mutate_at_pointer pointer_mut root pointer (transform_array c.transform))) [
          | inl nowhere ↦ rw (nowhere, add) tt
          | inr (mutated, made) ↦
              rw (made, add)
                ((h.0, record { transform = c.transform; keeps = h.1; made = made }), tt)
        ]

  add_all-All :
      (pointer : String) (cs : List ArrayChange)
      → All IsSoundChange cs
      → All IsSound (add_all fingerprints pointer_mut random root seed pointer cs)
  unfolding add_all
  add_all-All pointer [] h = tt
  add_all-All pointer (c ∷ cs) h =
      All-append IsSound _ _ (add-All pointer c h.0) (add_all-All pointer cs h.1)

  mutual
    unfolding walk

    walk-All :
        (current : Value) (pointer : String)
        → All IsSound (walk fingerprints pointer_mut random root seed current pointer)
    walk-All (array items) pointer =
        All-append IsSound _ _
          (All-append IsSound _ _ (add_all-All pointer _ (changes_of_any-All (to_list items)))
            (add_all-All pointer _ (changes_of_more-All pointer (to_list items))))
          (walk_items-All items pointer 0)
    walk-All (object fs) pointer =
        All-concat_lists IsSound _ (All-sort_by _ _ _ (walk_fields-All fs pointer))
    walk-All null pointer = tt
    walk-All (bool b) pointer = tt
    walk-All (number n) pointer = tt
    walk-All (string s) pointer = tt

    walk_items-All :
        (items : Items) (pointer : String) (index : ℕ)
        → All IsSound (walk_items fingerprints pointer_mut random root seed items pointer index)
    walk_items-All nil pointer index = tt
    walk_items-All (cons child items) pointer index =
        All-append IsSound _ _
          (walk-All child (put_before pointer (put_before "/" (to_decimal index))))
          (walk_items-All items pointer (index + 1))

    walk_fields-All :
        (fs : Fields) (pointer : String)
        → All
            (λ (e : String × List Mutation). All IsSound e.1)
            (walk_fields fingerprints pointer_mut random root seed fs pointer)
    walk_fields-All end pointer = tt
    walk_fields-All (field key child fs) pointer = (
      walk-All child (put_before pointer (put_before "/" (escape_pointer_segment key))),
      walk_fields-All fs pointer,
    )

-- Where `shuffle` permutes, every mutation that the array mutator generates is of a kind that it says it
-- supports, and puts at its path an array made of items of the array that stands there.
pub generate-IsRearrangement :
    {E : Type 0} (fingerprints : Fingerprints E) (pointer_mut : Pointers) (random : Randomness)
    (shuffles : (seed : ℕ) (items : List Value) → Perm (random.shuffle seed items) items)
    (baseline : Value) (seed : ℕ)
    → All
        (λ m. IsSupported m × IsRearrangement pointer_mut baseline m)
        (generate fingerprints pointer_mut random baseline seed)
unfolding generate
generate-IsRearrangement fingerprints pointer_mut random shuffles baseline seed =
    dedupe-All (λ m. IsSupported m × IsRearrangement pointer_mut baseline m) baseline _
      (walk-All fingerprints pointer_mut random shuffles baseline seed baseline "")

-- Every mutation that the array mutator generates changes the document, and no id stands twice.
pub array-HasDistinctIds :
    {E : Type 0} (fingerprints : Fingerprints E) (pointer_mut : Pointers) (random : Randomness)
    (baseline : Value) (seed : ℕ)
    → HasDistinctIds (generate fingerprints pointer_mut random baseline seed)
      × All (λ m. m.mutated ≢ baseline) (generate fingerprints pointer_mut random baseline seed)
unfolding generate
array-HasDistinctIds fingerprints pointer_mut random baseline seed =
    dedupe-HasDistinctIds baseline (walk fingerprints pointer_mut random baseline seed baseline "")
