-- ===== src/MutationEngine/JsonMutator/Laws.antt =====
-- The mutations of crates/mutation-engine/src/json.rs: their kinds, what removes, and that they change.
use wire_assume.Prelude.{
  Bool-cases, All, All-mp, not, ◌&&◌, arith, All-append, All-concat_lists, All-sort_by, is_empty,
  to_decimal, put_before, ℕ, ◌+◌, String, ◌≡◌, refl, ◌≢◌, inl, inr, true, Option, none, some, List,
  [], ◌∷◌, ◌++◌,
}
use wire_assume.Model.Json.{
  Value, null, bool, number, string, array, object, Items, nil, cons, Fields, end, field,
}
use wire_assume.MutationEngine.Kind.{MutationKind, has_kind, kind_eq}
use wire_assume.MutationEngine.Kind
use wire_assume.MutationEngine.Mutation.{
  Mutation, Fingerprints, Pointers, remove_at_pointer, mutate_at_pointer, escape_pointer_segment,
}
use wire_assume.MutationEngine.Distinct.{HasDistinctIds, dedupe-HasDistinctIds, dedupe-All}
use wire_assume.MutationEngine.JsonMutator.{
  supported_kinds, is_null, ScalarMutationSpec, specs_of, push, replace, scalar, scalars,
  unknown_property, below_root, add_unknown, at_value, walk, walk_items, walk_fields, generate,
}

abbrev pub IsSupported : Mutation → Type 0
IsSupported m = has_kind supported_kinds m.kind ≡ true

-- A kind that changes a value in its place.
abbrev ChangesValue : MutationKind → Type 0
ChangesValue kind = (has_kind supported_kinds kind && not (kind_eq kind Kind.remove_field)) ≡ true

-- Where it is a removal, the document is the one without what stands at the path.
abbrev pub Removes : Pointers → Value → Mutation → Type 0
Removes pointer_mut root m =
    kind_eq m.kind Kind.remove_field ≡ true
    → some m.mutated ≡ remove_at_pointer pointer_mut root m.path

specs_of-All :
    (current : Value) → All (λ (s : ScalarMutationSpec). ChangesValue s.kind) (specs_of current)
unfolding specs_of has_kind supported_kinds Kind.rank
specs_of-All (string s) = (refl, (refl, (refl, (refl, (refl, (refl, tt))))))
specs_of-All (number n) = elim (Bool-cases n.is_integer) [
  | inl integral ↦ rw integral (refl, (refl, (refl, (refl, (refl, tt)))))
  | inr other ↦ rw other (refl, (refl, (refl, (refl, tt))))
]
specs_of-All (bool b) = (refl, tt)
specs_of-All (array nil) = (refl, tt)
specs_of-All (array (cons x xs)) = (refl, (refl, tt))
specs_of-All (object end) = (refl, tt)
specs_of-All (object (field k v fs)) = (refl, (refl, tt))
specs_of-All null = (refl, tt)

module _ {E : Type 0} (fingerprints : Fingerprints E) (pointer_mut : Pointers) (root : Value)
    (seed : ℕ) where
  abbrev IsMade : Mutation → Type 0
  IsMade m = IsSupported m × Removes pointer_mut root m

  removed-All :
      (pointer description variant : String) (changed : Option Value)
      → changed ≡ remove_at_pointer pointer_mut root pointer
      → All IsMade (
          push fingerprints pointer_mut root seed Kind.remove_field pointer description variant
            changed)
  unfolding has_kind supported_kinds Kind.rank
  removed-All pointer description variant none h = tt
  removed-All pointer description variant (some v) h = ((refl, λ _. h), tt)

  push-All :
      (kind : MutationKind) (pointer description variant : String) (changed : Option Value)
      → ChangesValue kind
      → All IsMade
          (push fingerprints pointer_mut root seed kind pointer description variant changed)
  push-All kind pointer description variant none h = tt
  push-All kind pointer description variant (some v) h =
      ((ground arith, λ removes. absurd (ground arith)), tt)

  both : (xs ys : List Mutation) → All IsMade xs → All IsMade ys → All IsMade (xs ++ ys)
  both xs ys = All-append IsMade xs ys

  scalars-All :
      (pointer : String) (specs : List ScalarMutationSpec)
      → All (λ (s : ScalarMutationSpec). ChangesValue s.kind) specs
      → All IsMade (scalars fingerprints pointer_mut root seed pointer specs)
  unfolding scalars scalar
  scalars-All pointer [] h = tt
  scalars-All pointer (s ∷ specs) h =
      both _ _
        (push-All s.kind pointer s.description s.variant
          (replace fingerprints pointer_mut root seed pointer s.replacement) h.0)
        (scalars-All pointer specs h.1)

  below_root-All :
      (current : Value) (pointer : String)
      → All IsMade (below_root fingerprints pointer_mut root seed current pointer)
  unfolding below_root has_kind supported_kinds Kind.rank
  below_root-All current pointer =
      let removed =
        removed-All pointer "remove value" "remove" (remove_at_pointer pointer_mut root pointer)
          refl in
      elim (Bool-cases (is_empty pointer)) [
        | inl at_root ↦ rw at_root tt
        | inr below ↦ elim (Bool-cases (is_null current)) [
          | inl nothing ↦ rw (below, nothing) (both _ [] removed tt)
          | inr something ↦
              rw (below, something)
                (both _ _ removed (
                  push-All MutationKind.null_field pointer "replace with null" "null"
                    (replace fingerprints pointer_mut root seed pointer null) refl))
        ]
      ]

  unknown-All :
      (current : Value) (pointer : String)
      → All IsMade (unknown_property fingerprints pointer_mut root seed current pointer)
  unfolding unknown_property has_kind supported_kinds Kind.rank
  unknown-All (object fs) pointer =
      push-All MutationKind.additional_unknown_property pointer "add unknown property"
        "unknown-property"
        (mutate_at_pointer pointer_mut root pointer
          (add_unknown fingerprints pointer_mut root seed))
        refl
  unknown-All _ pointer = tt

  at_value-All :
      (current : Value) (pointer : String)
      → All IsMade (at_value fingerprints pointer_mut root seed current pointer)
  unfolding at_value
  at_value-All current pointer =
      both _ _ (scalars-All pointer (specs_of current) (specs_of-All current))
        (unknown-All current pointer)

  mutual
    unfolding walk

    walk-All :
        (current : Value) (pointer : String)
        → All IsMade (walk fingerprints pointer_mut root seed current pointer)
    walk-All (array items) pointer =
        both _ _
          (both _ _ (below_root-All (array items) pointer) (at_value-All (array items) pointer))
          (walk_items-All items pointer 0)
    walk-All (object fs) pointer =
        both _ _ (both _ _ (below_root-All (object fs) pointer) (at_value-All (object fs) pointer))
          (All-concat_lists IsMade _ (All-sort_by _ _ _ (walk_fields-All fs pointer)))
    walk-All null pointer = both _ _ (below_root-All null pointer) (at_value-All null pointer)
    walk-All (bool b) pointer =
        both _ _ (below_root-All (bool b) pointer) (at_value-All (bool b) pointer)
    walk-All (number n) pointer =
        both _ _ (below_root-All (number n) pointer) (at_value-All (number n) pointer)
    walk-All (string s) pointer =
        both _ _ (below_root-All (string s) pointer) (at_value-All (string s) pointer)

    walk_items-All :
        (items : Items) (pointer : String) (index : ℕ)
        → All IsMade (walk_items fingerprints pointer_mut root seed items pointer index)
    walk_items-All nil pointer index = tt
    walk_items-All (cons child items) pointer index =
        both _ _ (walk-All child (put_before pointer (put_before "/" (to_decimal index))))
          (walk_items-All items pointer (index + 1))

    walk_fields-All :
        (fs : Fields) (pointer : String)
        → All
            (λ (e : String × List Mutation). All IsMade e.1)
            (walk_fields fingerprints pointer_mut root seed fs pointer)
    walk_fields-All end pointer = tt
    walk_fields-All (field key child fs) pointer = (
      walk-All child (put_before pointer (put_before "/" (escape_pointer_segment key))),
      walk_fields-All fs pointer,
    )

-- Every mutation that the JSON mutator generates is of a kind that it says it supports.
pub generate-IsSupported :
    {E : Type 0} (fingerprints : Fingerprints E) (pointer_mut : Pointers) (baseline : Value)
    (seed : ℕ)
    → All IsSupported (generate fingerprints pointer_mut baseline seed)
unfolding generate
generate-IsSupported fingerprints pointer_mut baseline seed = dedupe-All IsSupported baseline _ (
    All-mp (IsMade fingerprints pointer_mut baseline seed) IsSupported _ (λ m made. made.0)
      (walk-All fingerprints pointer_mut baseline seed baseline ""))

pub generate-Removes :
    {E : Type 0} (fingerprints : Fingerprints E) (pointer_mut : Pointers) (baseline : Value)
    (seed : ℕ)
    → All (Removes pointer_mut baseline) (generate fingerprints pointer_mut baseline seed)
unfolding generate
generate-Removes fingerprints pointer_mut baseline seed =
    dedupe-All (Removes pointer_mut baseline) baseline _ (
      All-mp (IsMade fingerprints pointer_mut baseline seed) (Removes pointer_mut baseline) _
        (λ m made. made.1) (walk-All fingerprints pointer_mut baseline seed baseline ""))

-- Every mutation that the JSON mutator generates changes the document, and no id stands twice.
pub generate-HasDistinctIds :
    {E : Type 0} (fingerprints : Fingerprints E) (pointer_mut : Pointers) (baseline : Value)
    (seed : ℕ)
    → HasDistinctIds (generate fingerprints pointer_mut baseline seed)
      × All (λ m. m.mutated ≢ baseline) (generate fingerprints pointer_mut baseline seed)
unfolding generate
generate-HasDistinctIds fingerprints pointer_mut baseline seed =
    dedupe-HasDistinctIds baseline (walk fingerprints pointer_mut baseline seed baseline "")
