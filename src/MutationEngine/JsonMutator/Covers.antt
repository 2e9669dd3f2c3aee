-- ===== src/MutationEngine/JsonMutator/Covers.antt =====
-- No field of a document is left out: crates/mutation-engine/src/json.rs.
use mathlib.Core.List.{Mem, mem-cons_self, mem-cons_of_mem}
use wire_assume.Prelude.{
  All, some, List, [], ◌∷◌, str_eq, Bool-cases, any, any-concat_lists, any-left, any-right, str_cmp,
  sort_by, any-sort_by, put_before, ℕ, suc, String, ◌≡◌, refl, ap, ◌∙◌, inl, inr, Bool, true, false,
  not, ◌&&◌, arith, eq_iff, eq_refl,
}
use wire_assume.Model.Json.{Value, null, bool, number, string, array, object, Fields, end, field}
use wire_assume.Model.Objects.{contains_key, get_key, without_key, value_eq, fields_eq}
use wire_assume.MutationEngine.Kind.{remove_field, kind_eq}
use wire_assume.MutationEngine.Mutation.{
  Mutation, Fingerprints, Pointers, escape_pointer_segment, remove_at_pointer,
}
use wire_assume.MutationEngine.Mutation.Laws.{remove_at_pointer-key}
use wire_assume.MutationEngine.Distinct.{lists_mutation, dedupe-lists}
use wire_assume.MutationEngine.JsonMutator.Laws.{Removes, generate-Removes}
use wire_assume.MutationEngine.JsonMutator.{in_key_order, below_root, walk, walk_fields, generate}

some-injective : {a b : Value} → some a ≡ some b → a ≡ b
some-injective e = cc e

size : Fields → ℕ
size end = 0
size (field k v fs) = suc (size fs)

last_of_three : (a b c : Bool) → (a && (b && c)) ≡ true → c ≡ true
last_of_three a b c h = ground arith

fields_eq-size : (fs gs : Fields) → fields_eq fs gs ≡ true → size fs ≡ size gs
unfolding fields_eq size
fields_eq-size end end h = refl
fields_eq-size end (field k w gs) h = cc
fields_eq-size (field j v fs) end h = cc
fields_eq-size (field j v fs) (field k w gs) h =
    ap suc (fields_eq-size fs gs (last_of_three (str_eq j k) (value_eq v w) (fields_eq fs gs) h))

fields_eq-shorter : (k : String) (v : Value) (fs : Fields) → fields_eq fs (field k v fs) ≡ false
fields_eq-shorter k v fs = elim (Bool-cases (fields_eq fs (field k v fs))) [
  | inl same ↦ absurd (unfold size in omega (arith, fields_eq-size fs (field k v fs) same))
  | inr other ↦ other
]

without_key-differs :
    (key : String) (fs : Fields)
    → contains_key key fs ≡ true
    → fields_eq (without_key key fs) fs ≡ false
unfolding without_key get_key fields_eq
without_key-differs key end h = cc
without_key-differs key (field k v fs) h = elim (Bool-cases (str_eq k key)) [
  | inl same ↦ rw same (fields_eq-shorter k v fs)
  | inr other ↦ rw other (ground (arith, without_key-differs key fs))
]

-- The pointer to a key of the root.
abbrev pub pointer_to : String → String
pointer_to key = put_before "/" (escape_pointer_segment key)

module _ {E : Type 0} (fingerprints : Fingerprints E) (pointer_mut : Pointers) (seed : ℕ)
    (all : Fields) (key : String) where
  -- The id of the mutation that removes the key.
  abbrev pub removal_id : String
  removal_id =
      fingerprints.mutation_id
        (record { kind = remove_field; path = pointer_to key; seed = seed; variant = "remove" })

  abbrev removes : Mutation → Bool
  removes m = str_eq m.id removal_id && not (value_eq m.mutated (object all))

  below_root-removes :
      (child : Value)
      → contains_key key all ≡ true
      → any removes (below_root fingerprints pointer_mut (object all) seed child (pointer_to key))
        ≡ true
  unfolding below_root value_eq
  below_root-removes child h =
      rw (remove_at_pointer-key pointer_mut all key h)
        (ground (arith, eq_refl removal_id, without_key-differs key all h))

  walk-removes :
      (current : Value) (pointer : String)
      → any removes (below_root fingerprints pointer_mut (object all) seed current pointer) ≡ true
      → any removes (walk fingerprints pointer_mut (object all) seed current pointer) ≡ true
  unfolding walk
  walk-removes (array items) pointer h = any-left removes _ _ (any-left removes _ _ h)
  walk-removes (object fs) pointer h = any-left removes _ _ (any-left removes _ _ h)
  walk-removes null pointer h = any-left removes _ _ h
  walk-removes (bool b) pointer h = any-left removes _ _ h
  walk-removes (number n) pointer h = any-left removes _ _ h
  walk-removes (string s) pointer h = any-left removes _ _ h

  walk_fields-removes :
      (fs : Fields)
      → contains_key key all ≡ true
      → contains_key key fs ≡ true
      → any
          (λ (e : String × List Mutation). any removes e.1)
          (walk_fields fingerprints pointer_mut (object all) seed fs "")
        ≡ true
  unfolding walk_fields get_key
  walk_fields-removes end there h = cc
  walk_fields-removes (field k child fs) there h = elim (Bool-cases (str_eq k key)) [
    | inl same ↦
        rw ((eq_iff k key).0 same)
          (rw (walk-removes child (pointer_to key) (below_root-removes child there)) refl)
    | inr other ↦ ground (arith, walk_fields-removes fs there)
  ]

  walk-covers :
      contains_key key all ≡ true
      → any removes (walk fingerprints pointer_mut (object all) seed (object all) "") ≡ true
  unfolding walk
  walk-covers h =
      let found = walk_fields fingerprints pointer_mut (object all) seed all "" in
      any-right removes _ (in_key_order found) (
        any-concat_lists removes (sort_by (λ a b. str_cmp a.0 b.0) found)
        ∙ any-sort_by (λ a b. str_cmp a.0 b.0) (λ (e : String × List Mutation). any removes e.1)
            found
        ∙ walk_fields-removes all h h)

  generate-lists :
      contains_key key all ≡ true
      → lists_mutation removal_id (generate fingerprints pointer_mut (object all) seed) ≡ true
  unfolding generate
  generate-lists h = dedupe-lists (object all) removal_id _ (walk-covers h)

  -- The mutation has the id of the removal, but removes something else.
  abbrev pub clashes : Mutation → Bool
  clashes m =
      str_eq m.id removal_id && not (kind_eq m.kind remove_field && str_eq m.path (pointer_to key))

  -- The document without the key, by the id of its removal.
  abbrev pub IsRemoval : Mutation → Type 0
  IsRemoval m = (m.id ≡ removal_id) × (m.mutated ≡ object (without_key key all))

  clashes-IsRemoval :
      (m : Mutation)
      → contains_key key all ≡ true
      → str_eq m.id removal_id ≡ true
      → clashes m ≡ false
      → Removes pointer_mut (object all) m
      → IsRemoval m
  clashes-IsRemoval m h named apart removes =
      let at_key : str_eq m.path (pointer_to key) ≡ true = ground arith in
      (
        (eq_iff m.id removal_id).0 named,
        some-injective (
            removes (ground arith)
            ∙ ap (remove_at_pointer pointer_mut (object all))
                ((eq_iff m.path (pointer_to key)).0 at_key)
            ∙ remove_at_pointer-key pointer_mut all key h),
      )

  lists_mutation-IsRemoval :
      (ms : List Mutation)
      → contains_key key all ≡ true
      → lists_mutation removal_id ms ≡ true
      → any clashes ms ≡ false
      → All (Removes pointer_mut (object all)) ms
      → (m : Mutation) × Mem m ms × IsRemoval m
  lists_mutation-IsRemoval [] h listed apart removes = cc listed
  lists_mutation-IsRemoval (m ∷ ms) h listed apart removes =
      let first : clashes m ≡ false = ground arith in
      elim (Bool-cases (str_eq m.id removal_id)) [
        | inl named ↦ (m, mem-cons_self, clashes-IsRemoval m h named first removes.0)
        | inr other ↦
            let (k, place, removal) =
              lists_mutation-IsRemoval ms h (ground arith) (ground arith) removes.1 in
            (k, mem-cons_of_mem m place, removal)
      ]

  -- For each key of an object at the root, a mutation to the document without the key is generated, by the
  -- id of its removal, where no mutation of another kind or path that is generated has this id.
  pub generate-covers :
      contains_key key all ≡ true
      → any clashes (generate fingerprints pointer_mut (object all) seed) ≡ false
      → (m : Mutation) × Mem m (generate fingerprints pointer_mut (object all) seed) × IsRemoval m
  generate-covers h apart =
      lists_mutation-IsRemoval (generate fingerprints pointer_mut (object all) seed) h
        (generate-lists h) apart (generate-Removes fingerprints pointer_mut (object all) seed)
