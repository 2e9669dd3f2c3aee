-- ===== src/MutationEngine/Distinct.antt =====
-- The filters at the end of `generate` in crates/mutation-engine/src/json.rs and arrays.rs.
use wire_assume.Prelude.{
  str_eq, Bool-cases, filter, All, All-mp, any, All-filter, All-always, contains, String, ◌≡◌, refl,
  ap, ◌∙◌, ◌≢◌, inl, inr, Bool, true, false, not, ◌&&◌, List, [], ◌∷◌, arith, eq_iff,
}
use wire_assume.Model.Json.{Value}
use wire_assume.Model.Objects.{value_eq, value_eq_refl}
use wire_assume.MutationEngine.Mutation.{Mutation}
use wire_assume.MutationEngine.JsonMutator.{first_of_each_id, id_of, dedupe_noops}

contains-older :
    (i : String) (seen : List String) (k : String)
    → contains (i ∷ seen) k ≡ false
    → (contains seen k ≡ false) × (str_eq i k ≡ false)
unfolding contains
contains-older i seen k h = ground arith

module _ {A : Type 0} (id_of : A → String) where
  -- No id stands twice.
  abbrev pub AreDistinct : List A → Type 0
  AreDistinct [] = Unit
  AreDistinct (m ∷ ms) = All (λ k. str_eq (id_of m) (id_of k) ≡ false) ms × AreDistinct ms

  abbrev pub lists_id : String → List A → Bool
  lists_id id ms = any (λ m. str_eq (id_of m) id) ms

  pub first-All :
      (P : A → Type 0) (seen : List String) (ms : List A)
      → All P ms
      → All P (first_of_each_id id_of seen ms)
  unfolding first_of_each_id
  first-All P seen [] h = tt
  first-All P seen (m ∷ ms) h = elim (Bool-cases (contains seen (id_of m))) [
    | inl old ↦ rw old (first-All P seen ms h.1)
    | inr new ↦ rw new (h.0, first-All P (id_of m ∷ seen) ms h.1)
  ]

  abbrev IsUnseen : List String → A → Type 0
  IsUnseen seen m = contains seen (id_of m) ≡ false

  first-IsUnseen :
      (seen : List String) (ms : List A) → All (IsUnseen seen) (first_of_each_id id_of seen ms)
  unfolding first_of_each_id
  first-IsUnseen seen [] = tt
  first-IsUnseen seen (m ∷ ms) = elim (Bool-cases (contains seen (id_of m))) [
    | inl old ↦ rw old (first-IsUnseen seen ms)
    | inr new ↦ rw new (
      new,
      All-mp (IsUnseen (id_of m ∷ seen)) (IsUnseen seen) _
          (λ k h. (contains-older (id_of m) seen (id_of k) h).0)
          (first-IsUnseen (id_of m ∷ seen) ms),
    )
  ]

  pub first-AreDistinct :
      (seen : List String) (ms : List A) → AreDistinct (first_of_each_id id_of seen ms)
  unfolding first_of_each_id
  first-AreDistinct seen [] = tt
  first-AreDistinct seen (m ∷ ms) = elim (Bool-cases (contains seen (id_of m))) [
    | inl old ↦ rw old (first-AreDistinct seen ms)
    | inr new ↦ rw new (
      All-mp (IsUnseen (id_of m ∷ seen)) (λ k. str_eq (id_of m) (id_of k) ≡ false) _
          (λ k h. (contains-older (id_of m) seen (id_of k) h).1)
          (first-IsUnseen (id_of m ∷ seen) ms),
      first-AreDistinct (id_of m ∷ seen) ms,
    )
  ]

  pub first-lists :
      (id : String) (seen : List String) (ms : List A)
      → contains seen id ≡ false
      → lists_id id (first_of_each_id id_of seen ms) ≡ lists_id id ms
  unfolding first_of_each_id contains
  first-lists id seen [] h = refl
  first-lists id seen (m ∷ ms) h = elim (Bool-cases (str_eq (id_of m) id)) [
    | inl same ↦
        let unseen : contains seen (id_of m) ≡ false =
          ap (contains seen) ((eq_iff (id_of m) id).0 same) ∙ h in
        rw (unseen, same) refl
    | inr other ↦ ground (arith, first-lists id seen ms, first-lists id (id_of m ∷ seen) ms)
  ]

-- No two mutations have the same id.
abbrev pub HasDistinctIds : List Mutation → Type 0
HasDistinctIds ms = AreDistinct id_of ms

abbrev pub lists_mutation : String → List Mutation → Bool
lists_mutation id ms = lists_id id_of id ms

ne-baseline :
    (baseline : Value) (m : Mutation)
    → not (value_eq m.mutated baseline) ≡ true
    → m.mutated ≢ baseline
ne-baseline baseline m h same = cc (h, ap (λ v. value_eq v baseline) same, value_eq_refl baseline)

-- What is left differs from the baseline, and each id stands once.
pub dedupe-HasDistinctIds :
    (baseline : Value) (ms : List Mutation)
    → HasDistinctIds (dedupe_noops baseline ms)
      × All (λ m. m.mutated ≢ baseline) (dedupe_noops baseline ms)
unfolding dedupe_noops
dedupe-HasDistinctIds baseline ms = (
  first-AreDistinct id_of [] _,
  first-All id_of (λ m. m.mutated ≢ baseline) [] _
      (All-mp (λ (m : Mutation). Unit {0} × (not (value_eq m.mutated baseline) ≡ true))
        (λ m. m.mutated ≢ baseline) _ (λ m h. ne-baseline baseline m h.1)
        (All-filter (λ _. Unit {0}) (λ m. not (value_eq m.mutated baseline)) ms
          (All-always (λ _. Unit {0}) ms (λ m. tt)))),
)

pub dedupe-All :
    (P : Mutation → Type 0) (baseline : Value) (ms : List Mutation)
    → All P ms
    → All P (dedupe_noops baseline ms)
unfolding dedupe_noops
dedupe-All P baseline ms h = first-All id_of P [] _ (
    All-mp (λ m. P m × (not (value_eq m.mutated baseline) ≡ true)) P _ (λ m k. k.0)
      (All-filter P (λ m. not (value_eq m.mutated baseline)) ms h))

filter-lists :
    (baseline : Value) (id : String) (ms : List Mutation)
    → any (λ (m : Mutation). str_eq m.id id && not (value_eq m.mutated baseline)) ms ≡ true
    → lists_mutation id (filter (λ m. not (value_eq m.mutated baseline)) ms) ≡ true
filter-lists baseline id [] h = h
filter-lists baseline id (m ∷ ms) h = elim (Bool-cases (value_eq m.mutated baseline)) [
  | inl same ↦ rw same (filter-lists baseline id ms (ground arith))
  | inr other ↦ rw other (ground (arith, filter-lists baseline id ms))
]

-- The id of a mutation that changes something is not lost.
pub dedupe-lists :
    (baseline : Value) (id : String) (ms : List Mutation)
    → any (λ (m : Mutation). str_eq m.id id && not (value_eq m.mutated baseline)) ms ≡ true
    → lists_mutation id (dedupe_noops baseline ms) ≡ true
unfolding dedupe_noops
dedupe-lists baseline id ms h =
    first-lists id_of id [] _ (unfold contains in refl) ∙ filter-lists baseline id ms h
