-- ===== src/ContractEngine/Notes.antt =====
-- What the `match` of `update_requirement` changes, crates/contract-engine/src/lib.rs.
use wire_assume.Prelude.{
  str_ne, String, ◌≡◌, refl, ap, ◌⊎◌, inl, inr, Bool, true, false, Option, none, some,
}
use wire_assume.MutationEngine.Kind.{
  MutationKind, remove_field, null_field, empty_string, wrong_primitive_type,
}
use wire_assume.ContractEngine.Build.{RequirementBuilder, note_kind}

abbrev text_of : Option String → String
text_of none = ""
text_of (some s) = s

-- What `note_kind` changes, field by field.
pub note_kind-presence :
    (kind : MutationKind) (fails : Bool) (found : Option String) (b : RequirementBuilder)
    → (note_kind kind fails found b).presence ≡ some "required"
    → (kind ≡ remove_field) × (fails ≡ true) ⊎ (b.presence ≡ some "required")
unfolding note_kind
note_kind-presence remove_field true found b e = inl (refl, refl)
note_kind-presence remove_field false found b e =
    absurd (str_ne "optional" "required" refl (ap text_of e))
note_kind-presence wrong_primitive_type true none b e = inr e
note_kind-presence wrong_primitive_type true (some t) b e = inr e
note_kind-presence _ fails found b e = inr e

pub note_kind-nullable :
    (kind : MutationKind) (fails : Bool) (found : Option String) (b : RequirementBuilder)
    → (note_kind kind fails found b).nullable ≡ some false
    → (kind ≡ null_field) × (fails ≡ true) ⊎ (b.nullable ≡ some false)
unfolding note_kind
note_kind-nullable null_field true found b e = inl (refl, refl)
note_kind-nullable null_field false found b e = cc
note_kind-nullable wrong_primitive_type true none b e = inr e
note_kind-nullable wrong_primitive_type true (some t) b e = inr e
note_kind-nullable _ fails found b e = inr e

pub note_kind-accepted_empty :
    (kind : MutationKind) (fails : Bool) (found : Option String) (b : RequirementBuilder)
    → (note_kind kind fails found b).accepted_empty ≡ some false
    → (kind ≡ empty_string) × (fails ≡ true) ⊎ (b.accepted_empty ≡ some false)
unfolding note_kind
note_kind-accepted_empty empty_string true found b e = inl (refl, refl)
note_kind-accepted_empty empty_string false found b e = cc
note_kind-accepted_empty wrong_primitive_type true none b e = inr e
note_kind-accepted_empty wrong_primitive_type true (some t) b e = inr e
note_kind-accepted_empty _ fails found b e = inr e

pub note_kind-types :
    (kind : MutationKind) (fails : Bool) (found : Option String) (b : RequirementBuilder)
    → (kind ≡ wrong_primitive_type) × (fails ≡ true)
      ⊎ ((note_kind kind fails found b).types ≡ b.types)
unfolding note_kind
note_kind-types wrong_primitive_type true found b = inl (refl, refl)
note_kind-types _ fails found b = inr refl

pub note_kind_rest :
    (kind : MutationKind) (fails : Bool) (found : Option String) (b : RequirementBuilder)
    → ((note_kind kind fails found b).target ≡ b.target)
      × ((note_kind kind fails found b).evidence_refs ≡ b.evidence_refs)
unfolding note_kind
note_kind_rest wrong_primitive_type true none b = (refl, refl)
note_kind_rest wrong_primitive_type true (some t) b = (refl, refl)
note_kind_rest _ fails found b = (refl, refl)
