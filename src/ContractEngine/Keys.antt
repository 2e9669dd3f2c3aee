-- ===== src/ContractEngine/Keys.antt =====
-- The keys of the assumption map in crates/contract-engine/src/lib.rs: three texts joined by NUL.
use Prim.Native.Char.{code, nul}
use text.Mathlib.TextLemmas.{append_cancel_right, cons-append, nil-append}
use wire_assume.Prelude.{
  ◌==◌, if◌then◌else◌, ◌++ₛ◌, String, ◌≡◌, refl, sym, ap, ◌∙◌, Bool, true, false, ◌||◌, Option,
  none, some, arith,
}
use wire_assume.MutationEngine.Kind.{MutationKind}
use wire_assume.ContractEngine.Kinds.{assumption_for}
use wire_assume.ContractEngine.Build.{assumption_key}

pub has_nul : String → Bool
has_nul String.[] = false
has_nul (String.◌∷◌ c s) = code c == 0 || has_nul s

-- The text before and after the first NUL, and the text after the last.
before : String → String
before String.[] = String.[]
before (String.◌∷◌ c s) = if code c == 0 then String.[] else String.◌∷◌ c (before s)

after : String → String
after String.[] = String.[]
after (String.◌∷◌ c s) = if code c == 0 then s else after s

last : String → String
last String.[] = String.[]
last (String.◌∷◌ c s) = if code c == 0 || has_nul s then last s else String.◌∷◌ c s

-- `"\0" ++ s`, as a constructor.
nul-append : (s : String) → ("\0" ++ₛ s) ≡ String.◌∷◌ nul s
nul-append s = cons-append nul String.[] s ∙ ap (String.◌∷◌ nul) (nil-append s)

before-append : (t s : String) → has_nul t ≡ false → before (t ++ₛ "\0" ++ₛ s) ≡ t
unfolding has_nul before
before-append String.[] s h = rw (nil-append, nul-append)
before-append (String.◌∷◌ c t) s h = rw cons-append (ground (arith, before-append t s))

after-append : (t s : String) → has_nul t ≡ false → after (t ++ₛ "\0" ++ₛ s) ≡ s
unfolding has_nul after
after-append String.[] s h = rw (nil-append, nul-append)
after-append (String.◌∷◌ c t) s h = rw cons-append (ground (arith, after-append t s))

has_nul-append : (x s : String) → has_nul (x ++ₛ "\0" ++ₛ s) ≡ true
unfolding has_nul
has_nul-append String.[] s = rw (nil-append, nul-append)
has_nul-append (String.◌∷◌ c x) s = rw cons-append (ground (arith, has_nul-append x s))

last_self : (b : String) → has_nul b ≡ false → last b ≡ b
unfolding has_nul last
last_self String.[] h = refl
last_self (String.◌∷◌ c b) h = ground arith

last-append : (x b : String) → has_nul b ≡ false → last (x ++ₛ "\0" ++ₛ b) ≡ b
unfolding last
last-append String.[] b h = rw (nil-append, nul-append) (last_self b h)
last-append (String.◌∷◌ c x) b h =
    rw cons-append (ground (arith, has_nul-append x b, last-append x b))

module _ (t₁ x₁ b₁ t₂ x₂ b₂ : String) (clean_t₁ : has_nul t₁ ≡ false)
    (clean_t₂ : has_nul t₂ ≡ false) (clean_b₁ : has_nul b₁ ≡ false)
    (clean_b₂ : has_nul b₂ ≡ false) where
  -- Equal keys have equal parts, whatever the target is.
  pub assumption_key_inj :
      assumption_key t₁ x₁ b₁ ≡ assumption_key t₂ x₂ b₂ → (t₁ ≡ t₂) × (x₁ ≡ x₂) × (b₁ ≡ b₂)
  unfolding assumption_key
  assumption_key_inj e =
      let types =
        sym (before-append t₁ (x₁ ++ₛ "\0" ++ₛ b₁) clean_t₁)
        ∙ ap before e
        ∙ before-append t₂ (x₂ ++ₛ "\0" ++ₛ b₂) clean_t₂ in
      let rests =
        sym (after-append t₁ (x₁ ++ₛ "\0" ++ₛ b₁) clean_t₁)
        ∙ ap after e
        ∙ after-append t₂ (x₂ ++ₛ "\0" ++ₛ b₂) clean_t₂ in
      let behaviors =
        sym (last-append x₁ b₁ clean_b₁) ∙ ap last rests ∙ last-append x₂ b₂ clean_b₂ in
      (
        types,
        append_cancel_right x₁ x₂ ("\0" ++ₛ b₁)
            (rests ∙ ap (λ b. x₂ ++ₛ "\0" ++ₛ b) (sym behaviors)),
        behaviors,
      )

abbrev pub IsClean : Option (String × String × String) → Type 0
IsClean none = Unit
IsClean (some (t, b, s)) = (has_nul t ≡ false) × (has_nul b ≡ false)

-- No type and no behavior of the table holds a NUL.
pub assumption_for-IsClean : (kind : MutationKind) → IsClean (assumption_for kind)
unfolding assumption_for has_nul
assumption_for-IsClean MutationKind.additional_header = tt
assumption_for-IsClean _ = (refl, refl)
