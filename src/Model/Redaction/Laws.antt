-- ===== src/Model/Redaction/Laws.antt =====
-- What the redaction of crates/model/src/redaction.rs forgets.
use wire_assume.Prelude.{
  str_eq, if◌then◌else◌, Option-cases, any, BTreeSet, contains, is_some, to_ascii_lowercase, String,
  ◌≡◌, refl, sym, ap, ap₂, ◌∙◌, ◌⊎◌, inl, inr, true, not, Option, none, some, List, [], ◌∷◌, arith,
}
use wire_assume.Model.Json.{Value, Fields, end, field}
use wire_assume.Model.Corpus.{Header, Interaction}
use wire_assume.Model.Redaction.{
  redacted, RedactionPolicy, redact_headers, redact_json_path, redact_in, Regexes, Urls,
  redact_each, redact_text, apply,
}

-- The same headers, but for the values of those that the policy names.
abbrev pub AlikeHeaders : BTreeSet → List Header → List Header → Type 0
AlikeHeaders names [] [] = Unit
AlikeHeaders names (h ∷ hs) (g ∷ gs) =
    ((h.name ≡ g.name)
      × ((h.value ≡ g.value) ⊎ (contains names (to_ascii_lowercase h.name) ≡ true)))
    × AlikeHeaders names hs gs
AlikeHeaders names _ _ = ⊥

abbrev kept : BTreeSet → String → String → Header
kept names name value =
    if contains names (to_ascii_lowercase name)
    then record { name = name; value = redacted }
    else record { name = name; value = value }

kept-alike :
    (names : BTreeSet) (h g : Header)
    → h.name ≡ g.name
    → (h.value ≡ g.value) ⊎ (contains names (to_ascii_lowercase h.name) ≡ true)
    → kept names h.name h.value ≡ kept names g.name g.value
kept-alike names h g same (inl values) = ap₂ (kept names) same values
kept-alike names h g same (inr secret) =
    ap (λ n. kept names n h.value) same
    ∙ rw (ap (λ n. contains names (to_ascii_lowercase n)) (sym same) ∙ secret) refl

redact_headers-alike :
    (names : BTreeSet) (hs gs : List Header)
    → AlikeHeaders names hs gs
    → redact_headers names hs ≡ redact_headers names gs
unfolding redact_headers
redact_headers-alike names [] [] h = refl
redact_headers-alike names [] (g ∷ gs) h = absurd h
redact_headers-alike names (k ∷ hs) [] h = absurd h
redact_headers-alike names (k ∷ hs) (g ∷ gs) h =
    ap₂ (λ x xs. x ∷ xs) (kept-alike names k g h.0.0 h.0.1) (redact_headers-alike names hs gs h.1)

module _ (new_regex : Regexes) where
  module _ {U : Type 0} (urls : Urls U) where
    -- Interactions that differ only in the values of headers whose name, in lowercase, the policy has are
    -- redacted to the same.
    pub apply_hides_headers :
        (policy : RedactionPolicy) (interaction : Interaction) (sent received : List Header)
        → AlikeHeaders policy.headers interaction.request.headers sent
        → AlikeHeaders policy.headers interaction.response.headers received
        → apply new_regex urls policy interaction
          ≡ apply new_regex urls policy (record interaction {
            request = record interaction.request { headers = sent };
            response = record interaction.response { headers = received };
          })
    unfolding apply
    apply_hides_headers policy interaction sent received h k =
        rw
          (
            redact_headers-alike policy.headers interaction.request.headers sent h,
            redact_headers-alike policy.headers interaction.response.headers received k,
          )
          refl

  redact_each-invalid :
      (patterns : List String) (text : String)
      → any (λ p. not (is_some (new_regex p))) patterns ≡ true
      → redact_each new_regex patterns text ≡ redacted
  unfolding redact_each
  redact_each-invalid [] text h = cc
  redact_each-invalid (p ∷ ps) text h = elim (Option-cases (new_regex p)) [
    | inl bad ↦ rw (bad, redact_each) refl
    | inr (replace_all, good) ↦
        rw (good, redact_each) (redact_each-invalid ps (replace_all text) (rw good at h))
  ]

  -- With one invalid expression among those of the policy, nothing of a text is kept.
  pub redact_text_fails_closed :
      (policy : RedactionPolicy) (text : String)
      → any (λ p. not (is_some (new_regex p))) policy.regexes ≡ true
      → redact_text new_regex policy text ≡ redacted
  unfolding redact_text
  redact_text_fails_closed policy text h = redact_each-invalid policy.regexes text h

-- The value that stands at a path of keys.
mutual
  pub value_at : Value → List String → Option Value
  value_at value [] = some value
  value_at (Value.object fs) (k ∷ keys) = value_in fs k keys
  value_at value (k ∷ keys) = none

  pub value_in : Fields → String → List String → Option Value
  value_in end k keys = none
  value_in (field j v fs) k keys =
      let rest = value_in fs k keys in
      let here = value_at v keys in if str_eq j k then here else rest

abbrev pub redacted_if : Option Value → Option Value
redacted_if none = none
redacted_if (some v) = some (Value.string redacted)

mutual
  unfolding value_at redact_json_path

  path-redacted :
      (v : Value) (k : String) (keys : List String)
      → value_at (redact_json_path v (k ∷ keys)) (k ∷ keys) ≡ redacted_if (value_at v (k ∷ keys))
  path-redacted (Value.object fs) k keys = in-redacted fs k keys
  path-redacted Value.null k keys = refl
  path-redacted (Value.bool b) k keys = refl
  path-redacted (Value.number n) k keys = refl
  path-redacted (Value.string s) k keys = refl
  path-redacted (Value.array xs) k keys = refl

  in-redacted :
      (fs : Fields) (k : String) (keys : List String)
      → value_in (redact_in fs k keys) k keys ≡ redacted_if (value_in fs k keys)
  in-redacted end k keys = refl
  in-redacted (field j v fs) k [] = ground (arith, in-redacted fs k [])
  in-redacted (field j v fs) k (l ∷ keys) =
      ground (arith, in-redacted fs k (l ∷ keys), path-redacted v l keys)

-- Where a value stands at a path of keys, the mark of redaction stands there afterwards, and where none
-- stands, none does.
pub redact_json_path_marks :
    (value : Value) (k : String) (keys : List String)
    → value_at (redact_json_path value (k ∷ keys)) (k ∷ keys)
      ≡ redacted_if (value_at value (k ∷ keys))
redact_json_path_marks value k keys = path-redacted value k keys
