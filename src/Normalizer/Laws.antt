-- ===== src/Normalizer/Laws.antt =====
-- What `NormalizationPolicy::normalize` makes the same: crates/normalizer/src/lib.rs.
use wire_assume.Prelude.{
  BTreeMap, get, to_ascii_lowercase, String, ◌≡◌, refl, ap, ap₂, ◌∙◌, ◌⊎◌, inl, inr, true, false,
  some, List, [], ◌∷◌,
}
use wire_assume.Model.Corpus.{Header, Interaction}
use wire_assume.Model.Redaction.{Urls}
use wire_assume.MutationEngine.Mutation.{Pointers}
use wire_assume.Normalizer.{
  NormalizationPolicy, normalize_header, normalize_headers, normalize_uri, normalize_body,
  normalize,
}

-- Two headers of one name, with one value where the policy does not replace it.
pub record IsAlike (replacements : BTreeMap String) (a b : Header) : Type 0 where
  pub name : a.name ≡ b.name
  pub value :
      (a.value ≡ b.value)
      ⊎ ((replacement : String) × (get (to_ascii_lowercase b.name) replacements ≡ some replacement))

abbrev pub AreAlike : BTreeMap String → List Header → List Header → Type 0
AreAlike replacements [] [] = Unit
AreAlike replacements (a ∷ xs) (b ∷ ys) = IsAlike replacements a b × AreAlike replacements xs ys
AreAlike replacements _ _ = true ≡ false

normalize_header-IsAlike :
    (replacements : BTreeMap String) (a b : Header)
    → IsAlike replacements a b
    → normalize_header replacements a ≡ normalize_header replacements b
normalize_header-IsAlike replacements a b h = elim h.value [
  | inl same ↦
      ap₂ (λ (n v : String). normalize_header replacements (record { name = n; value = v })) h.name
        same
  | inr (replacement, found) ↦
      let found' : get (to_ascii_lowercase a.name) replacements ≡ some replacement =
        ap (λ n. get (to_ascii_lowercase n) replacements) h.name ∙ found in
      rw (found, found') (ap (λ n. record { name = n; value = replacement }) h.name)
]

normalize_headers-AreAlike :
    (replacements : BTreeMap String) (xs ys : List Header)
    → AreAlike replacements xs ys
    → normalize_headers replacements xs ≡ normalize_headers replacements ys
unfolding normalize_headers
normalize_headers-AreAlike replacements [] [] h = refl
normalize_headers-AreAlike replacements (a ∷ xs) (b ∷ ys) h =
    ap₂ (λ (h' : Header) (hs : List Header). h' ∷ hs)
      (normalize_header-IsAlike replacements a b h.0)
      (normalize_headers-AreAlike replacements xs ys h.1)
normalize_headers-AreAlike replacements [] (b ∷ ys) h = cc h
normalize_headers-AreAlike replacements (a ∷ xs) [] h = cc h

module _ {U : Type 0} (urls : Urls U) (pointer_mut : Pointers) where
  -- Interactions that differ only in the values of headers that the policy replaces have the same view.
  pub normalize-AreAlike :
      (policy : NormalizationPolicy) (i : Interaction) (asked answered : List Header)
      → AreAlike policy.headers asked i.request.headers
      → AreAlike policy.headers answered i.response.headers
      → normalize urls pointer_mut policy (record i {
        request = record i.request { headers = asked };
        response = record i.response { headers = answered };
      })
        ≡ normalize urls pointer_mut policy i
  unfolding normalize
  normalize-AreAlike policy i asked answered h k =
      ap₂
        (λ (xs ys : List Header). record i {
          request = record i.request {
            headers = xs;
            uri = normalize_uri urls pointer_mut policy.query_parameters i.request.uri;
            body = normalize_body urls pointer_mut policy.json_pointers i.request.body;
          };
          response = record i.response {
            headers = ys;
            body = normalize_body urls pointer_mut policy.json_pointers i.response.body;
          };
        })
        (normalize_headers-AreAlike policy.headers asked i.request.headers h)
        (normalize_headers-AreAlike policy.headers answered i.response.headers k)
