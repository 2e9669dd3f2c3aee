-- ===== src/MutationEngine/Protocol/Headers.antt =====
-- `set_header` of crates/mutation-engine/src/protocol.rs.
use Prim.Native.Nat.Ordering.{eq}
use wire_assume.Prelude.{
  filter-append, filter-sort_by, str_eq, if◌then◌else◌, Bool-cases, filter, str_cmp,
  str_cmp-IsTotalOrder, sort_by, to_ascii_lowercase, eq_ignore_ascii_case, Ordering, String, ◌≡◌,
  refl, sym, ap, ap₂, ◌∙◌, inl, inr, Bool, true, false, not, List, [], ◌∷◌, ◌++◌, eq_iff, eq_refl,
}
use wire_assume.Model.Corpus.{Header}

-- `eq_ignore_ascii_case` of the header's name.
abbrev pub is_named : String → Header → Bool
is_named name h = eq_ignore_ascii_case h.name name

-- The key of `sort_by_key`, the lower case name.
abbrev pub header_order : Header → Header → Ordering
header_order a b = str_cmp (to_ascii_lowercase a.name) (to_ascii_lowercase b.name)

unfoldable pub without_header : String → List Header → List Header
without_header name headers = filter (λ h. not (is_named name h)) headers

unfoldable pub set_header : List Header → String → String → List Header
unfolding without_header
set_header headers name value =
    sort_by header_order (without_header name headers ++ record { name = name; value = value } ∷ [])

-- The headers of a name, as a client reads them.
abbrev pub headers_of : String → List Header → List Header
headers_of name headers = filter (is_named name) headers

named-alike :
    (name : String) (a b : Header)
    → is_named name a ≡ true
    → is_named name b ≡ true
    → header_order a b ≡ eq
unfolding eq_ignore_ascii_case
named-alike name a b h k =
    let same : to_ascii_lowercase a.name ≡ to_ascii_lowercase b.name =
      (eq_iff _ _).0 h ∙ sym ((eq_iff _ _).0 k) in
    ap (λ s. str_cmp s (to_ascii_lowercase b.name)) same
    ∙ str_cmp-IsTotalOrder.cmp_self (to_ascii_lowercase b.name)

named-apart :
    (name other : String) (h : Header)
    → eq_ignore_ascii_case name other ≡ false
    → is_named name h ≡ true
    → is_named other h ≡ false
unfolding eq_ignore_ascii_case
named-apart name other h apart named =
    ap (λ s. str_eq s (to_ascii_lowercase other)) ((eq_iff _ _).0 named) ∙ apart

pub headers_of-without :
    (name other : String) (headers : List Header)
    → eq_ignore_ascii_case name other ≡ false
    → headers_of other (without_header name headers) ≡ headers_of other headers
unfolding without_header
headers_of-without name other [] h = refl
headers_of-without name other (x ∷ xs) h = elim (Bool-cases (is_named name x)) [
  | inl named ↦ rw (named, named-apart name other x h named) (headers_of-without name other xs h)
  | inr kept ↦
      rw (kept, filter)
        (ap (λ l. if is_named other x then x ∷ l else l) (headers_of-without name other xs h))
]

pub headers_of-removed :
    (name : String) (headers : List Header) → headers_of name (without_header name headers) ≡ []
unfolding without_header
headers_of-removed name [] = refl
headers_of-removed name (x ∷ xs) = elim (Bool-cases (is_named name x)) [
  | inl named ↦ rw named (headers_of-removed name xs)
  | inr other ↦ rw (other, filter) (rw other (headers_of-removed name xs))
]

append_nil : (headers : List Header) → headers ++ [] ≡ headers
append_nil [] = refl
append_nil (h ∷ hs) = ap (λ l. h ∷ l) (append_nil hs)

-- After a header is set it stands once, with the value, and the headers of every other name are what they
-- were, in their order.
pub set_header-headers_of :
    (headers : List Header) (name value : String)
    → (headers_of name (set_header headers name value) ≡ record { name = name; value = value } ∷ [])
      × ((other : String)
          → eq_ignore_ascii_case name other ≡ false
          → headers_of other (set_header headers name value) ≡ headers_of other headers)
unfolding set_header
set_header-headers_of headers name value =
    let new : Header = record { name = name; value = value } in
    let itself : is_named name new ≡ true =
      unfold eq_ignore_ascii_case in eq_refl (to_ascii_lowercase name) in
    (
      filter-sort_by header_order (is_named name) (named-alike name) _
          ∙ filter-append (is_named name) (without_header name headers) (new ∷ [])
          ∙ ap₂ (λ xs ys. xs ++ ys) (headers_of-removed name headers) (rw (itself, filter) refl),
      λ other h.
          filter-sort_by header_order (is_named other) (named-alike other) _
          ∙ filter-append (is_named other) (without_header name headers) (new ∷ [])
          ∙ ap₂ (λ xs ys. xs ++ ys) (headers_of-without name other headers h) (rw (h, filter) refl)
          ∙ append_nil (headers_of other headers),
    )
