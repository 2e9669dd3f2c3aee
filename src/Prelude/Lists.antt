-- ===== src/Prelude/Lists.antt =====
-- Lists measured and cut by native numbers, and predicates on all elements.
use Prim.Native.Nat.{ℕ, zero, suc, ◌+◌, ◌-◌, min}
use mathlib.Core.Path.{◌≡◌, refl, ap, ◌∙◌}
use mathlib.Core.List.{List, [], ◌∷◌, ◌++◌}
use mathlib.Core.Bool.{Bool, true, false, not, ◌&&◌, ◌||◌}
use mathlib.Core.Logic.{inl, inr}
use mathlib.Core.List.{Mem, mem-cons_self, mem-cons_of_mem}
use mathlib.Core.Option.{Option, none, some}
use native.Mathlib.Omega.{arith}
use wire_assume.Prelude.Tests.{if◌then◌else◌, Bool-cases}

module _ {ℓ} {A : Type ℓ} where
  abbrev pub length : List A → ℕ
  length [] = 0
  length (x ∷ xs) = suc (length xs)

  abbrev pub take : ℕ → List A → List A
  take zero xs = []
  take (suc n) [] = []
  take (suc n) (x ∷ xs) = x ∷ take n xs

  abbrev pub drop : ℕ → List A → List A
  drop zero xs = xs
  drop (suc n) [] = []
  drop (suc n) (x ∷ xs) = drop n xs

  pub length-append : (xs ys : List A) → length (xs ++ ys) ≡ length xs + length ys
  length-append [] ys = omega arith
  length-append (x ∷ xs) ys = omega (arith, length-append xs ys)

  pub length-take : (n : ℕ) (xs : List A) → length (take n xs) ≡ min n (length xs)
  length-take zero xs = omega arith
  length-take (suc n) [] = omega arith
  length-take (suc n) (x ∷ xs) = omega (arith, length-take n xs)

  pub length-drop : (n : ℕ) (xs : List A) → length (drop n xs) ≡ length xs - n
  length-drop zero xs = omega arith
  length-drop (suc n) [] = omega arith
  length-drop (suc n) (x ∷ xs) = omega (arith, length-drop n xs)

  pub take-append-drop : (n : ℕ) (xs : List A) → take n xs ++ drop n xs ≡ xs
  take-append-drop zero xs = refl
  take-append-drop (suc n) [] = refl
  take-append-drop (suc n) (x ∷ xs) = ap (λ l. x ∷ l) (take-append-drop n xs)

  -- The library's `filter` takes a decision; this one takes Rust's Boolean closure.
  abbrev pub filter : (A → Bool) → List A → List A
  filter p [] = []
  filter p (x ∷ xs) = if p x then x ∷ filter p xs else filter p xs

  -- Every element has the property: a tuple, which the tactics read and build.
  abbrev pub All {κ} : (A → Type κ) → List A → Type κ
  All P [] = Unit
  All P (x ∷ xs) = P x × All P xs

pub All-mp {ℓ κ μ} :
    {A : Type ℓ} (P : A → Type κ) (Q : A → Type μ) (xs : List A)
    → ((x : A) → P x → Q x)
    → All P xs
    → All Q xs
All-mp P Q [] f h = tt
All-mp P Q (x ∷ xs) f h = (f x h.0, All-mp P Q xs f h.1)

pub All-split {ℓ κ} :
    {A : Type ℓ} (P : A → Type κ) (xs ys : List A) (x : A) → All P (xs ++ x ∷ ys) → P x
All-split P [] ys x h = h.0
All-split P (y ∷ xs) ys x h = All-split P xs ys x h.1

-- `iter().any(…)`
abbrev pub any {ℓ} : {A : Type ℓ} → (A → Bool) → List A → Bool
any p [] = false
any p (x ∷ xs) = p x || any p xs

abbrev pub list_eq {ℓ} : {A : Type ℓ} → (A → A → Bool) → List A → List A → Bool
list_eq same [] [] = true
list_eq same (x ∷ xs) (y ∷ ys) = same x y && list_eq same xs ys
list_eq same _ _ = false

abbrev pub option_eq {ℓ} : {A : Type ℓ} → (A → A → Bool) → Option A → Option A → Bool
option_eq same none none = true
option_eq same (some x) (some y) = same x y
option_eq same _ _ = false

abbrev pub bool_eq : Bool → Bool → Bool
bool_eq true b = b
bool_eq false b = not b

pub list_eq_refl {ℓ} :
    {A : Type ℓ} (same : A → A → Bool) (xs : List A)
    → ((x : A) → same x x ≡ true)
    → list_eq same xs xs ≡ true
list_eq_refl same [] h = refl
list_eq_refl same (x ∷ xs) h = ground (arith, h x, list_eq_refl same xs h)

pub option_eq_refl {ℓ} :
    {A : Type ℓ} (same : A → A → Bool) (o : Option A)
    → ((x : A) → same x x ≡ true)
    → option_eq same o o ≡ true
option_eq_refl same none h = refl
option_eq_refl same (some x) h = h x

pub bool_eq_refl : (b : Bool) → bool_eq b b ≡ true
bool_eq_refl true = refl
bool_eq_refl false = refl

pub All-take {ℓ κ} :
    {A : Type ℓ} (P : A → Type κ) (n : ℕ) (xs : List A) → All P xs → All P (take n xs)
All-take P zero xs h = tt
All-take P (suc n) [] h = tt
All-take P (suc n) (x ∷ xs) h = (h.0, All-take P n xs h.1)

pub All-snoc {ℓ κ} :
    {A : Type ℓ} (P : A → Type κ) (xs : List A) (x : A) → All P xs → P x → All P (xs ++ x ∷ [])
All-snoc P [] x h p = (p, tt)
All-snoc P (y ∷ xs) x h p = (h.0, All-snoc P xs x h.1 p)

-- `Vec::dedup_by`: `kept` is the last element that stayed.
unfoldable pub dedup_after {ℓ} : {A : Type ℓ} → (A → A → Bool) → A → List A → List A
dedup_after same kept [] = []
dedup_after same kept (x ∷ xs) =
    if same x kept then dedup_after same kept xs else x ∷ dedup_after same x xs

unfoldable pub dedup_by {ℓ} : {A : Type ℓ} → (A → A → Bool) → List A → List A
unfolding dedup_after
dedup_by same [] = []
dedup_by same (x ∷ xs) = x ∷ dedup_after same x xs

module _ {ℓ κ} {A : Type ℓ} (same : A → A → Bool) (P : A → Type κ) where
  All-dedup_after : (kept : A) (xs : List A) → All P xs → All P (dedup_after same kept xs)
  unfolding dedup_after
  All-dedup_after kept [] h = tt
  All-dedup_after kept (x ∷ xs) h = elim (Bool-cases (same x kept)) [
    | inl equal ↦ rw equal (All-dedup_after kept xs h.1)
    | inr other ↦ rw other (h.0, All-dedup_after x xs h.1)
  ]

  pub All-dedup_by : (xs : List A) → All P xs → All P (dedup_by same xs)
  unfolding dedup_by
  All-dedup_by [] h = tt
  All-dedup_by (x ∷ xs) h = (h.0, All-dedup_after x xs h.1)

abbrev pub concat_lists {ℓ κ} : {A : Type ℓ} {K : Type κ} → List (K × List A) → List A
concat_lists [] = []
concat_lists ((k, xs) ∷ rest) = xs ++ concat_lists rest

module _ {ℓ} {A : Type ℓ} where
  pub All-append {κ} : (P : A → Type κ) (xs ys : List A) → All P xs → All P ys → All P (xs ++ ys)
  All-append P [] ys h k = k
  All-append P (x ∷ xs) ys h k = (h.0, All-append P xs ys h.1 k)

  pub any-append : (p : A → Bool) (xs ys : List A) → any p (xs ++ ys) ≡ (any p xs || any p ys)
  any-append p [] ys = refl
  any-append p (x ∷ xs) ys = ground (arith, any-append p xs ys)

  pub any-concat_lists {κ} :
      {K : Type κ} (p : A → Bool) (xss : List (K × List A))
      → any p (concat_lists xss) ≡ any (λ (e : K × List A). any p e.1) xss
  any-concat_lists p [] = refl
  any-concat_lists p ((k, xs) ∷ xss) =
      any-append p xs (concat_lists xss) ∙ ap (λ b. any p xs || b) (any-concat_lists p xss)

  pub All-concat_lists {κ μ} :
      {K : Type κ} (P : A → Type μ) (xss : List (K × List A))
      → All (λ e. All P e.1) xss
      → All P (concat_lists xss)
  All-concat_lists P [] h = tt
  All-concat_lists P ((k, xs) ∷ xss) h =
      All-append P xs (concat_lists xss) h.0 (All-concat_lists P xss h.1)

  pub All-filter {κ} :
      (P : A → Type κ) (keep : A → Bool) (xs : List A)
      → All P xs
      → All (λ x. P x × (keep x ≡ true)) (filter keep xs)
  All-filter P keep [] h = tt
  All-filter P keep (x ∷ xs) h = elim (Bool-cases (keep x)) [
    | inl kept ↦ rw kept ((h.0, kept), All-filter P keep xs h.1)
    | inr dropped ↦ rw dropped (All-filter P keep xs h.1)
  ]

  pub All-always {κ} : (P : A → Type κ) (xs : List A) → ((x : A) → P x) → All P xs
  All-always P [] f = tt
  All-always P (x ∷ xs) f = (f x, All-always P xs f)

  pub any-left : (p : A → Bool) (xs ys : List A) → any p xs ≡ true → any p (xs ++ ys) ≡ true
  any-left p xs ys h = ground (arith, any-append p xs ys, h)

  pub any-right : (p : A → Bool) (xs ys : List A) → any p ys ≡ true → any p (xs ++ ys) ≡ true
  any-right p xs ys h = ground (arith, any-append p xs ys, h)

-- All elements of one list stand in the other.
pub All-Mem {ℓ} :
    {A : Type ℓ} (xs ys : List A) → ((x : A) → Mem x xs → Mem x ys) → All (λ x. Mem x ys) xs
All-Mem [] ys f = tt
All-Mem (x ∷ xs) ys f = (f x mem-cons_self, All-Mem xs ys (λ y m. f y (mem-cons_of_mem x m)))
