-- ===== src/Prelude/Order.antt =====
-- Rust's `Ord`: comparison of texts, `Ordering::then`, and the stable `sort_by`.
use Prim.Native.Char.{Char, code}
use Prim.Native.Nat.{compare, Ordering}
use Prim.Native.Nat.Ordering.{lt, eq, gt}
use Prim.Native.String.{String, then}
use Prim.Native.String.compare
use mathlib.Core.Path.{◌≡◌, refl, ap, ◌∙◌}
use mathlib.Core.Bool.{Bool, ◌||◌}
use mathlib.Core.Logic.{◌≢◌, ◌⊎◌, inl, inr}
use mathlib.Core.List.Perm
use mathlib.Core.List.{List, [], ◌∷◌, Perm}
use native.Mathlib.Omega.{arith}
use text.Mathlib.TextEquality.{path_by_compare}
use text.Mathlib.TextPositions.{compare_refl}
use wire_assume.Prelude.Lists.{any, All}

-- `Ordering::then`
abbrev pub then_cmp : Ordering → Ordering → Ordering
then_cmp = then

-- `str::cmp`: by bytes, which for UTF-8 is by code points.
abbrev pub str_cmp : String → String → Ordering
str_cmp = Prim.Native.String.compare

-- What the trait `Ord` asks of `cmp`.
pub record IsTotalOrder {ℓ} {K : Type ℓ} (cmp : K → K → Ordering) : Type ℓ where
  pub lt_trans : (x y z : K) → cmp x y ≡ lt → cmp y z ≡ lt → cmp x z ≡ lt
  pub gt_of_lt : (x y : K) → cmp x y ≡ lt → cmp y x ≡ gt
  pub lt_of_gt : (x y : K) → cmp x y ≡ gt → cmp y x ≡ lt
  pub same_of_eq : (x y : K) → cmp x y ≡ eq → x ≡ y
  pub cmp_self : (x : K) → cmp x x ≡ eq

pub compare-IsTotalOrder : IsTotalOrder compare
compare-IsTotalOrder = record {
  cmp_self = λ a. ground arith;
  same_of_eq = λ a b h. ground arith;
  lt_of_gt = λ a b h. ground arith;
  gt_of_lt = λ a b h. ground arith;
  lt_trans = λ a b c h k. ground arith;
}

module _ (c d : Char) (s t : String) where
  str_cmp-cons :
      str_cmp (String.◌∷◌ c s) (String.◌∷◌ d t) ≡ then (compare (code c) (code d)) (str_cmp s t)
  str_cmp-cons = compare.cons-cons c d s t

  str_cmp-nil : str_cmp String.[] (String.◌∷◌ d t) ≡ lt
  str_cmp-nil = compare.nil-cons d t

  str_cmp_nil : str_cmp (String.◌∷◌ c s) String.[] ≡ gt
  str_cmp_nil = compare.cons-nil c s

gt_of_str_cmp : (a b : String) → str_cmp a b ≡ gt → str_cmp b a ≡ lt
gt_of_str_cmp String.[] String.[] h = cc
gt_of_str_cmp String.[] (String.◌∷◌ d t) h = cc (str_cmp-nil d d t t)
gt_of_str_cmp (String.◌∷◌ c s) String.[] h = str_cmp-nil c c s s
gt_of_str_cmp (String.◌∷◌ c s) (String.◌∷◌ d t) h =
    ground (arith, str_cmp-cons c d s t, str_cmp-cons d c t s, gt_of_str_cmp s t)

lt_of_str_cmp : (a b : String) → str_cmp a b ≡ lt → str_cmp b a ≡ gt
lt_of_str_cmp String.[] String.[] h = cc
lt_of_str_cmp String.[] (String.◌∷◌ d t) h = str_cmp_nil d d t t
lt_of_str_cmp (String.◌∷◌ c s) String.[] h = cc (str_cmp_nil c c s s)
lt_of_str_cmp (String.◌∷◌ c s) (String.◌∷◌ d t) h =
    ground (arith, str_cmp-cons c d s t, str_cmp-cons d c t s, lt_of_str_cmp s t)

str_cmp_trans : (a b c : String) → str_cmp a b ≡ lt → str_cmp b c ≡ lt → str_cmp a c ≡ lt
str_cmp_trans String.[] b String.[] h k = cc (lt_of_str_cmp b String.[] k)
str_cmp_trans String.[] b (String.◌∷◌ e u) h k = str_cmp-nil e e u u
str_cmp_trans (String.◌∷◌ c s) String.[] u h k = cc (str_cmp_nil c c s s)
str_cmp_trans (String.◌∷◌ c s) (String.◌∷◌ d t) String.[] h k = cc (str_cmp_nil d d t t)
str_cmp_trans (String.◌∷◌ c s) (String.◌∷◌ d t) (String.◌∷◌ e u) h k =
    ground
      (arith, str_cmp-cons c d s t, str_cmp-cons d e t u, str_cmp-cons c e s u, str_cmp_trans s t u)

pub str_cmp-IsTotalOrder : IsTotalOrder str_cmp
str_cmp-IsTotalOrder = record {
  cmp_self = compare_refl;
  same_of_eq = path_by_compare;
  lt_of_gt = gt_of_str_cmp;
  gt_of_lt = lt_of_str_cmp;
  lt_trans = str_cmp_trans;
}

pub Ordering-cases : (o : Ordering) → (o ≡ gt) ⊎ ((o ≡ lt) ⊎ (o ≡ eq))
Ordering-cases gt = inl refl
Ordering-cases lt = inr (inl refl)
Ordering-cases eq = inr (inr refl)

module _ {A : Type 0} (cmp : A → A → Ordering) where
  unfoldable pub insert_sorted : A → List A → List A
  insert_sorted x [] = x ∷ []
  insert_sorted x (y ∷ ys) = elim (cmp x y) [ gt ↦ y ∷ insert_sorted x ys | _ ↦ x ∷ y ∷ ys ]

  -- `slice::sort_by`: stable, so equal elements keep their order.
  unfoldable pub sort_by : List A → List A
  unfolding insert_sorted
  sort_by [] = []
  sort_by (x ∷ xs) = insert_sorted x (sort_by xs)

  abbrev pub IsSorted : List A → Type 0
  IsSorted [] = Unit
  IsSorted (x ∷ []) = Unit
  IsSorted (x ∷ y ∷ ys) = (cmp x y ≢ gt) × IsSorted (y ∷ ys)

  insert_sorted-perm : (x : A) (xs : List A) → Perm (insert_sorted x xs) (x ∷ xs)
  unfolding insert_sorted
  insert_sorted-perm x [] = Perm.rfl
  insert_sorted-perm x (y ∷ ys) = elim (Ordering-cases (cmp x y)) [
    | inl above ↦
        rw (above, insert_sorted)
          (Perm.trans (Perm.cons y (insert_sorted-perm x ys)) (Perm.swap x y ys))
    | inr (inl below) ↦ rw (below, insert_sorted) Perm.rfl
    | inr (inr same) ↦ rw (same, insert_sorted) Perm.rfl
  ]

  pub sort_by-perm : (xs : List A) → Perm (sort_by xs) xs
  unfolding sort_by
  sort_by-perm [] = Perm.rfl
  sort_by-perm (x ∷ xs) =
      Perm.trans (insert_sorted-perm x (sort_by xs)) (Perm.cons x (sort_by-perm xs))

  insert_sorted-IsSorted :
      (total : (a b : A) → cmp a b ≡ gt → cmp b a ≢ gt) (x : A) (xs : List A)
      → IsSorted xs
      → IsSorted (insert_sorted x xs)
  unfolding insert_sorted
  insert_sorted-IsSorted total x [] h = tt
  insert_sorted-IsSorted total x (y ∷ []) h = ground (arith, total x y)
  insert_sorted-IsSorted total x (y ∷ z ∷ zs) h =
      ground (arith, total x y, insert_sorted-IsSorted total x (z ∷ zs))

  pub sort_by-IsSorted :
      (total : (a b : A) → cmp a b ≡ gt → cmp b a ≢ gt) (xs : List A) → IsSorted (sort_by xs)
  unfolding sort_by
  sort_by-IsSorted total [] = tt
  sort_by-IsSorted total (x ∷ xs) =
      insert_sorted-IsSorted total x (sort_by xs) (sort_by-IsSorted total xs)

  any-insert_sorted :
      (p : A → Bool) (x : A) (xs : List A) → any p (insert_sorted x xs) ≡ (p x || any p xs)
  unfolding insert_sorted
  any-insert_sorted p x [] = refl
  any-insert_sorted p x (y ∷ ys) = ground (arith, any-insert_sorted p x ys)

  pub any-sort_by : (p : A → Bool) (xs : List A) → any p (sort_by xs) ≡ any p xs
  unfolding sort_by
  any-sort_by p [] = refl
  any-sort_by p (x ∷ xs) =
      any-insert_sorted p x (sort_by xs) ∙ ap (λ b. p x || b) (any-sort_by p xs)

  All-insert_sorted :
      (P : A → Type 0) (x : A) (xs : List A) → P x → All P xs → All P (insert_sorted x xs)
  unfolding insert_sorted
  All-insert_sorted P x [] p h = (p, tt)
  All-insert_sorted P x (y ∷ ys) p h = elim (Ordering-cases (cmp x y)) [
    | inl above ↦ rw (above, insert_sorted) (h.0, All-insert_sorted P x ys p h.1)
    | inr (inl below) ↦ rw (below, insert_sorted) (p, h)
    | inr (inr same) ↦ rw (same, insert_sorted) (p, h)
  ]

  pub All-sort_by : (P : A → Type 0) (xs : List A) → All P xs → All P (sort_by xs)
  unfolding sort_by
  All-sort_by P [] h = tt
  All-sort_by P (x ∷ xs) h = All-insert_sorted P x (sort_by xs) h.0 (All-sort_by P xs h.1)
