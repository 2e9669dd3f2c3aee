-- ===== src/Prelude/Stable.antt =====
-- `sort_by` is stable: elements that compare as equal keep their order.
use Prim.Native.Nat.{Ordering}
use Prim.Native.Nat.Ordering.{eq}
use mathlib.Core.Path.{◌≡◌, refl, ap, ◌∙◌}
use mathlib.Core.Logic.{inl, inr}
use mathlib.Core.Bool.{Bool, true}
use mathlib.Core.List.{List, [], ◌∷◌, ◌++◌}
use native.Mathlib.Omega.{arith}
use wire_assume.Prelude.Tests.{Bool-cases, if◌then◌else◌}
use wire_assume.Prelude.Lists.{filter}
use wire_assume.Prelude.Order.{sort_by, insert_sorted, Ordering-cases}

pub filter-append {ℓ} :
    {A : Type ℓ} (p : A → Bool) (xs ys : List A) → filter p (xs ++ ys) ≡ filter p xs ++ filter p ys
filter-append p [] ys = refl
filter-append p (x ∷ xs) ys = elim (Bool-cases (p x)) [
  | inl kept ↦ rw kept (ap (λ l. x ∷ l) (filter-append p xs ys))
  | inr dropped ↦ rw dropped (filter-append p xs ys)
]

module _ {A : Type 0} (cmp : A → A → Ordering) (p : A → Bool)
    (alike : (x y : A) → p x ≡ true → p y ≡ true → cmp x y ≡ eq) where
  filter-insert_sorted :
      (x : A) (xs : List A) → filter p (insert_sorted cmp x xs) ≡ filter p (x ∷ xs)
  unfolding insert_sorted
  filter-insert_sorted x [] = refl
  filter-insert_sorted x (y ∷ ys) = elim (Ordering-cases (cmp x y)) [
    | inl above ↦ ground (arith, above, alike x y, filter-insert_sorted x ys)
    | inr (inl below) ↦ rw (below, insert_sorted) refl
    | inr (inr same) ↦ rw (same, insert_sorted) refl
  ]

  pub filter-sort_by : (xs : List A) → filter p (sort_by cmp xs) ≡ filter p xs
  unfolding sort_by
  filter-sort_by [] = refl
  filter-sort_by (x ∷ xs) =
      filter-insert_sorted x (sort_by cmp xs)
      ∙ ap (λ l. if p x then x ∷ l else l) (filter-sort_by xs)
