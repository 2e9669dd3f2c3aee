-- ===== src/Prelude/Maps.antt =====
-- `BTreeMap<String, V>` and `BTreeSet<String>`: entries in the order of their keys.
use Prim.Native.Nat.Ordering.{lt, eq, gt}
use Prim.Native.String.{String}
use mathlib.Core.Path.{◌≡◌, refl}
use mathlib.Core.Bool.{Bool, false, ◌||◌}
use mathlib.Core.Option.{Option, none, some}
use mathlib.Core.List.{List, [], ◌∷◌}
use native.Mathlib.Omega.{arith}
use text.Mathlib.TextEquality.{eq_iff}
use wire_assume.Prelude.Tests.{str_eq, if◌then◌else◌}
use wire_assume.Prelude.Order.{str_cmp, str_cmp-IsTotalOrder}
open str_cmp-IsTotalOrder use {cmp_self, same_of_eq, lt_of_gt, lt_trans}

abbrev pub BTreeMap {ℓ} : Type ℓ → Type ℓ
BTreeMap V = List (String × V)

module _ {ℓ} {V : Type ℓ} where
  unfoldable pub get : String → BTreeMap V → Option V
  get k [] = none
  get k ((j, v) ∷ m) = if str_eq j k then some v else get k m

  unfoldable pub insert : String → V → BTreeMap V → BTreeMap V
  insert k v [] = (k, v) ∷ []
  insert k v ((j, w) ∷ m) = elim (str_cmp k j) [
    | lt ↦ (k, v) ∷ (j, w) ∷ m
    | eq ↦ (k, v) ∷ m
    | gt ↦ (j, w) ∷ insert k v m
  ]

  pub get-insert :
      (k j : String) (v : V) (m : BTreeMap V)
      → get j (insert k v m) ≡ (if str_eq k j then some v else get j m)
  unfolding get insert
  get-insert k j v [] = refl
  get-insert k j v ((i, w) ∷ m) =
      ground
        (arith, eq_iff k j, eq_iff i k, eq_iff i j, same_of_eq k i, cmp_self k, get-insert k j v m)

  -- Every key comes after `k`.
  abbrev pub Above : String → BTreeMap V → Type 0
  Above k [] = Unit
  Above k ((j, v) ∷ m) = (str_cmp k j ≡ lt) × Above k m

  -- The keys ascend, so none stands there twice.
  abbrev pub IsOrdered : BTreeMap V → Type 0
  IsOrdered [] = Unit
  IsOrdered ((k, v) ∷ m) = Above k m × IsOrdered m

  Above-trans : (a b : String) (m : BTreeMap V) → str_cmp a b ≡ lt → Above b m → Above a m
  Above-trans a b [] h above = tt
  Above-trans a b ((k, v) ∷ m) h above = (lt_trans a b k h above.0, Above-trans a b m h above.1)

  Above-insert :
      (a k : String) (v : V) (m : BTreeMap V)
      → str_cmp a k ≡ lt
      → Above a m
      → Above a (insert k v m)
  unfolding insert
  Above-insert a k v [] h above = (h, tt)
  Above-insert a k v ((j, w) ∷ m) h above = ground (arith, Above-insert a k v m)

  pub insert-IsOrdered :
      (k : String) (v : V) (m : BTreeMap V) → IsOrdered m → IsOrdered (insert k v m)
  unfolding insert
  insert-IsOrdered k v [] h = (tt, tt)
  insert-IsOrdered k v ((j, w) ∷ m) h = ground (
    arith,
    same_of_eq k j,
    lt_of_gt k j,
    Above-trans k j m,
    Above-insert j k v m,
    insert-IsOrdered k v m,
  )

abbrev pub BTreeSet : Type 0
BTreeSet = List String

unfoldable pub contains : BTreeSet → String → Bool
contains [] k = false
contains (j ∷ xs) k = str_eq j k || contains xs k

unfoldable pub set_insert : String → BTreeSet → BTreeSet
set_insert k [] = k ∷ []
set_insert k (j ∷ xs) = elim (str_cmp k j) [
  | lt ↦ k ∷ j ∷ xs
  | eq ↦ j ∷ xs
  | gt ↦ j ∷ set_insert k xs
]

pub contains-set_insert :
    (k j : String) (xs : BTreeSet) → contains (set_insert k xs) j ≡ (str_eq k j || contains xs j)
unfolding contains set_insert
contains-set_insert k j [] = refl
contains-set_insert k j (i ∷ xs) =
    ground (arith, eq_iff k j, eq_iff i j, same_of_eq k i, contains-set_insert k j xs)
