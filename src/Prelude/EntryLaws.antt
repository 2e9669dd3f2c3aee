-- ===== src/Prelude/EntryLaws.antt =====
-- What holds of every entry of a `BTreeMap`.
use Prim.Native.String.{String}
use mathlib.Core.Path.{◌≡◌, subst}
use mathlib.Core.Option.{some}
use mathlib.Core.List.{[], ◌∷◌}
use native.Mathlib.Omega.{arith}
use text.Mathlib.TextEquality.{eq_iff}
use wire_assume.Prelude.Tests.{str_eq, Bool-cases}
use wire_assume.Prelude.Order.{str_cmp, Ordering-cases, str_cmp-IsTotalOrder}
use wire_assume.Prelude.Maps.{BTreeMap, get, insert, Above, IsOrdered}
use mathlib.Core.Logic.{inl, inr}
open str_cmp-IsTotalOrder use {cmp_self}

module _ {V : Type 0} (P : String → V → Type 0) where
  abbrev pub Entries : BTreeMap V → Type 0
  Entries [] = Unit
  Entries ((k, v) ∷ m) = P k v × Entries m

  pub Entries-insert :
      (k : String) (v : V) (m : BTreeMap V) → P k v → Entries m → Entries (insert k v m)
  unfolding insert
  Entries-insert k v [] p all = (p, tt)
  Entries-insert k v ((j, w) ∷ m) p all = elim (Ordering-cases (str_cmp k j)) [
    | inl above ↦ rw (above, insert) (all.0, Entries-insert k v m p all.1)
    | inr (inl below) ↦ rw (below, insert) (p, all)
    | inr (inr same) ↦ rw (same, insert) (p, all.1)
  ]

  pub Entries-get : (k : String) (m : BTreeMap V) {v : V} → Entries m → get k m ≡ some v → P k v
  unfolding get
  Entries-get k [] all e = cc
  Entries-get k ((j, w) ∷ m) {v} all e = elim (Bool-cases (str_eq j k)) [
    | inl same ↦
        let value : w ≡ v = ground arith in
        subst (λ i. P i v) ((eq_iff j k).0 same) (subst (P j) value all.0)
    | inr other ↦ Entries-get k m all.1 (rw other at e)
  ]

pub Entries-and :
    {V : Type 0} (P Q : String → V → Type 0) (m : BTreeMap V)
    → Entries P m
    → Entries Q m
    → Entries (λ k v. P k v × Q k v) m
Entries-and P Q [] p q = tt
Entries-and P Q ((k, v) ∷ m) p q = ((p.0, q.0), Entries-and P Q m p.1 q.1)

pub Entries-all : {V : Type 0} (m : BTreeMap V) → Entries (λ _ _. Unit) m
Entries-all [] = tt
Entries-all ((k, v) ∷ m) = (tt, Entries-all m)

pub Entries-mp :
    {V : Type 0} (P Q : String → V → Type 0) (m : BTreeMap V)
    → ((k : String) (v : V) → P k v → Q k v)
    → Entries P m
    → Entries Q m
Entries-mp P Q [] f p = tt
Entries-mp P Q ((k, v) ∷ m) f p = (f k v p.0, Entries-mp P Q m f p.1)

module _ {V : Type 0} where
  Above-get :
      (j : String) (w : V) (M m : BTreeMap V)
      → Above j m
      → Entries (λ k v. get k M ≡ some v) m
      → Entries (λ k v. get k ((j, w) ∷ M) ≡ some v) m
  unfolding get
  Above-get j w M [] above found = tt
  Above-get j w M ((k, v) ∷ m) above found =
      (ground (arith, eq_iff j k, cmp_self j, above.0, found.0), Above-get j w M m above.1 found.1)

  -- Each entry of an ordered map is found under its key.
  pub Entries-found : (m : BTreeMap V) → IsOrdered m → Entries (λ k v. get k m ≡ some v) m
  unfolding get
  Entries-found [] h = tt
  Entries-found ((k, v) ∷ m) h =
      (ground (arith, eq_iff k k), Above-get k v m m h.0 (Entries-found m h.1))
