-- ===== src/Prelude/Weak.antt =====
-- Comparisons by a key and one after the other, as the closures of `sort_by` make them.
use Prim.Native.Nat.{Ordering}
use Prim.Native.Nat.Ordering.{lt, eq, gt}
use mathlib.Core.Path.{◌≡◌}
use mathlib.Core.Logic.{◌≢◌}
use native.Mathlib.Omega.{arith}
use wire_assume.Prelude.Order.{IsTotalOrder, then_cmp}

-- An order in which different elements may be equal.
pub record IsWeakOrder {A : Type 0} (cmp : A → A → Ordering) : Type 0 where
  pub alike : (x : A) → cmp x x ≡ eq
  pub below : (x y : A) → cmp x y ≡ gt → cmp y x ≡ lt
  pub chain : (x y z : A) → cmp x y ≡ lt → cmp y z ≡ lt → cmp x z ≡ lt
  pub same_left : (x y z : A) → cmp x y ≡ eq → cmp x z ≡ cmp y z
  pub same_right : (x y z : A) → cmp y z ≡ eq → cmp x z ≡ cmp x y

module _ {A K : Type 0} (cmp : K → K → Ordering) (order : IsTotalOrder cmp) (key : A → K) where
  pub by_key-IsWeakOrder : IsWeakOrder (λ x y. cmp (key x) (key y))
  by_key-IsWeakOrder = record {
    alike = λ x. order.cmp_self (key x);
    below = λ x y. order.lt_of_gt (key x) (key y);
    chain = λ x y z. order.lt_trans (key x) (key y) (key z);
    same_left = λ x y z h. cc (order.same_of_eq (key x) (key y) h);
    same_right = λ x y z h. cc (order.same_of_eq (key y) (key z) h);
  }

module _ {A : Type 0} (first second : A → A → Ordering) (f : IsWeakOrder first)
    (s : IsWeakOrder second) where
  eq_back : (x y : A) → first x y ≡ eq → first y x ≡ eq
  eq_back x y h = cc (f.same_left x y x h, f.alike x)

  pub then-IsWeakOrder : IsWeakOrder (λ x y. then_cmp (first x y) (second x y))
  then-IsWeakOrder = record {
    alike = λ x. ground (arith, f.alike x, s.alike x);
    below = λ x y h. ground (arith, f.below x y, s.below x y, eq_back x y);
    chain = λ x y z h k.
        ground (arith, f.chain x y z, s.chain x y z, f.same_left x y z, f.same_right x y z);
    same_left = λ x y z h. ground (arith, f.same_left x y z, s.same_left x y z);
    same_right = λ x y z h. ground (arith, f.same_right x y z, s.same_right x y z);
  }

module _ {A : Type 0} (cmp : A → A → Ordering) (order : IsWeakOrder cmp) where
  pub above_trans : (x y z : A) → cmp x y ≢ gt → cmp y z ≢ gt → cmp x z ≢ gt
  above_trans x y z h k =
      ground (arith, order.chain x y z, order.same_left x y z, order.same_right x y z)

  pub below-total : (x y : A) → cmp x y ≡ gt → cmp y x ≢ gt
  below-total x y h = ground (arith, order.below x y)
