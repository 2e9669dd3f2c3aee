-- ===== src/Model/Objects.antt =====
-- What the program calls of `serde_json::Map`, a `BTreeMap` of the keys, and of arrays; and the derived
-- `PartialEq` of `Value`.
use Prim.Native.Nat.Ordering.{lt, eq, gt}
use wire_assume.Prelude.{
  str_eq, if◌then◌else◌, bool_eq, bool_eq_refl, str_cmp, is_some, String, ◌≡◌, refl, Bool, true,
  false, ◌&&◌, Option, none, some, List, [], ◌∷◌, arith, eq_refl,
}
use wire_assume.Model.Json.{
  Value, null, bool, number, string, array, object, Items, nil, cons, Fields, end, field,
}

unfoldable pub to_list : Items → List Value
to_list nil = []
to_list (cons x xs) = x ∷ to_list xs

unfoldable pub of_list : List Value → Items
of_list [] = nil
of_list (x ∷ xs) = cons x (of_list xs)

unfoldable pub keys : Fields → List String
keys end = []
keys (field k v fs) = k ∷ keys fs

unfoldable pub get_key : String → Fields → Option Value
get_key key end = none
get_key key (field k v fs) = let rest = get_key key fs in if str_eq k key then some v else rest

abbrev pub contains_key : String → Fields → Bool
contains_key key fs = is_some (get_key key fs)

-- The map without the key; `Map::remove` also returns what stood there.
unfoldable pub without_key : String → Fields → Fields
without_key key end = end
without_key key (field k v fs) =
    let rest = without_key key fs in if str_eq k key then fs else field k v rest

-- `Map::insert`, in the order of the keys.
unfoldable pub with_key : String → Value → Fields → Fields
with_key key value end = field key value end
with_key key value (field k v fs) =
    let rest = with_key key value fs in
    elim (str_cmp key k) [
      | lt ↦ field key value (field k v fs)
      | eq ↦ field k value fs
      | gt ↦ field k v rest
    ]

unfoldable mutual
  pub value_eq : Value → Value → Bool
  value_eq null null = true
  value_eq (bool a) (bool b) = bool_eq a b
  value_eq (number a) (number b) = str_eq a.text b.text && bool_eq a.is_integer b.is_integer
  value_eq (string a) (string b) = str_eq a b
  value_eq (array xs) (array ys) = items_eq xs ys
  value_eq (object fs) (object gs) = fields_eq fs gs
  value_eq _ _ = false

  pub items_eq : Items → Items → Bool
  items_eq nil nil = true
  items_eq (cons x xs) (cons y ys) = value_eq x y && items_eq xs ys
  items_eq _ _ = false

  pub fields_eq : Fields → Fields → Bool
  fields_eq end end = true
  fields_eq (field j v fs) (field k w gs) = str_eq j k && (value_eq v w && fields_eq fs gs)
  fields_eq _ _ = false

mutual
  unfolding value_eq

  pub value_eq_refl : (v : Value) → value_eq v v ≡ true
  value_eq_refl null = refl
  value_eq_refl (bool b) = bool_eq_refl b
  value_eq_refl (number n) = ground (arith, eq_refl n.text, bool_eq_refl n.is_integer)
  value_eq_refl (string s) = eq_refl s
  value_eq_refl (array xs) = items_eq_refl xs
  value_eq_refl (object fs) = fields_eq_refl fs

  pub items_eq_refl : (xs : Items) → items_eq xs xs ≡ true
  items_eq_refl nil = refl
  items_eq_refl (cons x xs) = ground (arith, value_eq_refl x, items_eq_refl xs)

  pub fields_eq_refl : (fs : Fields) → fields_eq fs fs ≡ true
  fields_eq_refl end = refl
  fields_eq_refl (field k v fs) = ground (arith, eq_refl k, value_eq_refl v, fields_eq_refl fs)
