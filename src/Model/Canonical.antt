-- ===== src/Model/Canonical.antt =====
-- crates/model/src/canonical.rs: the canonical form of JSON and the identifiers made from it.
-- `serde_json::to_value` and `to_vec`, and the digest of sha2 and hex, are parameters.
use wire_assume.Prelude.{
  Result, ok, ◌>>=◌, str_cmp, sort_by, BTreeMap, insert, ◌++ₛ◌, ℕ, Ordering, String, List, [], ◌∷◌,
}
use Prim.Native.String.{slice}
use wire_assume.Model.Json.{Value, array, object, Items, nil, cons, Fields, end, field}

unfoldable pub entries : Fields → List (String × Value)
entries end = []
entries (field k v fs) = (k, v) ∷ entries fs

unfoldable pub of_entries : List (String × Value) → Fields
of_entries [] = end
of_entries ((k, v) ∷ m) = field k v (of_entries m)

-- `Map::insert` of every entry in turn, into an empty map: a `BTreeMap`, without `preserve_order`.
unfoldable pub insert_all : List (String × Value) → BTreeMap Value → BTreeMap Value
insert_all [] m = m
insert_all ((k, v) ∷ es) m = insert_all es (insert k v m)

abbrev key_cmp : String × Value → String × Value → Ordering
key_cmp (a, _) (b, _) = str_cmp a b

unfoldable mutual
  pub sort_value : Value → Value
  sort_value (object fs) = object (of_entries (insert_all (sort_by key_cmp (sort_fields fs)) []))
  sort_value (array xs) = array (sort_items xs)
  sort_value scalar = scalar

  pub sort_items : Items → Items
  sort_items nil = nil
  sort_items (cons x xs) = cons (sort_value x) (sort_items xs)

  -- The entries with their values sorted; the sort by key does not look at the values.
  pub sort_fields : Fields → List (String × Value)
  sort_fields end = []
  sort_fields (field k v fs) = (k, sort_value v) ∷ sort_fields fs

-- What serde_json, sha2 and hex do. A digest in hexadecimal has 64 characters.
pub record Serde (E : Type 0) : Type 0 where
  pub to_vec : Value → Result E (List ℕ)
  pub sha256_hex : List ℕ → String

module _ {E T : Type 0} (serde : Serde E) (to_value : T → Result E Value) where
  unfoldable pub canonical_json : T → Result E (List ℕ)
  canonical_json t = do value ← to_value t; serde.to_vec (sort_value value)

  unfoldable pub stable_hash : T → Result E String
  unfolding canonical_json
  stable_hash t = do bytes ← canonical_json t; ok (serde.sha256_hex bytes)

  -- `format!("{prefix}_{}", &hash[..20])`
  unfoldable pub stable_id : String → T → Result E String
  unfolding stable_hash
  stable_id prefix t = do hash ← stable_hash t; ok (prefix ++ₛ "_" ++ₛ slice hash 0 20)
