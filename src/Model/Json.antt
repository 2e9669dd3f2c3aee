-- ===== src/Model/Json.antt =====
-- The JSON values of serde_json, by the constructors that the program matches on.
use wire_assume.Prelude.{Bool, String}

-- What the program reads of a `serde_json::Number`: its text, and `is_i64() || is_u64()`.
pub record Number : Type 0 where
  pub text : String
  pub is_integer : Bool

-- An array's items and an object's fields stand in the block: a type cannot hold a list of itself.
mutual
  pub data Value : Type 0 where
    null : Value
    bool : Bool → Value
    number : Number → Value
    string : String → Value
    array : Items → Value
    object : Fields → Value

  pub data Items : Type 0 where
    nil : Items
    cons : Value → Items → Items

  pub data Fields : Type 0 where
    end : Fields
    field : String → Value → Fields → Fields
