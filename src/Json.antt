-- ===== src/Json.antt =====
-- nlohmann::json (outside this repository) as an interface: building objects, `dump`, `parse`, and
-- `value(key, default)`, which gives the default for a missing key and throws (`none`) for a field
-- of another type or a value that is no object.
use iriseus.Prelude.{ℕ, ◌≡◌, Bytes, Bool, Option, none, some, bytes_eq}
use iriseus.Prelude.Assoc.{Assoc, lookup}

pub record JsonLib : Type 1 where
  pub Json : Type 0
  pub object : Assoc Bytes Json → Json
  pub string : Bytes → Json
  pub number : ℕ → Json
  pub boolean : Bool → Json
  pub dump : Json → Bytes
  pub parse : Bytes → Option Json
  pub value_string : Json → Bytes → Bytes → Option Bytes
  pub value_number : Json → Bytes → ℕ → Option ℕ
  pub value_bool : Json → Bytes → Bool → Option Bool
  pub value_string_lem :
      (fields : Assoc Bytes Json) (key d s : Bytes)
      → lookup key fields ≡ some (string s)
      → value_string (object fields) key d ≡ some s
  pub value_string_missing :
      (fields : Assoc Bytes Json) (key d : Bytes)
      → lookup key fields ≡ none
      → value_string (object fields) key d ≡ some d
  pub value_number_lem :
      (fields : Assoc Bytes Json) (key : Bytes) (d n : ℕ)
      → lookup key fields ≡ some (number n)
      → value_number (object fields) key d ≡ some n
  pub value_bool_lem :
      (fields : Assoc Bytes Json) (key : Bytes) (d b : Bool)
      → lookup key fields ≡ some (boolean b)
      → value_bool (object fields) key d ≡ some b
