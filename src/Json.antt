-- ===== src/Json.antt =====
-- RapidJSON as the program uses it: the queries and the accessors of `rapidjson::Value`, which the
-- repository takes from third/ and does not contain. An accessor asserts its value's type, so it is
-- a `Run`. The laws state the documented pairing of a query with the accessor that it guards.
pub mod Fields
pub mod Bytes
pub mod Payload
pub mod Build
pub mod Tree
use xerock.Base.{ℕ, ◌^◌, ◌<◌, ◌≡◌, Bool, true, false, List, String, Text}
use xerock.Base.Int.{ℤ}
use xerock.Base.Run.{Run, done, abort}

pub record Json : Type 1 where
  pub Value : Type 0
  pub is_object : Value → Bool
  pub is_array : Value → Bool
  pub is_string : Value → Bool
  pub is_bool : Value → Bool
  pub is_int : Value → Bool
  pub is_uint : Value → Bool
  pub is_uint64 : Value → Bool
  -- HasMember(key) and operator[](key).
  pub has_member : Value → String → Run Bool
  pub member : Value → String → Run Value
  -- GetString() up to its first zero byte, as the program copies it.
  pub get_string : Value → Run Text
  pub get_bool : Value → Run Bool
  pub get_int : Value → Run ℤ
  pub get_uint : Value → Run ℕ
  pub get_uint64 : Value → Run ℕ
  -- Begin() to End(), and the values of MemberBegin() to MemberEnd().
  pub elements : Value → Run (List Value)
  pub member_values : Value → Run (List Value)
  pub has_member-done :
      (v : Value) (k : String) → is_object v ≡ true → (b : Bool) × (has_member v k ≡ done b)
  pub member-done :
      (v : Value) (k : String) → has_member v k ≡ done true → (w : Value) × (member v k ≡ done w)
  pub has_member-true :
      (v : Value) (k : String) (w : Value) → member v k ≡ done w → has_member v k ≡ done true
  pub get_string-done : (v : Value) → is_string v ≡ true → (s : Text) × (get_string v ≡ done s)
  pub get_bool-done : (v : Value) → is_bool v ≡ true → (b : Bool) × (get_bool v ≡ done b)
  pub get_int-done : (v : Value) → is_int v ≡ true → (n : ℤ) × (get_int v ≡ done n)
  pub get_uint-done :
      (v : Value) → is_uint v ≡ true → (n : ℕ) × (get_uint v ≡ done n) × (n < 2 ^ 32)
  pub get_uint-abort : (v : Value) → is_uint v ≡ false → get_uint v ≡ abort
  pub is_array-object : (v : Value) → is_object v ≡ true → is_array v ≡ false
  pub get_uint64-done :
      (v : Value) → is_uint64 v ≡ true → (n : ℕ) × (get_uint64 v ≡ done n) × (n < 2 ^ 64)
  pub elements-done : (v : Value) → is_array v ≡ true → (vs : List Value) × (elements v ≡ done vs)
  pub member_values-done :
      (v : Value) → is_object v ≡ true → (vs : List Value) × (member_values v ≡ done vs)
