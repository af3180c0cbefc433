-- ===== src/Json/Build.antt =====
-- RapidJSON as the program writes with it: values from texts, numbers and lists, `AddMember`, the
-- assignment to `operator[]`, and the printing and parsing of a document. A `Writer` is given the
-- keys and values of an object in turn, which `object` has as a list.
use text.Mathlib.Text.{◌==◌ as same_key}
use xerock.Base.{
  ℕ, ◌^◌, ◌<◌, ◌≡◌, Bool, true, false, Option, none, some, List, [], ◌∷◌, String, Text, ◌==◌,
  if◌then◌else◌,
}
use xerock.Base.Int.{ℤ}
use xerock.Base.Run.{Run, done, abort}
use xerock.Json.{Json}

-- The text up to its first zero byte, which `c_str()` shows to the library.
unfoldable pub c_str : Text → Text
c_str [] = []
c_str (c ∷ s) = if c == 0 then [] else c ∷ c_str s

-- The first member with the key, as `FindMember` searches.
unfoldable pub first_member {ℓ} : {V : Type ℓ} → String → List (String × V) → Option V
first_member k [] = none
first_member k ((j, v) ∷ fs) = if same_key j k then some v else first_member k fs

abbrev pub or_abort {ℓ} : {V : Type ℓ} → Option V → Run V
or_abort none = abort
or_abort (some v) = done v

abbrev pub is_some {ℓ} : {V : Type ℓ} → Option V → Bool
is_some none = false
is_some (some v) = true

pub record Build (J : Json) : Type 1 where
  -- A value from a text of C, an `int`, an unsigned number, a Boolean, and lists of these.
  pub str : Text → J.Value
  pub int : ℤ → J.Value
  pub uint : ℕ → J.Value
  pub bool : Bool → J.Value
  pub array : List J.Value → J.Value
  pub object : List (String × J.Value) → J.Value
  -- AddMember, and `doc[k] = v`, which asserts that the J.member is there.
  pub add_member : String → J.Value → J.Value → J.Value
  pub set_member : String → J.Value → J.Value → Run J.Value
  -- Parse(text), `none` if HasParseError(), and Accept(writer).
  pub parse : Text → Option J.Value
  pub print : J.Value → Text
  pub is_string-str : (s : Text) → J.is_string (str s) ≡ true
  pub get_string-str : (s : Text) → J.get_string (str s) ≡ done (c_str s)
  pub is_uint-uint : (n : ℕ) → n < 2 ^ 32 → J.is_uint (uint n) ≡ true
  pub get_uint-uint : (n : ℕ) → n < 2 ^ 32 → J.get_uint (uint n) ≡ done n
  pub is_uint64-uint : (n : ℕ) → n < 2 ^ 64 → J.is_uint64 (uint n) ≡ true
  pub get_uint64-uint : (n : ℕ) → n < 2 ^ 64 → J.get_uint64 (uint n) ≡ done n
  pub is_object-object : (fs : List (String × J.Value)) → J.is_object (object fs) ≡ true
  pub member-object :
      (fs : List (String × J.Value)) (k : String)
      → J.member (object fs) k ≡ or_abort (first_member k fs)
  pub has_member-object :
      (fs : List (String × J.Value)) (k : String)
      → J.has_member (object fs) k ≡ done (is_some (first_member k fs))
  pub is_object-add_member :
      (k : String) (v d : J.Value) → J.is_object d ≡ true → J.is_object (add_member k v d) ≡ true
  pub member-add_member :
      (j k : String) (v d : J.Value)
      → J.is_object d ≡ true
      → same_key j k ≡ false
      → J.member (add_member j v d) k ≡ J.member d k
  pub has_member-add_member :
      (j k : String) (v d : J.Value)
      → J.is_object d ≡ true
      → same_key j k ≡ false
      → J.has_member (add_member j v d) k ≡ J.has_member d k
  pub set_member-abort :
      (k : String) (v d : J.Value) → J.has_member d k ≡ done false → set_member k v d ≡ abort
  pub set_member-done :
      (k : String) (v d : J.Value)
      → J.is_object d ≡ true
      → J.has_member d k ≡ done true
      → (e : J.Value) × (set_member k v d ≡ done e)
        × (J.is_object e ≡ true)
        × (J.member e k ≡ done v)
        × ((j : String) → same_key k j ≡ false → J.member e j ≡ J.member d j)
