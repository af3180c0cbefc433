-- ===== src/Json/Tree.antt =====
-- A small JSON library that satisfies the laws of `Json`: the instance that tests use.
pub mod Builder
use xerock.Base.{
  ℕ, ◌^◌, ◌<◌, ◌≡◌, refl, Bool, true, false, Option, none, some, List, [], ◌∷◌, String, Text, ltb,
  arith, if◌then◌else◌,
}
use text.Mathlib.Text.{◌==◌}
use xerock.Base.Int.{ℤ, pos}
use xerock.Base.Run.{Run, done, abort, ◌>>=◌}
use xerock.Json.{Json}

mutual
  pub data Tree : Type 0 where
    null : Tree
    bool : Bool → Tree
    num : ℕ → Tree
    str : Text → Tree
    array : Items → Tree
    object : Fields → Tree

  pub data Items : Type 0 where
    nil : Items
    cons : Tree → Items → Items

  pub data Fields : Type 0 where
    end : Fields
    field : String → Tree → Fields → Fields

abbrev items : Items → List Tree
items nil = []
items (cons t ts) = t ∷ items ts

abbrev values : Fields → List Tree
values end = []
values (field k t fs) = t ∷ values fs

abbrev pub find : String → Fields → Option Tree
find k end = none
find k (field j t fs) = if j == k then some t else find k fs

abbrev pub found : Option Tree → Bool
found none = false
found (some t) = true

abbrev pub or_abort : Option Tree → Run Tree
or_abort none = abort
or_abort (some t) = done t

abbrev is_object : Tree → Bool
is_object (object fs) = true
is_object _ = false

abbrev is_array : Tree → Bool
is_array (array ts) = true
is_array _ = false

abbrev is_string : Tree → Bool
is_string (str s) = true
is_string _ = false

abbrev is_bool : Tree → Bool
is_bool (bool b) = true
is_bool _ = false

abbrev is_number : ℕ → Tree → Bool
is_number w (num n) = ltb n (2 ^ w)
is_number w _ = false

abbrev has_member : Tree → String → Run Bool
has_member (object fs) k = done (found (find k fs))
has_member _ k = abort

abbrev member : Tree → String → Run Tree
member (object fs) k = or_abort (find k fs)
member _ k = abort

abbrev get_string : Tree → Run Text
get_string (str s) = done s
get_string _ = abort

abbrev get_bool : Tree → Run Bool
get_bool (bool b) = done b
get_bool _ = abort

abbrev get_number : ℕ → Tree → Run ℕ
get_number w (num n) = if ltb n (2 ^ w) then done n else abort
get_number w _ = abort

abbrev elements : Tree → Run (List Tree)
elements (array ts) = done (items ts)
elements _ = abort

abbrev member_values : Tree → Run (List Tree)
member_values (object fs) = done (values fs)
member_values _ = abort

abbrev get_int : Tree → Run ℤ
get_int v = do n ← get_number 31 v; done (pos n)

pub has_member-done :
    (v : Tree) (k : String) → is_object v ≡ true → (b : Bool) × (has_member v k ≡ done b)
has_member-done (object fs) k h = (found (find k fs), refl)
has_member-done _ k h = cc

found_lem : (o : Option Tree) → done (found o) ≡ done true → (w : Tree) × (or_abort o ≡ done w)
found_lem none h = cc
found_lem (some t) h = (t, refl)

pub member-done :
    (v : Tree) (k : String) → has_member v k ≡ done true → (w : Tree) × (member v k ≡ done w)
member-done (object fs) k h = found_lem (find k fs) h
member-done _ k h = cc

or_abort_lem : (o : Option Tree) (w : Tree) → or_abort o ≡ done w → done (found o) ≡ done true
or_abort_lem none w h = cc
or_abort_lem (some t) w h = refl

pub has_member-true :
    (v : Tree) (k : String) (w : Tree) → member v k ≡ done w → has_member v k ≡ done true
has_member-true (object fs) k w h = or_abort_lem (find k fs) w h
has_member-true _ k w h = cc

pub get_string-done : (v : Tree) → is_string v ≡ true → (s : Text) × (get_string v ≡ done s)
get_string-done (str s) h = (s, refl)
get_string-done _ h = cc

pub get_bool-done : (v : Tree) → is_bool v ≡ true → (b : Bool) × (get_bool v ≡ done b)
get_bool-done (bool b) h = (b, refl)
get_bool-done _ h = cc

pub get_number-done :
    (w : ℕ) (v : Tree) → is_number w v ≡ true → (n : ℕ) × (get_number w v ≡ done n) × (n < 2 ^ w)
get_number-done w (num n) h = (n, rw h, ground arith)
get_number-done w _ h = cc

pub get_number-abort : (w : ℕ) (v : Tree) → is_number w v ≡ false → get_number w v ≡ abort
get_number-abort w (num n) h = rw h
get_number-abort w _ h = refl

pub get_int-done : (v : Tree) → is_number 31 v ≡ true → (n : ℤ) × (get_int v ≡ done n)
get_int-done v h = let (n, e, _) = get_number-done 31 v h in (pos n, rw e)

pub is_array-object : (v : Tree) → is_object v ≡ true → is_array v ≡ false
is_array-object (object fs) h = refl
is_array-object (array ts) h = cc
is_array-object _ h = refl

pub elements-done : (v : Tree) → is_array v ≡ true → (vs : List Tree) × (elements v ≡ done vs)
elements-done (array ts) h = (items ts, refl)
elements-done _ h = cc

pub member_values-done :
    (v : Tree) → is_object v ≡ true → (vs : List Tree) × (member_values v ≡ done vs)
member_values-done (object fs) h = (values fs, refl)
member_values-done _ h = cc

instance abbrev pub tree : Json
tree = record {
  Value = Tree;
  is_object = is_object;
  is_array = is_array;
  is_string = is_string;
  is_bool = is_bool;
  is_int = is_number 31;
  is_uint = is_number 32;
  is_uint64 = is_number 64;
  has_member = has_member;
  member = member;
  get_string = get_string;
  get_bool = get_bool;
  get_int = get_int;
  get_uint = get_number 32;
  get_uint64 = get_number 64;
  elements = elements;
  member_values = member_values;
  has_member-done = has_member-done;
  member-done = member-done;
  has_member-true = has_member-true;
  get_string-done = get_string-done;
  get_bool-done = get_bool-done;
  get_int-done = get_int-done;
  get_uint-done = get_number-done 32;
  get_uint-abort = get_number-abort 32;
  is_array-object = is_array-object;
  get_uint64-done = get_number-done 64;
  elements-done = elements-done;
  member_values-done = member_values-done;
}
