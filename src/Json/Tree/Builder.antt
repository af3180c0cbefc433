-- ===== src/Json/Tree/Builder.antt =====
-- The small JSON library as one that writes documents. It prints nothing, and parses to one value.
use text.Mathlib.Text.{◌==◌ as same_key}
use text.Mathlib.TextEquality.{eq_iff}
use xerock.Base.{
  ℕ, ◌^◌, ◌<◌, ◌≡◌, refl, ◌∙◌, ap, true, false, Option, none, some, List, [], ◌∷◌, String, Text,
  arith, if◌then◌else◌, Bool-cases, inl, inr,
}
use xerock.Base.Int.{ℤ, pos, negsuc}
use xerock.Base.Run.{Run, done, abort}
use xerock.Json.Build.{Build, c_str, first_member, or_abort, is_some}
use xerock.Json.Tree.{
  Tree, null, bool, num, str, array, object, Items, nil, cons, Fields, end, field, tree, find,
  found, or_abort as tree_or_abort,
}

pub of_items : List Tree → Items
of_items [] = nil
of_items (t ∷ ts) = cons t (of_items ts)

unfoldable pub of_fields : List (String × Tree) → Fields
of_fields [] = end
of_fields ((k, t) ∷ fs) = field k t (of_fields fs)

pub find-of_fields :
    (fs : List (String × Tree)) (k : String) → find k (of_fields fs) ≡ first_member k fs
unfolding of_fields first_member
find-of_fields [] k = refl
find-of_fields ((j, t) ∷ fs) k = rw (find-of_fields fs k)

pub same_or_abort : (o : Option Tree) → tree_or_abort o ≡ or_abort o
same_or_abort none = refl
same_or_abort (some t) = refl

pub same_found : (o : Option Tree) → found o ≡ is_some o
same_found none = refl
same_found (some t) = refl

abbrev pub append_field : String → Tree → Fields → Fields
append_field k v end = field k v end
append_field k v (field j t fs) = field j t (append_field k v fs)

abbrev pub replace_field : String → Tree → Fields → Fields
replace_field k v end = end
replace_field k v (field j t fs) =
    if same_key j k then field j v fs else field j t (replace_field k v fs)

find-append_field :
    (j k : String) (v : Tree) (fs : Fields)
    → same_key j k ≡ false
    → find k (append_field j v fs) ≡ find k fs
find-append_field j k v end h = rw h
find-append_field j k v (field i t fs) h = rw (find-append_field j k v fs h)

abbrev add_member : String → Tree → Tree → Tree
add_member k v (object fs) = object (append_field k v fs)
add_member k v _ = null

abbrev set_member : String → Tree → Tree → Run Tree
set_member k v (object fs) =
    if found (find k fs) then done (object (replace_field k v fs)) else abort
set_member k v _ = abort

find-replace_here :
    (k : String) (v : Tree) (fs : Fields)
    → found (find k fs) ≡ true
    → find k (replace_field k v fs) ≡ some v
find-replace_here k v end h = cc
find-replace_here k v (field i t fs) h = elim (Bool-cases (same_key i k)) [
  | inl e ↦ rw (e, e)
  | inr e ↦ rw (e, e) (find-replace_here k v fs (rw e at h))
]

find-replace_other :
    (k j : String) (v : Tree) (fs : Fields)
    → same_key k j ≡ false
    → find j (replace_field k v fs) ≡ find j fs
find-replace_other k j v end h = refl
find-replace_other k j v (field i t fs) h = elim (Bool-cases (same_key i k)) [
  | inl e ↦ let other : same_key i j ≡ false = rw ((eq_iff i k).0 e) h in rw (e, other)
  | inr e ↦ rw (e, find-replace_other k j v fs h)
]

abbrev int : ℤ → Tree
int (pos n) = num n
int (negsuc n) = null

pub is_object-add_member :
    (k : String) (v d : Tree) → tree.is_object d ≡ true → tree.is_object (add_member k v d) ≡ true
is_object-add_member k v (object fs) h = refl
is_object-add_member k v _ h = cc

pub member-add_member :
    (j k : String) (v d : Tree)
    → tree.is_object d ≡ true
    → same_key j k ≡ false
    → tree.member (add_member j v d) k ≡ tree.member d k
member-add_member j k v (object fs) o h = ap tree_or_abort (find-append_field j k v fs h)
member-add_member j k v _ o h = cc

pub has_member-add_member :
    (j k : String) (v d : Tree)
    → tree.is_object d ≡ true
    → same_key j k ≡ false
    → tree.has_member (add_member j v d) k ≡ tree.has_member d k
has_member-add_member j k v (object fs) o h =
    ap (λ x. done (found x)) (find-append_field j k v fs h)
has_member-add_member j k v _ o h = cc

pub set_member-abort :
    (k : String) (v d : Tree) → tree.has_member d k ≡ done false → set_member k v d ≡ abort
set_member-abort k v (object fs) h = let absent : found (find k fs) ≡ false = cc h in rw absent
set_member-abort k v _ h = refl

pub set_member-done :
    (k : String) (v d : Tree)
    → tree.is_object d ≡ true
    → tree.has_member d k ≡ done true
    → (e : Tree) × (set_member k v d ≡ done e)
      × (tree.is_object e ≡ true)
      × (tree.member e k ≡ done v)
      × ((j : String) → same_key k j ≡ false → tree.member e j ≡ tree.member d j)
set_member-done k v (object fs) o h =
    let present : found (find k fs) ≡ true = cc h in
    (
      object (replace_field k v fs),
      rw present,
      refl,
      ap tree_or_abort (find-replace_here k v fs present),
      λ j e. ap tree_or_abort (find-replace_other k j v fs e),
    )
set_member-done k v _ o h = cc

pub is_uint-num : (n : ℕ) → n < 2 ^ 32 → tree.is_uint (num n) ≡ true
is_uint-num n h = ground arith

pub get_uint-num : (n : ℕ) → n < 2 ^ 32 → tree.get_uint (num n) ≡ done n
get_uint-num n h = ground arith

pub is_uint64-num : (n : ℕ) → n < 2 ^ 64 → tree.is_uint64 (num n) ≡ true
is_uint64-num n h = ground arith

pub get_uint64-num : (n : ℕ) → n < 2 ^ 64 → tree.get_uint64 (num n) ≡ done n
get_uint64-num n h = ground arith

-- The library with this parser.
abbrev pub builder_with : (Text → Option Tree) → Build tree
builder_with parser = record {
  str = λ s. str (c_str s);
  int = int;
  uint = num;
  bool = bool;
  array = λ ts. array (of_items ts);
  object = λ fs. object (of_fields fs);
  add_member = add_member;
  set_member = set_member;
  parse = parser;
  print = λ t. [];
  is_string-str = λ s. refl;
  get_string-str = λ s. refl;
  is_uint-uint = is_uint-num;
  get_uint-uint = get_uint-num;
  is_uint64-uint = is_uint64-num;
  get_uint64-uint = get_uint64-num;
  is_object-object = λ fs. refl;
  member-object =
      λ fs k. ap tree_or_abort (find-of_fields fs k) ∙ same_or_abort (first_member k fs);
  has_member-object = λ fs k.
      ap (λ o. done (found o)) (find-of_fields fs k) ∙ ap done (same_found (first_member k fs));
  is_object-add_member = is_object-add_member;
  member-add_member = member-add_member;
  has_member-add_member = has_member-add_member;
  set_member-abort = set_member-abort;
  set_member-done = set_member-done;
}

instance abbrev pub builder : Build tree
builder = builder_with (λ s. none)
