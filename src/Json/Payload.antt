-- ===== src/Json/Payload.antt =====
-- On what `read_bytes` reads.
use mathlib.Core.List.{append_assoc}
use xerock.Base.{
  ℕ, ◌%◌, ◌≡◌, refl, ap, ◌∙◌, true, false, List, [], ◌∷◌, ◌++◌, map, All, Bool, ◌||◌, arith, inl,
  inr, ◌⊎◌, Text, Bool-cases, append-nil,
}
use xerock.Base.Run.{done, abort}
use xerock.Json.{Json}
use xerock.ByteArray.{copy}
use xerock.Json.Bytes.{push_all, read_bytes}

abbrev pub cut : List ℕ → List ℕ
cut = map (λ n. n % 256)

copy-cut : (s : Text) → copy s ≡ cut s
unfolding copy
copy-cut [] = refl
copy-cut (c ∷ s) = ap (λ t. (c % 256) ∷ t) (copy-cut s)

module _ ⦃J : Json⦄ where
  open J use {
    Value, is_object, is_array, is_uint, get_uint, get_string, member_values, get_uint-done,
    get_uint-abort, member_values-done, is_array-object, is_string, get_string-done,
  }

  -- What a payload may be.
  abbrev pub is_payload : Value → Bool
  is_payload v = is_object v || is_string v

  pub payload_text : (v : Value) → is_payload v ≡ true → is_object v ≡ false → is_string v ≡ true
  payload_text v h o = ground arith

  -- The values are these unsigned numbers.
  abbrev pub Numbers : List Value → List ℕ → Type 0
  Numbers [] [] = Unit
  Numbers [] (n ∷ ns) = ⊥
  Numbers (v ∷ vs) [] = ⊥
  Numbers (v ∷ vs) (n ∷ ns) = (get_uint v ≡ done n) × Numbers vs ns

  -- The payload: the members of an object, cut to bytes, or the characters of a text.
  abbrev pub Bytes : Value → List ℕ → Type 0
  Bytes v bytes =
      ((is_object v ≡ true)
        × ((vs : List Value) × (ns : List ℕ) × (member_values v ≡ done vs)
            × Numbers vs ns
            × (bytes ≡ cut ns)))
      ⊎ ((is_object v ≡ false) × ((s : Text) × (get_string v ≡ done s) × (bytes ≡ cut s)))

  -- Every member of an object is an unsigned number.
  abbrev pub Unsigned : Value → Type 0
  Unsigned v =
      (vs : List Value)
      → is_object v ≡ true
      → member_values v ≡ done vs
      → All (λ w. is_uint w ≡ true) vs

  pub push_all-Numbers :
      (vs : List Value) (bytes : List ℕ)
      → All (λ w. is_uint w ≡ true) vs
      → (ns : List ℕ) × Numbers vs ns × (push_all vs bytes ≡ done (bytes ++ cut ns))
  unfolding push_all
  push_all-Numbers [] bytes h = ([], tt, rw (append-nil bytes))
  push_all-Numbers (v ∷ vs) bytes h =
      let (n, e, bound) = get_uint-done v h.0 in
      let (ns, numbers, e') = push_all-Numbers vs (bytes ++ (n % 256) ∷ []) h.1 in
      (n ∷ ns, (e, numbers), rw e (e' ∙ ap done (append_assoc bytes ((n % 256) ∷ []) (cut ns))))

  push_all-abort :
      (before : List Value) (w : Value) (after : List Value) (bytes : List ℕ)
      → is_uint w ≡ false
      → push_all (before ++ w ∷ after) bytes ≡ abort
  unfolding push_all
  push_all-abort [] w after bytes h = rw (get_uint-abort w h)
  push_all-abort (v ∷ before) w after bytes h = elim (Bool-cases (is_uint v)) [
    | inr no_number ↦ rw (get_uint-abort v no_number)
    | inl number ↦
        let (n, e, bound) = get_uint-done v number in
        rw e (push_all-abort before w after (bytes ++ (n % 256) ∷ []) h)
  ]

  -- A member that is no unsigned number fails the assertion of `GetUint`.
  pub read_bytes-abort :
      (v : Value) (before : List Value) (w : Value) (after : List Value)
      → is_object v ≡ true
      → member_values v ≡ done (before ++ w ∷ after)
      → is_uint w ≡ false
      → read_bytes v ≡ abort
  unfolding read_bytes
  read_bytes-abort v before w after o e h =
      rw (o, is_array-object v o, e, push_all-abort before w after [] h)

  pub read_bytes-Bytes :
      (v : Value)
      → (is_object v ≡ false → is_string v ≡ true)
      → Unsigned v
      → (bytes : List ℕ) × Bytes v bytes × (read_bytes v ≡ done bytes)
  unfolding read_bytes
  read_bytes-Bytes v text unsigned = elim (Bool-cases (is_object v)) [
    | inl o ↦
        let (vs, e) = member_values-done v o in
        let (ns, numbers, e') = push_all-Numbers vs [] (unsigned vs o e) in
        (cut ns, inl (o, (vs, ns, e, numbers, refl)), rw (o, is_array-object v o, e, e'))
    | inr o ↦
        let (s, e) = get_string-done v (text o) in
        (cut s, inr (o, (s, e, refl)), rw (o, e, copy-cut s))
  ]
