-- ===== src/Apps/Echo/Parser/Exact.antt =====
-- On the documents that `parser_echo` accepts.
use xerock.Base.{
  ℕ, ◌≡◌, refl, subst, true, false, Bool, some, List, [], Text, codes, text_eq_iff, arith, All,
  String, inl, inr, ◌⊎◌, Option-cases, Bool-cases,
}
use xerock.Base.Run.{done, Settles, Settles-and_then, Settles-Bool, Decides}
use xerock.Json.{Json}
use xerock.Json.Fields.{Field, With, Has, has_field-Settles}
use xerock.Json.Bytes.{json_2_byte_array}
use xerock.Json.Payload.{Numbers, cut, push_all-Numbers}
use xerock.Apps.InData.{parse_data-Decides}
use xerock.Apps.Echo.Parser.{
  EchoType, string, binary, hex, octo, EchoData, echo_type_of, check_echo_data, check_echo_message,
  get_echo_data, get_echo_message, parser_echo,
}

abbrev pub echo_type_text : EchoType → Text
echo_type_text string = codes "text"
echo_type_text binary = codes "binary"
echo_type_text hex = codes "hex"
echo_type_text octo = codes "octo"

echo_type_of-echo_type_text : (t : EchoType) → echo_type_of (echo_type_text t) ≡ some t
unfolding echo_type_of
echo_type_of-echo_type_text string = refl
echo_type_of-echo_type_text t = refl

echo_type_text-echo_type_of :
    (s : Text) (t : EchoType) → echo_type_of s ≡ some t → s ≡ echo_type_text t
unfolding echo_type_of
echo_type_text-echo_type_of s t h = ground (
  arith,
  text_eq_iff s (codes "text"),
  text_eq_iff s (codes "hex"),
  text_eq_iff s (codes "binary"),
  text_eq_iff s (codes "octo"),
)

module _ ⦃J : Json⦄ where
  open J use {
    Value, is_object, is_array, is_string, is_uint, has_member, member, elements, member_values,
    get_string, has_member-done, member-done, has_member-true, get_string-done, elements-done,
    member_values-done,
  }

  -- The elements of an array, the members of an object, or nothing.
  abbrev pub EchoBytes : Value → List ℕ → Type 0
  EchoBytes v bytes =
      ((is_array v ≡ true)
        × ((vs : List Value) × (ns : List ℕ) × (elements v ≡ done vs)
            × Numbers vs ns
            × (bytes ≡ cut ns)))
      ⊎ (((is_array v ≡ false)
            × (is_object v ≡ true)
            × ((vs : List Value) × (ns : List ℕ) × (member_values v ≡ done vs)
                × Numbers vs ns
                × (bytes ≡ cut ns)))
          ⊎ ((is_array v ≡ false) × (is_object v ≡ false) × (bytes ≡ [])))

  -- What stands in an array or an object is an unsigned number.
  abbrev pub AllUnsigned : Value → Type 0
  AllUnsigned v =
      (vs : List Value)
      → (elements v ≡ done vs) ⊎ (member_values v ≡ done vs)
      → All (λ w. is_uint w ≡ true) vs

  abbrev HasEcho : Value → Type 0
  HasEcho d =
      (is_object d ≡ true) × (Has is_string d "type" × ((v : Value) × (member d "data" ≡ done v)))

  -- The text of the type, and the payload.
  abbrev pub Echoes : Value → EchoData → Type 0
  Echoes d m =
      (is_object d ≡ true)
      × (With is_string d "type" (λ v. get_string v ≡ done (echo_type_text m.type))
          × ((v : Value) × (member d "data" ≡ done v) × EchoBytes v m.payload))

  has_member-Settles :
      (d : Value) (k : String)
      → is_object d ≡ true
      → Settles ((v : Value) × (member d k ≡ done v)) (has_member d k)
  has_member-Settles d k o = let (b, e) = has_member-done d k o in of b e
    where
      of :
          (b : Bool)
          → has_member d k ≡ done b
          → Settles ((v : Value) × (member d k ≡ done v)) (has_member d k)
      of true e = inl (member-done d k e, e)
      of false e = inr ((λ (v, f). cc (has_member-true d k v f, e)), e)

  check_echo_data-Settles :
      (d : Value) → is_object d ≡ true → Settles (HasEcho d) (check_echo_data d)
  unfolding check_echo_data
  check_echo_data-Settles d h = Settles-and_then (Settles-Bool (is_object d)) λ _.
      Settles-and_then (has_field-Settles is_string d "type" h) λ _. has_member-Settles d "data" h

  json_2_byte_array-EchoBytes :
      (v : Value)
      → AllUnsigned v
      → (b : Bool) × (bytes : List ℕ) × EchoBytes v bytes
        × (json_2_byte_array v [] ≡ done (b, bytes))
  unfolding json_2_byte_array
  json_2_byte_array-EchoBytes v unsigned = elim (Bool-cases (is_array v)) [
    | inl a ↦
        let (vs, e) = elements-done v a in
        let (ns, numbers, e') = push_all-Numbers vs [] (unsigned vs (inl e)) in
        (true, cut ns, inl (a, (vs, ns, e, numbers, refl)), rw (a, e, e'))
    | inr a ↦ elim (Bool-cases (is_object v)) [
      | inl o ↦
          let (vs, e) = member_values-done v o in
          let (ns, numbers, e') = push_all-Numbers vs [] (unsigned vs (inr e)) in
          (true, cut ns, inr (inl (a, o, (vs, ns, e, numbers, refl))), rw (a, o, e, e'))
      | inr o ↦ (false, [], inr (inr (a, o, refl)), rw (a, o))
    ]
  ]

  get_echo_message-Decides :
      (d : Value)
      → HasEcho d
      → ((v : Value) → member d "data" ≡ done v → AllUnsigned v)
      → Decides (Echoes d) (get_echo_message d)
  unfolding get_echo_message
  get_echo_message-Decides d (o, ((t, ft), (v, fv))) unsigned =
      let (s, e) = get_string-done t ft.1 in
      let (b, bytes, read, e') = json_2_byte_array-EchoBytes v (unsigned v fv) in
      elim (Option-cases (echo_type_of s)) [
        | inl unknown ↦ inr (
          (λ m q.
              let same : s ≡ echo_type_text m.type = cc (ft.0, e, q.1.0.1.0, q.1.0.2) in
              cc (same, unknown, echo_type_of-echo_type_text m.type)),
          rw (ft.0, e, unknown, get_echo_data),
        )
        | inr (x, known) ↦
            let same = echo_type_text-echo_type_of s x known in
            inl (
              record { type = x; payload = bytes },
              (o, ((t, ft, subst (λ r. get_string t ≡ done r) same e), (v, fv, read))),
              rw (ft.0, e, known, get_echo_data, fv, e'),
            )
      ]

  -- On a document that is an object, in which what stands in the array or object `data` of its
  -- member `data` is unsigned numbers, `parser_echo` fails no assertion, and it returns a message
  -- exactly when `data` is an object with one of the four types as the text `type`, and with any
  -- member `data`. The message has this type, and the numbers cut to bytes, or no bytes where the
  -- payload is neither an array nor an object: a text is not read.
  pub parser_echo-Decides :
      (doc : Value)
      → is_object doc ≡ true
      → ((d v : Value) → Field is_object doc "data" d → member d "data" ≡ done v → AllUnsigned v)
      → Decides (λ m. With is_object doc "data" (λ d. Echoes d m)) (parser_echo doc)
  unfolding parser_echo check_echo_message
  parser_echo-Decides doc h unsigned =
      parse_data-Decides HasEcho Echoes check_echo_data get_echo_message doc h
        check_echo_data-Settles (λ d f p. get_echo_message-Decides d p (λ v. unsigned d v f))
        (λ d m (o, ((t, ft, e), (v, fv, b))). (o, ((t, ft), (v, fv))))
