-- ===== src/Apps/TcpServer/Parser/Data.antt =====
-- On the documents that `parser_data` of `tcp_server` accepts.
use xerock.Base.{ℕ, ◌≡◌, refl, subst, true, false, List, [], ◌∷◌, ◌++◌, inl, inr, Bool-cases}
use xerock.Base.Run.{done, abort, ◌>>=◌, Settles, Settles-and_then, Decides, Decides-check}
use xerock.Json.{Json}
use xerock.Json.Fields.{
  Field, Field-unique, With, Has, has_field-Settles, has_field-With, Decides-With,
}
use xerock.Json.Bytes.{read_bytes}
use xerock.Json.Payload.{
  is_payload, payload_text, Bytes, Unsigned, read_bytes-Bytes, read_bytes-abort,
}
use xerock.Asio.{Asio, Endpoint}
use xerock.Apps.Endpoint.{HasAddr, check_addr-Settles, Names, get_endpoint-Decides}
use xerock.Apps.TcpServer.Parser.{
  MessageData, check_clients, check_data, get_clients, get_data, parser_data,
}

module _ ⦃J : Json⦄ where
  open J use {Value, is_object, is_string, is_array, member, elements, elements-done}

  abbrev pub AreClients : List Value → Type 0
  AreClients [] = Unit
  AreClients (c ∷ cs) = (is_object c ≡ true) × (HasAddr c × AreClients cs)

  abbrev pub HasClients : Value → Type 0
  HasClients t = (vs : List Value) × (elements t ≡ done vs) × AreClients vs

  check_clients-Settles : (vs : List Value) → Settles (AreClients vs) (check_clients vs)
  unfolding check_clients
  check_clients-Settles [] = inl (tt, refl)
  check_clients-Settles (c ∷ cs) = elim (Bool-cases (is_object c)) [
    | inr e ↦ inr ((λ s. cc (s.0, e)), rw e)
    | inl o ↦ elim (Settles-and_then (check_addr-Settles c o) (λ _. check_clients-Settles cs)) [
      | inl (p, e) ↦ inl ((o, p), rw (o, e))
      | inr (absent, e) ↦ inr ((λ s. absent s.1), rw (o, e))
    ]
  ]

  HasClients-Settles :
      (t : Value)
      → is_array t ≡ true
      → Settles (HasClients t) (do vs ← elements t; check_clients vs)
  HasClients-Settles t h =
      let (vs, e) = elements-done t h in
      elim (check_clients-Settles vs) [
        | inl (p, e') ↦ inl ((vs, e, p), rw (e, e'))
        | inr (absent, e') ↦ inr (
          (λ s. let same : s.0 ≡ vs = cc (s.1, e) in absent (subst AreClients same s.2)),
          rw (e, e'),
        )
      ]

  check_data-Settles :
      (doc : Value)
      → is_object doc ≡ true
      → Settles
          (With is_object doc "data" λ d.
            With is_object d "from" HasAddr
            × (With is_array d "to" HasClients × Has is_payload d "data"))
          (check_data doc)
  unfolding check_data
  check_data-Settles doc h = has_field-With h λ d f.
      Settles-and_then (has_field-With f.1 λ s g. check_addr-Settles s g.1) λ _.
        Settles-and_then (has_field-With f.1 λ t g. HasClients-Settles t g.1)
          λ _. has_field-Settles is_payload d "data" f.1

module _ ⦃J : Json⦄ ⦃N : Asio⦄ where
  open J use {Value, is_object, is_string, is_array, is_uint, member, elements, member_values}

  -- The entries are objects that name these endpoints, in order.
  abbrev pub Clients : List Value → List Endpoint → Type 0
  Clients [] [] = Unit
  Clients [] (e ∷ es) = ⊥
  Clients (c ∷ cs) [] = ⊥
  Clients (c ∷ cs) (e ∷ es) = (is_object c ≡ true) × (Names c e × Clients cs es)

  abbrev pub ToClients : Value → List Endpoint → Type 0
  ToClients t es = (vs : List Value) × (elements t ≡ done vs) × Clients vs es

  abbrev pub DataOf : Value → MessageData → Type 0
  DataOf d m =
      With is_object d "from" (λ f. Names f m.from)
      × (With is_array d "to" (λ t. ToClients t m.to)
          × With is_payload d "data" (λ v. Bytes v m.payload))

  get_clients-Decides : (vs : List Value) → AreClients vs → Decides (Clients vs) (get_clients vs)
  unfolding get_clients
  get_clients-Decides [] h = inl ([], tt, refl)
  get_clients-Decides (c ∷ cs) (o, ((fa, fp), h)) = elim (get_endpoint-Decides fp.1 fa.1) [
    | inr (absent, e) ↦ inr ((λ es. no_head es absent), rw e)
    | inl (x, named, e) ↦ elim (get_clients-Decides cs h) [
      | inl (xs, named', e') ↦ inl (x ∷ xs, (o, (named, named')), rw (e, e'))
      | inr (absent, e') ↦ inr ((λ es. no_tail es absent), rw (e, e'))
    ]
  ]
    where
      no_head : (es : List Endpoint) → ((x : Endpoint) → ¬ Names c x) → ¬ Clients (c ∷ cs) es
      no_head [] absent s = s
      no_head (x ∷ xs) absent s = absent x s.1.0

      no_tail :
          (es : List Endpoint) → ((xs : List Endpoint) → ¬ Clients cs xs) → ¬ Clients (c ∷ cs) es
      no_tail [] absent s = s
      no_tail (x ∷ xs) absent s = absent xs s.1.1

  -- Before the payload is read.
  to-Decides :
      (t : Value) (vs : List Value)
      → elements t ≡ done vs
      → AreClients vs
      → Decides (ToClients t) (get_clients vs)
  to-Decides t vs e h = elim (get_clients-Decides vs h) [
    | inl (es, named, e') ↦ inl (es, (vs, e, named), e')
    | inr (absent, e') ↦ inr (
      (λ es s. let same : s.0 ≡ vs = cc (s.1, e) in absent es (subst (λ l. Clients l es) same s.2)),
      e',
    )
  ]

  module _ {d f t v : Value} (ff : Field is_object d "from" f) (hf : HasAddr f)
      (ft : Field is_array d "to" t) (ht : HasClients t) (fv : Field is_payload d "data" v) where
    from_unique : {e : Endpoint} → With is_object d "from" (λ f. Names f e) → Names f e
    from_unique {e} s = subst (λ w. Names w e) (Field-unique is_object d "from" s.1 ff) s.2

    to_unique : {es : List Endpoint} → With is_array d "to" (λ t. ToClients t es) → ToClients t es
    to_unique {es} s = subst (λ w. ToClients w es) (Field-unique is_array d "to" s.1 ft) s.2

    get_data-Decides :
        {bytes : List ℕ}
        → Bytes v bytes
        → read_bytes v ≡ done bytes
        → Decides (DataOf d) (get_data d)
    unfolding get_data
    get_data-Decides {bytes} read e = elim (get_endpoint-Decides hf.1.1 hf.0.1) [
      | inr (absent, e1) ↦ inr ((λ m s. absent m.from (from_unique s.0)), rw (ff.0, e1))
      | inl (x, named, e1) ↦ elim (to-Decides t ht.0 ht.1 ht.2) [
        | inr (absent, e2) ↦
            inr ((λ m s. absent m.to (to_unique s.1.0)), rw (ff.0, e1, ft.0, ht.1, e2))
        | inl (xs, named', e2) ↦ inl (
          record { from = x; to = xs; payload = bytes },
          ((f, ff, named), ((t, ft, named'), (v, fv, read))),
          rw (ff.0, e1, ft.0, ht.1, e2, fv.0, e),
        )
      ]
    ]

    -- The endpoints are read first, so a fault in the payload shows only behind valid ones.
    get_data-abort :
        {x : Endpoint} {xs : List Endpoint}
        → Names f x
        → ToClients t xs
        → read_bytes v ≡ abort
        → get_data d ≡ abort
    unfolding get_data
    get_data-abort {x} {xs} named named' e = elim (get_endpoint-Decides hf.1.1 hf.0.1) [
      | inr (absent, e1) ↦ absurd (absent x named)
      | inl (x', n, e1) ↦ elim (to-Decides t ht.0 ht.1 ht.2) [
        | inr (absent, e2) ↦ absurd (absent xs named')
        | inl (xs', n', e2) ↦ rw (ff.0, e1, ft.0, ht.1, e2, fv.0, e)
      ]
    ]

  Clients-AreClients : (vs : List Value) (es : List Endpoint) → Clients vs es → AreClients vs
  Clients-AreClients [] [] h = tt
  Clients-AreClients [] (e ∷ es) h = tt
  Clients-AreClients (c ∷ cs) [] h = absurd h
  Clients-AreClients (c ∷ cs) (e ∷ es) (o, (n, h)) =
      (o, (((n.1, n.4), (n.0, n.3)), Clients-AreClients cs es h))

  Names-HasAddr : (d : Value) (e : Endpoint) → Names d e → HasAddr d
  Names-HasAddr d e n = ((n.1, n.4), (n.0, n.3))

  -- On a document that is an object, in which the members of a payload that is an object are
  -- unsigned numbers, `parser_data` fails no assertion, and it returns a message exactly when
  -- `data` is an object in which the object `from` names an endpoint, `to` is an array of objects
  -- that name endpoints, and `data` is an object or a text. The message has these endpoints, in
  -- order, and the payload's numbers or characters cut to bytes.
  pub parser_data-Decides :
      (doc : Value)
      → is_object doc ≡ true
      → ((d v : Value) → Field is_object doc "data" d → Field is_payload d "data" v → Unsigned v)
      → Decides (λ m. With is_object doc "data" (λ d. DataOf d m)) (parser_data doc)
  unfolding parser_data
  parser_data-Decides doc h unsigned =
      Decides-check (check_data-Settles doc h)
        (λ (d, fd, ((f, ff, hf), ((t, ft, ht), (v, fv)))).
          let (bytes, read, e) = read_bytes-Bytes v (payload_text v fv.1) (unsigned d v fd fv) in
          Decides-With DataOf is_object doc "data" get_data d fd
            (get_data-Decides ff hf ft ht fv read e))
        (λ m (d, fd, ((f, ff, n), ((t, ft, c), (v, fv, b)))). (
          d,
          fd,
          (
            (f, ff, Names-HasAddr f m.from n),
            ((t, ft, (c.0, c.1, Clients-AreClients c.0 m.to c.2)), (v, fv)),
          ),
        ))

  -- Where `from` and `to` are as in an accepted message, and the payload is an object one of whose
  -- members is no unsigned number, `parser_data` fails an assertion: the daemon ends.
  pub parser_data-abort :
      (doc d v w : Value) (from : Endpoint) (to : List Endpoint) (before after : List Value)
      → is_object doc ≡ true
      → Field is_object doc "data" d
      → With is_object d "from" (λ f. Names f from)
      → With is_array d "to" (λ t. ToClients t to)
      → Field is_object d "data" v
      → member_values v ≡ done (before ++ w ∷ after)
      → is_uint w ≡ false
      → parser_data doc ≡ abort
  unfolding parser_data
  parser_data-abort doc d v w from to before after h fd (f, ff, n) (t, ft, c) fv e bad =
      let hf = Names-HasAddr f from n in
      let ht : HasClients t = (c.0, c.1, Clients-AreClients c.0 to c.2) in
      let fp : Field is_payload d "data" v = (fv.0, rw fv.1) in
      elim (check_data-Settles doc h) [
        | inr (absent, e') ↦ absurd (absent (d, fd, ((f, ff, hf), ((t, ft, ht), (v, fp)))))
        | inl (p, e') ↦
            rw (e', fd.0)
              (get_data-abort ff hf ft ht fp n c (read_bytes-abort v before w after fv.1 e bad))
      ]
