-- ===== src/Apps/TcpClient/Parser/Open.antt =====
-- On the documents that `parser_open` of `tcp_client` accepts.
use xerock.Base.{
  ℕ, ◌%◌, ◌^◌, ◌<◌, ◌≡◌, refl, ap, true, Option, some, String, Text, inl, inr, ◌⊎◌, arith,
  Bool-cases, Option-cases,
}
use xerock.Base.Int.{ℤ, to_int32}
use xerock.Base.Run.{done, Settles, Settles-and_then, Decides}
use xerock.Json.{Json}
use xerock.Json.Fields.{Field, With, Has, has_field-Settles, has_field-With}
use xerock.Asio.{Asio}
use xerock.Apps.Endpoint.{is_valid_port, valid_lem, invalid_lem, make_endpoint}
use xerock.Apps.InData.{parse_data-Decides}
use xerock.Apps.TcpServer.Parser.{KeepAlive, default_options, secure_type}
use xerock.Apps.TcpServer.Parser.Open.{Selects, secure_type-Selects}
use xerock.Apps.TcpClient.Parser.{
  MessageOpen, check_open_data, check_open, check_keepalive, get_keepalive, options_of, open_at,
  get_open, parser_open,
}

module _ ⦃J : Json⦄ where
  open J use {
    Value, is_object, is_string, is_uint, is_bool, member, get_bool, get_uint, get_string,
    get_bool-done, get_uint-done, get_string-done,
  }

  -- The unsigned member k, as a 32-bit signed number.
  abbrev pub UintAt : Value → String → Option ℤ → Type 0
  UintAt o k x = With is_uint o k (λ v. (n : ℕ) × (get_uint v ≡ done n) × (x ≡ some (to_int32 n)))

  -- `options` is an object that has the four options, of the right types, with these values.
  abbrev pub Given : Value → KeepAlive → Type 0
  Given d k = With is_object d "options" λ o.
      With is_bool o "keepalive" (λ v. get_bool v ≡ done k.keep_alive)
      × UintAt o "idle" k.idle
      × UintAt o "interval" k.interval
      × UintAt o "count" k.count

  -- The options are given in full, or they are the default.
  abbrev pub Options : Value → KeepAlive → Type 0
  Options d k = Given d k ⊎ (((k' : KeepAlive) → ¬ Given d k') × (k ≡ default_options))

  abbrev HasOptions : Value → Type 0
  HasOptions d = With is_object d "options" λ o.
      Has is_bool o "keepalive"
      × (Has is_uint o "idle" × (Has is_uint o "interval" × Has is_uint o "count"))

  abbrev HasOpen : Value → Type 0
  HasOpen d = Has is_uint d "port" × (Has is_string d "secure" × Has is_string d "addr")

  check_keepalive-Settles :
      (d : Value) → is_object d ≡ true → Settles (HasOptions d) (check_keepalive d)
  unfolding check_keepalive
  check_keepalive-Settles d h = has_field-With h λ o f.
      Settles-and_then (has_field-Settles is_bool o "keepalive" f.1) λ _.
        Settles-and_then (has_field-Settles is_uint o "idle" f.1) λ _.
          Settles-and_then (has_field-Settles is_uint o "interval" f.1)
            λ _. has_field-Settles is_uint o "count" f.1

  check_open_data-Settles :
      (d : Value) → is_object d ≡ true → Settles (HasOpen d) (check_open_data d)
  unfolding check_open_data
  check_open_data-Settles d h = Settles-and_then (has_field-Settles is_uint d "port" h) λ _.
      Settles-and_then (has_field-Settles is_string d "secure" h)
        λ _. has_field-Settles is_string d "addr" h

  get_keepalive-Given :
      (d o b i n c : Value)
      → Field is_object d "options" o
      → Field is_bool o "keepalive" b
      → Field is_uint o "idle" i
      → Field is_uint o "interval" n
      → Field is_uint o "count" c
      → (k : KeepAlive) × Given d k × (get_keepalive o ≡ done k)
  unfolding get_keepalive
  get_keepalive-Given d o b i n c fo fb fi fn fc =
      let (vb, eb) = get_bool-done b fb.1 in
      let (vi, ei, bi) = get_uint-done i fi.1 in
      let (vn, en, bn) = get_uint-done n fn.1 in
      let (vc, ec, bc) = get_uint-done c fc.1 in
      (
        record {
          keep_alive = vb;
          idle = some (to_int32 vi);
          interval = some (to_int32 vn);
          count = some (to_int32 vc);
        },
        (
          o,
          fo,
          ((b, fb, eb), (i, fi, (vi, ei, refl)), (n, fn, (vn, en, refl)), (c, fc, (vc, ec, refl))),
        ),
        rw (fb.0, eb, fi.0, ei, fn.0, en, fc.0, ec),
      )

  Given-HasOptions : (d : Value) (k : KeepAlive) → Given d k → HasOptions d
  Given-HasOptions d k (o, fo, (b, i, n, c)) =
      (o, fo, ((b.0, b.1), ((i.0, i.1), ((n.0, n.1), (c.0, c.1)))))

  options_of-Options :
      (d : Value) → is_object d ≡ true → (k : KeepAlive) × Options d k × (options_of d ≡ done k)
  unfolding options_of
  options_of-Options d h = elim (check_keepalive-Settles d h) [
    | inr (absent, e) ↦
        (default_options, inr ((λ k g. absent (Given-HasOptions d k g)), refl), rw e)
    | inl ((o, fo, ((b, fb), ((i, fi), ((n, fn), (c, fc))))), e) ↦
        let (k, g, ek) = get_keepalive-Given d o b i n c fo fb fi fn fc in
        (k, inl g, rw (e, fo.0, ek))
  ]

module _ ⦃J : Json⦄ ⦃N : Asio⦄ where
  open J use {
    Value, is_object, is_string, is_uint, get_uint, get_string, get_uint-done, get_string-done,
  }
  open N use {make_address}

  abbrev pub Opens : Value → MessageOpen → Type 0
  Opens d m =
      (p s a : Value) × (n : ℕ) × (secure addr : Text) × Field is_uint d "port" p
      × Field is_string d "secure" s
      × Field is_string d "addr" a
      × (get_uint p ≡ done n)
      × (get_string s ≡ done secure)
      × (get_string a ≡ done addr)
      × (make_address addr ≡ some m.remote.address)
      × (m.remote.port ≡ n % 2 ^ 16)
      × (1024 < m.remote.port)
      × Selects secure m.secure
      × Options d m.options

  module _ {d p s a : Value} (fp : Field is_uint d "port" p) (fs : Field is_string d "secure" s)
      (fa : Field is_string d "addr" a) where
    Opens-port :
        (m : MessageOpen) (n : ℕ) → get_uint p ≡ done n → Opens d m → m.remote.port ≡ n % 2 ^ 16
    Opens-port m n en q =
        let same : q.3 ≡ n = cc (fp.0, q.6.0, q.9, en) in
        let cut = ap (λ (x : ℕ). x % 2 ^ 16) same in omega (arith, cut, q.13)

    Opens-address :
        (m : MessageOpen) (t : Text)
        → get_string a ≡ done t
        → Opens d m
        → make_address t ≡ some m.remote.address
    Opens-address m t et q = cc (fa.0, q.8.0, q.11, q.12, et)

    get_open-Decides : is_object d ≡ true → Decides (Opens d) (get_open d)
    unfolding get_open
    get_open-Decides h =
        let (n, en, bound) = get_uint-done p fp.1 in
        let (ts, es) = get_string-done s fs.1 in
        let (ta, ea) = get_string-done a fa.1 in
        elim (Bool-cases (is_valid_port (n % 2 ^ 16))) [
          | inr bad ↦ inr (
            (λ m q.
                let same = Opens-port m n en q in
                invalid_lem (n % 2 ^ 16) bad (omega (arith, q.14)) (omega arith)),
            rw (fp.0, en, bad),
          )
          | inl good ↦ elim (Option-cases (make_address ta)) [
            | inl e ↦ inr (
              (λ m q. cc (Opens-address m ta ea q, e)),
              rw (fp.0, en, good, fs.0, es, fa.0, ea, e, make_endpoint, open_at),
            )
            | inr (x, e) ↦
                let (k, o, ek) = options_of-Options d h in
                inl (
                  record {
                    secure = secure_type ts;
                    remote = record { address = x; port = n % 2 ^ 16 };
                    options = k;
                  },
                  (
                    p,
                    s,
                    a,
                    n,
                    ts,
                    ta,
                    fp,
                    fs,
                    fa,
                    en,
                    es,
                    ea,
                    e,
                    refl,
                    (valid_lem _ good).0,
                    secure_type-Selects ts,
                    o,
                  ),
                  rw (fp.0, en, good, fs.0, es, fa.0, ea, e, make_endpoint, open_at, ek),
                )
          ]
        ]

  -- On a document that is an object `parser_open` of `tcp_client` fails no assertion, and it
  -- returns a message exactly when `data` is an object with an unsigned `port`, whose remainder by
  -- 65536 is above 1024, the text `secure`, and the text of an address as `addr`. The message has
  -- that address and remainder, SSL exactly for the text "ssl", and the options if all four are
  -- given, each number as its 32-bit signed one.
  pub tcp_client_open-Decides :
      (doc : Value)
      → is_object doc ≡ true
      → Decides (λ m. With is_object doc "data" (λ d. Opens d m)) (parser_open doc)
  unfolding parser_open check_open
  tcp_client_open-Decides doc h =
      parse_data-Decides HasOpen Opens check_open_data get_open doc h check_open_data-Settles
        (λ d f ((p, fp), ((s, fs), (a, fa))). get_open-Decides fp fs fa f.1)
        (λ d m q. ((q.0, q.6), ((q.1, q.7), (q.2, q.8))))
