-- ===== src/Apps/TcpServer/Parser/Open.antt =====
-- On the documents that `parser_open` of `tcp_server` accepts.
use xerock.Base.{
  ℕ, ◌%◌, ◌^◌, ◌<◌, ◌≡◌, ◌≢◌, refl, ap, true, Option, some, String, Text, inl, inr, ◌⊎◌, arith,
  codes, text_eq, text_eq_iff, Bool-cases,
}
use xerock.Base.Int.{ℤ}
use xerock.Base.Run.{done, Settles, Settles-and_then, Decides, Decides-check}
use xerock.Json.{Json}
use xerock.Json.Fields.{Field, With, Has, has_field-Settles, has_field-With, Decides-With}
use xerock.Apps.Endpoint.{is_valid_port, valid_lem, invalid_lem}
use xerock.Apps.TcpServer.Parser.{
  SecureType, plain, ssl, KeepAlive, MessageOpen, default_options, secure_type, check_open,
  check_keepalive, get_keepalive, options_of, get_open, parser_open,
}

-- The text of `secure` selects SSL exactly if it is "ssl".
abbrev pub Selects : Text → SecureType → Type 0
Selects s ssl = s ≡ codes "ssl"
Selects s plain = s ≢ codes "ssl"

pub secure_type-Selects : (s : Text) → Selects s (secure_type s)
secure_type-Selects s = elim (Bool-cases (text_eq s (codes "ssl"))) [
  | inl e ↦ rw e ((text_eq_iff s (codes "ssl")).0 e)
  | inr e ↦ rw e (λ q. cc ((text_eq_iff s (codes "ssl")).1 q, e))
]

module _ ⦃J : Json⦄ where
  open J use {
    Value, is_object, is_string, is_uint, is_bool, is_int, member, get_bool, get_int, get_uint,
    get_string, get_bool-done, get_int-done, get_uint-done, get_string-done,
  }

  abbrev pub IntAt : Value → String → Option ℤ → Type 0
  IntAt o k x = With is_int o k (λ v. (n : ℤ) × (get_int v ≡ done n) × (x ≡ some n))

  -- `options` is an object that has the four options, of the right types, with these values.
  abbrev pub Given : Value → KeepAlive → Type 0
  Given d k = With is_object d "options" λ o.
      With is_bool o "keepalive" (λ v. get_bool v ≡ done k.keep_alive)
      × IntAt o "idle" k.idle
      × IntAt o "interval" k.interval
      × IntAt o "count" k.count

  -- The options are given in full, or they are the default.
  abbrev pub Options : Value → KeepAlive → Type 0
  Options d k = Given d k ⊎ (((k' : KeepAlive) → ¬ Given d k') × (k ≡ default_options))

  abbrev pub Opens : Value → MessageOpen → Type 0
  Opens d m =
      (p s a : Value) × (n : ℕ) × (secure : Text) × Field is_uint d "port" p
      × Field is_string d "secure" s
      × Field is_string d "addr" a
      × (get_uint p ≡ done n)
      × (get_string s ≡ done secure)
      × (get_string a ≡ done m.addr)
      × (m.port ≡ n % 2 ^ 16)
      × (1024 < m.port)
      × Selects secure m.secure
      × Options d m.options

  check_keepalive-Settles :
      (d : Value)
      → is_object d ≡ true
      → Settles
          (With is_object d "options" λ o.
            Has is_bool o "keepalive"
            × (Has is_int o "idle" × (Has is_int o "interval" × Has is_int o "count")))
          (check_keepalive d)
  unfolding check_keepalive
  check_keepalive-Settles d h = has_field-With h λ o f.
      Settles-and_then (has_field-Settles is_bool o "keepalive" f.1) λ _.
        Settles-and_then (has_field-Settles is_int o "idle" f.1) λ _.
          Settles-and_then (has_field-Settles is_int o "interval" f.1)
            λ _. has_field-Settles is_int o "count" f.1

  check_open-Settles :
      (doc : Value)
      → is_object doc ≡ true
      → Settles
          (With is_object doc "data"
            λ d. Has is_uint d "port" × (Has is_string d "secure" × Has is_string d "addr"))
          (check_open doc)
  unfolding check_open
  check_open-Settles doc h = has_field-With h λ d f.
      Settles-and_then (has_field-Settles is_uint d "port" f.1) λ _.
        Settles-and_then (has_field-Settles is_string d "secure" f.1)
          λ _. has_field-Settles is_string d "addr" f.1

  get_keepalive-Given :
      (d o b i n c : Value)
      → Field is_object d "options" o
      → Field is_bool o "keepalive" b
      → Field is_int o "idle" i
      → Field is_int o "interval" n
      → Field is_int o "count" c
      → (k : KeepAlive) × Given d k × (get_keepalive o ≡ done k)
  unfolding get_keepalive
  get_keepalive-Given d o b i n c fo fb fi fn fc =
      let (vb, eb) = get_bool-done b fb.1 in
      let (vi, ei) = get_int-done i fi.1 in
      let (vn, en) = get_int-done n fn.1 in
      let (vc, ec) = get_int-done c fc.1 in
      (
        record { keep_alive = vb; idle = some vi; interval = some vn; count = some vc },
        (
          o,
          fo,
          ((b, fb, eb), (i, fi, (vi, ei, refl)), (n, fn, (vn, en, refl)), (c, fc, (vc, ec, refl))),
        ),
        rw (fb.0, eb, fi.0, ei, fn.0, en, fc.0, ec),
      )

  pub options_of-Options :
      (d : Value) → is_object d ≡ true → (k : KeepAlive) × Options d k × (options_of d ≡ done k)
  unfolding options_of
  options_of-Options d h = elim (check_keepalive-Settles d h) [
    | inr (absent, e) ↦ (
      default_options,
      inr (
        (λ k g. absent (
          g.0,
          g.1,
          ((g.2.0.0, g.2.0.1), ((g.2.1.0, g.2.1.1), ((g.2.2.0, g.2.2.1), (g.2.3.0, g.2.3.1)))),
        )),
        refl,
      ),
      rw e,
    )
    | inl ((o, fo, ((b, fb), ((i, fi), ((n, fn), (c, fc))))), e) ↦
        let (k, g, ek) = get_keepalive-Given d o b i n c fo fb fi fn fc in
        (k, inl g, rw (e, fo.0, ek))
  ]

  get_open-Decides :
      (d p s a : Value)
      → is_object d ≡ true
      → Field is_uint d "port" p
      → Field is_string d "secure" s
      → Field is_string d "addr" a
      → Decides (Opens d) (get_open d)
  unfolding get_open
  get_open-Decides d p s a h fp fs fa =
      let (n, en, bound) = get_uint-done p fp.1 in
      let (ts, es) = get_string-done s fs.1 in
      let (ta, ea) = get_string-done a fa.1 in
      let (k, o, ek) = options_of-Options d h in
      elim (Bool-cases (is_valid_port (n % 2 ^ 16))) [
        | inl good ↦ inl (
          record { secure = secure_type ts; port = n % 2 ^ 16; addr = ta; options = k },
          (
            p,
            s,
            a,
            n,
            ts,
            fp,
            fs,
            fa,
            en,
            es,
            ea,
            refl,
            (valid_lem _ good).0,
            secure_type-Selects ts,
            o,
          ),
          rw (fp.0, en, good, fs.0, es, fa.0, ea, ek),
        )
        | inr bad ↦ inr (
          (λ m q.
              let same : q.3 ≡ n = cc (fp.0, en, q.5.0, q.8) in
              let cut = ap (λ (x : ℕ). x % 2 ^ 16) same in
              invalid_lem (n % 2 ^ 16) bad (omega (arith, q.11, q.12, cut)) (omega arith)),
          rw (fp.0, en, bad),
        )
      ]

  -- On a document that is an object `parser_open` fails no assertion, and it returns a message
  -- exactly when `data` is an object with an unsigned `port`, whose remainder by 65536 is above
  -- 1024, and the texts `secure` and `addr`. The message has that remainder as its port, SSL
  -- exactly for the text "ssl", the address unread, and the options if all four are given.
  pub parser_open-Decides :
      (doc : Value)
      → is_object doc ≡ true
      → Decides (λ m. With is_object doc "data" (λ d. Opens d m)) (parser_open doc)
  unfolding parser_open
  parser_open-Decides doc h =
      Decides-check (check_open-Settles doc h)
        (λ (d, f, ((p, fp), ((s, fs), (a, fa)))).
          Decides-With Opens is_object doc "data" get_open d f
            (get_open-Decides d p s a f.1 fp fs fa))
        (λ m (d, f, s). (d, f, ((s.0, s.5), ((s.1, s.6), (s.2, s.7)))))
