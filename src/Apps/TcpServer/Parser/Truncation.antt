-- ===== src/Apps/TcpServer/Parser/Truncation.antt =====
-- On the port that `parser_open` of `tcp_server` reads.
use xerock.Base.{ℕ, ◌+◌, ◌%◌, ◌^◌, ◌<◌, ◌≡◌, ap, subst, true, none, some, Text, inl, inr, arith}
use xerock.Base.Run.{done}
use xerock.Json.{Json}
use xerock.Json.Fields.{Field, Field-unique}
use xerock.Asio.{Asio}
use xerock.Apps.TcpServer.Parser.{MessageOpen, secure_type, parser_open, parser_close}
use xerock.Apps.TcpServer.Parser.Open.{
  Opens, options_of-Options, secure_type-Selects, parser_open-Decides,
}
use xerock.Apps.TcpServer.Parser.Exact.{parser_close-Decides}

module _ ⦃J : Json⦄ where
  open J use {Value, is_object, is_string, is_uint, get_uint, get_string}

  Opens-port :
      {d p : Value} (n : ℕ) (m : MessageOpen)
      → Field is_uint d "port" p
      → get_uint p ≡ done n
      → Opens d m
      → m.port ≡ n % 2 ^ 16
  Opens-port n m fp e o =
      let same : o.3 ≡ n = cc (fp.0, o.5.0, o.8, e) in
      let cut = ap (λ (x : ℕ). x % 2 ^ 16) same in omega (arith, cut, o.11)

module _ ⦃J : Json⦄ ⦃N : Asio⦄ where
  open J use {Value, is_object, is_string, is_uint, get_uint, get_string}

  -- Where `data` has a port of 65536 + q, for q strictly between 1024 and 65536, and the texts
  -- `secure` and `addr`, `parser_open` returns a message with the port q, and `parser_close`
  -- returns none.
  pub parser_open_cuts_port :
      (doc d p s a : Value) (q : ℕ) (secure addr : Text)
      → is_object doc ≡ true
      → Field is_object doc "data" d
      → Field is_uint d "port" p
      → Field is_string d "secure" s
      → Field is_string d "addr" a
      → get_uint p ≡ done (65536 + q)
      → get_string s ≡ done secure
      → get_string a ≡ done addr
      → 1024 < q
      → q < 65536
      → ((m : MessageOpen) × (parser_open doc ≡ done (some m)) × (m.port ≡ q))
        × (parser_close doc ≡ done none)
  parser_open_cuts_port doc d p s a q secure addr h fd fp fs fa ep es ea lo hi = (opened, closed)
    where
      opened : (m : MessageOpen) × (parser_open doc ≡ done (some m)) × (m.port ≡ q)
      opened = elim (parser_open-Decides doc h) [
        | inl (m, (d', fd', o), e) ↦
            let o' : Opens d m =
              subst (λ v. Opens v m) (Field-unique is_object doc "data" fd' fd) o in
            (m, e, omega (arith, Opens-port (65536 + q) m fp ep o'))
        | inr (absent, e) ↦
            let (k, given, ek) = options_of-Options d fd.1 in
            absurd (
              absent (record { secure = secure_type secure; port = q; addr = addr; options = k })
                (
                  d,
                  fd,
                  (
                    p,
                    s,
                    a,
                    65536 + q,
                    secure,
                    fp,
                    fs,
                    fa,
                    ep,
                    es,
                    ea,
                    omega arith,
                    lo,
                    secure_type-Selects secure,
                    given,
                  ),
                ))
      ]

      closed : parser_close doc ≡ done none
      closed = elim (parser_close-Decides doc h) [
        | inr (absent, e) ↦ e
        | inl (m, (d', fd', n), e) ↦
            let same : m.endpoint.port ≡ 65536 + q = cc (fd.0, fd'.0, fp.0, n.3.0, n.5, ep) in
            absurd (omega (arith, same, n.9))
      ]
