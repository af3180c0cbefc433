-- ===== src/Apps/Serial/Parser/Config.antt =====
-- On the configurations that `parser_serial_config` accepts.
use xerock.Base.{ℕ, ◌%◌, ◌≡◌, refl, subst, true, Option, none, some, String, inl, inr}
use xerock.Base.Run.{done, abort, Settles, Settles-and_then, Settles-Bool, Decides}
use xerock.Json.{Json}
use xerock.Json.Fields.{Field, With, Has, has_field, has_field-Settles, has_field-With}
use xerock.Apps.InData.{parse_data-Decides}
use xerock.Apps.Serial.Parser.{
  SerialConfig, check_config_data, check_serial_config_message, get_serial_config,
  parser_serial_config,
}
use xerock.Apps.Serial.Parser.Codes.{
  stop_bits_code, parity_code, flow_control_code, stop_bits_of-Reads, parity_of-Reads,
  flow_control_of-Reads,
}

module _ ⦃J : Json⦄ where
  open J use {
    Value, is_object, is_string, is_uint, get_uint, get_string, get_uint-done, get_string-done,
  }

  -- The unsigned member k is a number that satisfies Q.
  abbrev pub UintAt : Value → String → (ℕ → Type 0) → Type 0
  UintAt d k Q = With is_uint d k (λ v. (n : ℕ) × (get_uint v ≡ done n) × Q n)

  UintAt-at :
      {d v : Value} {k : String} {n : ℕ} (Q : ℕ → Type 0)
      → Field is_uint d k v
      → get_uint v ≡ done n
      → UintAt d k Q
      → Q n
  UintAt-at {n = n} Q f e (w, g, (x, e', q)) =
      let same : x ≡ n = cc (f.0, e, g.0, e') in subst Q same q

  -- The shape of a configuration.
  abbrev pub HasConfig : Value → Type 0
  HasConfig d =
      (is_object d ≡ true)
      × (Has is_string d "port"
          × (Has is_uint d "baudrate"
              × (Has is_uint d "parity"
                  × (Has is_uint d "stopbit"
                      × (Has is_uint d "char_size"
                          × (Has is_uint d "flow_control"
                              × (Has is_uint d "fc_start" × Has is_uint d "fc_stop")))))))

  check_config_data-Settles :
      (d : Value) → is_object d ≡ true → Settles (HasConfig d) (check_config_data d)
  unfolding check_config_data
  check_config_data-Settles d h = Settles-and_then (Settles-Bool (is_object d)) λ _.
      Settles-and_then (has_field-Settles is_string d "port" h) λ _.
        Settles-and_then (number "baudrate") λ _. Settles-and_then (number "parity") λ _.
          Settles-and_then (number "stopbit") λ _. Settles-and_then (number "char_size") λ _.
            Settles-and_then (number "flow_control")
              λ _. Settles-and_then (number "fc_start") λ _. number "fc_stop"
    where
      number : (k : String) → Settles (Has is_uint d k) (has_field is_uint d k)
      number k = has_field-Settles is_uint d k h

module _ ⦃J : Json⦄ (character_size : ℕ → Option ℕ) where
  open J use {
    Value, is_object, is_string, is_uint, get_uint, get_string, get_uint-done, get_string-done,
  }

  -- The members of a configuration, each number as the code of what it stands for.
  abbrev pub Configures : Value → SerialConfig → Type 0
  Configures d m =
      (is_object d ≡ true)
      × (With is_string d "port" (λ v. get_string v ≡ done m.port)
          × (UintAt d "baudrate" (λ n. m.baud ≡ n)
              × (UintAt d "parity" (λ n. n ≡ parity_code m.parity)
                  × (UintAt d "stopbit" (λ n. n ≡ stop_bits_code m.stopbits)
                      × (UintAt d "char_size" (λ n. character_size n ≡ some m.char_size)
                          × (UintAt d "flow_control" (λ n. n ≡ flow_control_code m.fc)
                              × (UintAt d "fc_start" (λ n. m.fc_start ≡ n % 256)
                                  × UintAt d "fc_stop" (λ n. m.fc_stop ≡ n % 256))))))))

  -- The size of characters is one that the library supports.
  abbrev pub Supported : Value → Type 0
  Supported d =
      (v : Value) (n : ℕ)
      → Field is_uint d "char_size" v
      → get_uint v ≡ done n
      → (c : ℕ) × (character_size n ≡ some c)

  get_serial_config-Decides :
      (d : Value)
      → HasConfig d
      → Supported d
      → Decides (Configures d) (get_serial_config character_size d)
  unfolding get_serial_config
  get_serial_config-Decides d
        (o, ((p, fp), ((b, fb), ((y, fy), ((s, fs), ((z, fz), ((f, ff), ((u, fu), (w, fw)))))))))
        supported =
      let (tp, ep) = get_string-done p fp.1 in
      let (nb, eb, bb) = get_uint-done b fb.1 in
      let (ny, ey, by) = get_uint-done y fy.1 in
      let (ns, es, bs) = get_uint-done s fs.1 in
      let (nz, ez, bz) = get_uint-done z fz.1 in
      let (nf, ef, bf) = get_uint-done f ff.1 in
      let (nu, eu, bu) = get_uint-done u fu.1 in
      let (nw, ew, bw) = get_uint-done w fw.1 in
      let (c, ec) = supported z nz fz ez in
      elim (stop_bits_of-Reads ns) [
        | inr (bad, other) ↦ inr (
          (λ m q.
              other m.stopbits (UintAt-at (λ n. n ≡ stop_bits_code m.stopbits) fs es q.1.1.1.1.0)),
          rw (fp.0, ep, fb.0, eb, fz.0, ez, ec, fs.0, es, bad),
        )
        | inl (stop, good_stop, is_stop) ↦ elim (parity_of-Reads ny) [
          | inr (bad, other) ↦ inr (
            (λ m q. other m.parity (UintAt-at (λ n. n ≡ parity_code m.parity) fy ey q.1.1.1.0)),
            rw (fp.0, ep, fb.0, eb, fz.0, ez, ec, fs.0, es, good_stop, fy.0, ey, bad),
          )
          | inl (parity, good_parity, is_parity) ↦ elim (flow_control_of-Reads nf) [
            | inr (bad, other) ↦ inr (
              (λ m q.
                  other m.fc (UintAt-at (λ n. n ≡ flow_control_code m.fc) ff ef q.1.1.1.1.1.1.0)),
              rw (
                fp.0, ep, fb.0, eb, fz.0, ez, ec, fs.0, es, good_stop, fy.0, ey, good_parity, ff.0,
                ef, bad,
              ),
            )
            | inl (fc, good_fc, is_fc) ↦ inl (
              record {
                port = tp;
                baud = nb;
                char_size = c;
                parity = parity;
                stopbits = stop;
                fc = fc;
                fc_start = nu % 256;
                fc_stop = nw % 256;
              },
              (
                o,
                (
                  (p, fp, ep),
                  (
                    (b, fb, (nb, eb, refl)),
                    (
                      (y, fy, (ny, ey, is_parity)),
                      (
                        (s, fs, (ns, es, is_stop)),
                        (
                          (z, fz, (nz, ez, ec)),
                          (
                            (f, ff, (nf, ef, is_fc)),
                            ((u, fu, (nu, eu, refl)), (w, fw, (nw, ew, refl))),
                          ),
                        ),
                      ),
                    ),
                  ),
                ),
              ),
              rw (
                fp.0, ep, fb.0, eb, fz.0, ez, ec, fs.0, es, good_stop, fy.0, ey, good_parity, ff.0,
                ef, good_fc, fu.0, eu, fw.0, ew,
              ),
            )
          ]
        ]
      ]

  Configures-HasConfig : (d : Value) (m : SerialConfig) → Configures d m → HasConfig d
  Configures-HasConfig d m (o, (p, (b, (y, (s, (z, (f, (u, w)))))))) = (
    o,
    (
      (p.0, p.1),
      (
        (b.0, b.1),
        ((y.0, y.1), ((s.0, s.1), ((z.0, z.1), ((f.0, f.1), ((u.0, u.1), (w.0, w.1)))))),
      ),
    ),
  )

  -- On a document that is an object, whose `char_size` is one that the library supports,
  -- `parser_serial_config` fails no assertion, and it returns a configuration exactly when `data`
  -- is an object with the text `port` and seven unsigned numbers, of which `parity`, `stopbit` and
  -- `flow_control` are codes of the protocol: 0, 1, 2 for none, odd, even; for 1, 1.5 and 2 bits;
  -- for none, software, hardware. The configuration has what they stand for, and the characters of
  -- the flow control cut to bytes.
  pub parser_serial_config-Decides :
      (doc : Value)
      → is_object doc ≡ true
      → ((d : Value) → Field is_object doc "data" d → Supported d)
      → Decides
          (λ m. With is_object doc "data" (λ d. Configures d m))
          (parser_serial_config character_size doc)
  unfolding parser_serial_config check_serial_config_message
  parser_serial_config-Decides doc h supported =
      parse_data-Decides HasConfig Configures check_config_data (get_serial_config character_size)
        doc h check_config_data-Settles (λ d f c. get_serial_config-Decides d c (supported d f))
        Configures-HasConfig

  get_serial_config-abort :
      (d z : Value) (n : ℕ)
      → HasConfig d
      → Field is_uint d "char_size" z
      → get_uint z ≡ done n
      → character_size n ≡ none
      → get_serial_config character_size d ≡ abort
  unfolding get_serial_config
  get_serial_config-abort d z n (o, ((p, fp), ((b, fb), rest))) fz e bad =
      let (tp, ep) = get_string-done p fp.1 in
      let (nb, eb, bb) = get_uint-done b fb.1 in rw (fp.0, ep, fb.0, eb, fz.0, e, bad)

  -- Where `data` has the shape of a configuration, and its `char_size` is a number that the library
  -- rejects, the exception leaves `parser_serial_config`.
  pub parser_serial_config-throws :
      (doc d z : Value) (n : ℕ)
      → is_object doc ≡ true
      → Field is_object doc "data" d
      → HasConfig d
      → Field is_uint d "char_size" z
      → get_uint z ≡ done n
      → character_size n ≡ none
      → parser_serial_config character_size doc ≡ abort
  unfolding parser_serial_config check_serial_config_message
  parser_serial_config-throws doc d z n h f c fz e bad =
      elim (has_field-With {k = "data"} {Q = HasConfig} {next = check_config_data} h
        λ d f. check_config_data-Settles d f.1) [
          | inr (absent, e') ↦ absurd (absent (d, f, c))
          | inl (p, e') ↦ rw (e', f.0, get_serial_config-abort d z n c fz e bad)
        ]
