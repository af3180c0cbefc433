-- ===== src/Apps/Serial/Parser/Data.antt =====
-- On the documents that the other parsers of `serial` accept.
use xerock.Base.{ℕ, ◌≡◌, true, some, List, Text, inl}
use xerock.Base.Run.{done, ◌>>=◌, Settles, Settles-and_then, Settles-Bool, Decides, Decides-check}
use xerock.Json.{Json}
use xerock.Json.Fields.{
  Field, With, Has, has_field-Settles, has_field-With, read_string, Decides-With,
}
use xerock.Json.Payload.{is_payload, payload_text, Bytes, Unsigned, read_bytes-Bytes}
use xerock.Apps.Serial.Parser.{
  check_serial_close_message, check_serial_data, get_serial_data, parser_serial_close,
  parser_serial_data,
}

module _ ⦃J : Json⦄ where
  open J use {Value, is_object, is_string, member, get_string, get_string-done}

  -- The text port of the object.
  abbrev pub PortOf : Value → Text → Type 0
  PortOf d t = With is_string d "port" (λ v. get_string v ≡ done t)

  abbrev pub SerialData : Value → Text × List ℕ → Type 0
  SerialData d m = PortOf d m.0 × With is_payload d "data" (λ v. Bytes v m.1)

  read_port-Decides :
      (d : Value)
      → Has is_string d "port"
      → Decides (PortOf d) (do port ← read_string d "port"; done (some port))
  read_port-Decides d (v, f) = let (t, e) = get_string-done v f.1 in inl (t, (v, f, e), rw (f.0, e))

  check_close-Settles :
      (doc : Value)
      → is_object doc ≡ true
      → Settles
          (With is_object doc "data" (λ d. (is_object d ≡ true) × Has is_string d "port"))
          (check_serial_close_message doc)
  unfolding check_serial_close_message
  check_close-Settles doc h = has_field-With h λ d f.
      Settles-and_then (Settles-Bool (is_object d)) λ _. has_field-Settles is_string d "port" f.1

  -- On a document that is an object `parser_serial_close` fails no assertion, and it returns a port
  -- exactly when `data` is an object with the text `port`, which it returns.
  pub parser_serial_close-Decides :
      (doc : Value)
      → is_object doc ≡ true
      → Decides (λ t. With is_object doc "data" (λ d. PortOf d t)) (parser_serial_close doc)
  unfolding parser_serial_close
  parser_serial_close-Decides doc h =
      Decides-check (check_close-Settles doc h)
        (λ (d, f, (o, p)).
          Decides-With PortOf is_object doc "data"
            (λ d. do port ← read_string d "port"; done (some port)) d f (read_port-Decides d p))
        (λ t (d, f, (v, g, e)). (d, f, (f.1, (v, g))))

  check_data-Settles :
      (doc : Value)
      → is_object doc ≡ true
      → Settles
          (With is_object doc "data"
            λ d. (is_object doc ≡ true) × (Has is_string d "port" × Has is_payload d "data"))
          (check_serial_data doc)
  unfolding check_serial_data
  check_data-Settles doc h = has_field-With h λ d f.
      Settles-and_then (Settles-Bool (is_object doc)) λ _.
        Settles-and_then (has_field-Settles is_string d "port" f.1)
          λ _. has_field-Settles is_payload d "data" f.1

  get_serial_data-Decides :
      (d : Value)
      → Has is_string d "port"
      → Has is_payload d "data"
      → ((v : Value) → Field is_payload d "data" v → Unsigned v)
      → Decides (SerialData d) (get_serial_data d)
  unfolding get_serial_data
  get_serial_data-Decides d (p, fp) (v, fv) unsigned =
      let (t, e) = get_string-done p fp.1 in
      let (bytes, read, e') = read_bytes-Bytes v (payload_text v fv.1) (unsigned v fv) in
      inl ((t, bytes), ((p, fp, e), (v, fv, read)), rw (fp.0, e, fv.0, e'))

  -- On a document that is an object, in which the members of a payload that is an object are
  -- unsigned numbers, `parser_serial_data` fails no assertion, and it returns a port and bytes
  -- exactly when `data` is an object with the text `port`, and an object or a text as `data`: that
  -- text, and the payload cut to bytes.
  pub parser_serial_data-Decides :
      (doc : Value)
      → is_object doc ≡ true
      → ((d v : Value) → Field is_object doc "data" d → Field is_payload d "data" v → Unsigned v)
      → Decides (λ m. With is_object doc "data" (λ d. SerialData d m)) (parser_serial_data doc)
  unfolding parser_serial_data
  parser_serial_data-Decides doc h unsigned =
      Decides-check (check_data-Settles doc h)
        (λ (d, f, (o, (p, v))).
          Decides-With SerialData is_object doc "data" get_serial_data d f
            (get_serial_data-Decides d p v (λ w. unsigned d w f)))
        (λ m (d, f, ((p, fp, e), (v, fv, b))). (d, f, (h, ((p, fp), (v, fv)))))
