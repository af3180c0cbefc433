-- ===== src/Apps/Main/Parser/Exact.antt =====
-- On the documents that `parser_main` accepts.
use xerock.Base.{
  ℕ, ◌≡◌, ◌≢◌, refl, ap, ◌∙◌, true, Option, none, some, List, String, Text, codes, text_eq,
  text_eq_iff, arith, inl, inr, Bool-cases, Option-cases,
}
use xerock.Base.Run.{done, Settles, Settles-and_then, Settles-Bool, Decides, Decides-check}
use xerock.Json.{Json}
use xerock.Json.Fields.{Field, Has, has_field-Settles}
use xerock.Core.Message.{
  App, MessageType, payload, control, Control, status, MainData, type_text, control_text,
}
use xerock.Core.Dispatcher.{Entry, lookup_name}
use xerock.Apps.Main.Parser.{
  control_of, check_message, get_app, get_control, get_type, get_time, parser_main,
}

-- The six texts tell the controls apart.
pub control_of-control_text : (k : Control) → control_of (control_text k) ≡ some k
unfolding control_of
control_of-control_text status = refl
control_of-control_text k = refl

pub control_text-control_of : (t : Text) (k : Control) → control_of t ≡ some k → t ≡ control_text k
unfolding control_of
control_text-control_of t k h = ground (
  arith,
  text_eq_iff t (codes "status"),
  text_eq_iff t (codes "error"),
  text_eq_iff t (codes "open"),
  text_eq_iff t (codes "close"),
  text_eq_iff t (codes "config"),
  text_eq_iff t (codes "custom"),
)

module _ ⦃J : Json⦄ where
  open J use {
    Value, is_object, is_string, is_uint64, member, get_string, get_uint64, get_string-done,
    get_uint64-done,
  }

  -- The member k is this text.
  abbrev pub TextAt : Value → String → Text → Type 0
  TextAt doc k t = (v : Value) × Field is_string doc k v × (get_string v ≡ done t)

  -- The type and the control that the texts `type` and `ctype` stand for.
  abbrev pub Typed : Value → MessageType × Option Control → Type 0
  Typed doc (payload, none) = TextAt doc "type" (type_text payload)
  Typed doc (payload, some k) = ⊥
  Typed doc (control, none) = ⊥
  Typed doc (control, some k) =
      TextAt doc "type" (type_text control) × TextAt doc "ctype" (control_text k)

  check_message-Settles :
      (doc : Value)
      → Settles
          ((is_object doc ≡ true)
            × (Has is_string doc "app" × (Has is_uint64 doc "time" × Has is_string doc "type")))
          (check_message doc)
  unfolding check_message
  check_message-Settles doc = Settles-and_then (Settles-Bool (is_object doc)) λ o.
      Settles-and_then (has_field-Settles is_string doc "app" o) λ _.
        Settles-and_then (has_field-Settles is_uint64 doc "time" o)
          λ _. has_field-Settles is_string doc "type" o

  TextAt-unique : (doc : Value) (k : String) {s t : Text} → TextAt doc k s → TextAt doc k t → s ≡ t
  TextAt-unique doc k a b = cc (a.1.0, b.1.0, a.2, b.2)

  AsControl : Value → Text → MessageType × Option Control → Type 0
  AsControl doc t a =
      (k : Control) × (a ≡ (control, some k))
      × (t ≡ type_text control)
      × TextAt doc "ctype" (control_text k)

  Typed-AsControl :
      (doc : Value) (t : Text) (a : MessageType × Option Control)
      → TextAt doc "type" t
      → t ≢ type_text payload
      → Typed doc a
      → AsControl doc t a
  unfolding AsControl
  Typed-AsControl doc t (payload, none) at other s = absurd (other (TextAt-unique doc "type" at s))
  Typed-AsControl doc t (payload, some k) at other s = absurd s
  Typed-AsControl doc t (control, none) at other s = absurd s
  Typed-AsControl doc t (control, some k) at other s =
      (k, refl, TextAt-unique doc "type" at s.0, s.1)

  get_control-Decides :
      (doc : Value) (t : Text)
      → is_object doc ≡ true
      → TextAt doc "type" t
      → t ≢ type_text payload
      → Decides (Typed doc) (get_control doc)
  unfolding get_control AsControl
  get_control-Decides doc t o (v, f, e) other =
      let view = λ (a : MessageType × Option Control) (s : Typed doc a).
        Typed-AsControl doc t a (v, f, e) other s in
      elim (Bool-cases (text_eq t (type_text control))) [
        | inr no_control ↦
            inr
              ((λ a s. cc ((text_eq_iff t _).1 (view a s).2, no_control)), rw (f.0, e, no_control))
        | inl is_control ↦ elim (has_field-Settles is_string doc "ctype" o) [
          | inr (absent, e2) ↦
              inr
                ((λ a s. let at = (view a s).3 in absent (at.0, at.1)), rw (f.0, e, is_control, e2))
          | inl ((c, fc), e2) ↦
              let (ct, ec) = get_string-done c fc.1 in
              elim (Option-cases (control_of ct)) [
                | inl unknown ↦ inr (
                  (λ a s.
                      let r = view a s in
                      let same = TextAt-unique doc "ctype" (c, fc, ec) r.3 in
                      cc (control_of-control_text r.0, same, unknown)),
                  rw (f.0, e, is_control, e2, fc.0, ec, unknown),
                )
                | inr (k, known) ↦ inl (
                  (control, some k),
                  (
                    (v, f, e ∙ ap done ((text_eq_iff t _).0 is_control)),
                    (c, fc, ec ∙ ap done (control_text-control_of ct k known)),
                  ),
                  rw (f.0, e, is_control, e2, fc.0, ec, known),
                )
              ]
        ]
      ]

  get_type-Decides :
      (doc : Value)
      → is_object doc ≡ true
      → Has is_string doc "type"
      → Decides (Typed doc) (get_type doc)
  unfolding get_type
  get_type-Decides doc o (v, f) =
      let (t, e) = get_string-done v f.1 in
      elim (Bool-cases (text_eq t (type_text payload))) [
        | inl q ↦ inl ((payload, none), (v, f, e ∙ ap done ((text_eq_iff t _).0 q)), rw (f.0, e, q))
        | inr q ↦
            rw (f.0, e, q)
              (get_control-Decides doc t o (v, f, e) (λ p. cc ((text_eq_iff t _).1 p, q)))
      ]

  get_time_lem :
      (doc v : Value) (f : Field is_uint64 doc "time" v)
      → (n : ℕ) × (get_uint64 v ≡ done n) × (get_time doc ≡ done n)
  unfolding get_time
  get_time_lem doc v f = let (n, e, bound) = get_uint64-done v f.1 in (n, e, rw (f.0, e))

module _ {ℓ} ⦃J : Json⦄ {H : Type ℓ} (apps : List (Entry H)) where
  open J use {Value, is_object, is_string, is_uint64, get_string, get_uint64, get_string-done}

  -- The application whose registered name is the text `app`.
  abbrev pub AppOf : Value → App → Type ℓ
  AppOf doc a =
      (name : Text) × (e : Entry H) × TextAt doc "app" name
      × (lookup_name apps name ≡ some e)
      × (a ≡ e.app)

  abbrev pub Envelope : Value → MainData → Type ℓ
  Envelope doc m =
      (is_object doc ≡ true)
      × AppOf doc m.app
      × ((v : Value) × Field is_uint64 doc "time" v × (get_uint64 v ≡ done m.time))
      × Typed doc (m.type, m.control)

  get_app-Decides : (doc : Value) → Has is_string doc "app" → Decides (AppOf doc) (get_app apps doc)
  unfolding get_app
  get_app-Decides doc (v, f) =
      let (name, e) = get_string-done v f.1 in
      elim (Option-cases (lookup_name apps name)) [
        | inl absent ↦ inr (
          (λ a s. let same = TextAt-unique doc "app" (v, f, e) s.2 in cc (same, s.3, absent)),
          rw (f.0, e, absent),
        )
        | inr (x, found) ↦ inl (x.app, (name, x, (v, f, e), found, refl), rw (f.0, e, found))
      ]

  Typed-type :
      (doc : Value) (a : MessageType × Option Control) → Typed doc a → Has is_string doc "type"
  Typed-type doc (payload, none) s = (s.0, s.1)
  Typed-type doc (payload, some k) s = absurd s
  Typed-type doc (control, none) s = absurd s
  Typed-type doc (control, some k) s = (s.0.0, s.0.1)

  -- On any document `parser_main` fails no assertion, and it returns the data of a message exactly
  -- when the document is an object whose text `app` is the name of a registered application, whose
  -- `time` is an unsigned 64-bit number, and whose text `type` is "data", or is "control" with one
  -- of the six texts as `ctype`. The data are that application, time, type and control.
  pub parser_main-Decides : (doc : Value) → Decides (Envelope doc) (parser_main apps doc)
  unfolding parser_main
  parser_main-Decides doc =
      Decides-check (check_message-Settles doc)
        (λ (o, (a, ((v, f), t))).
          let (n, en, et) = get_time_lem doc v f in
          elim (get_app-Decides doc a) [
            | inr (absent, e) ↦ inr ((λ m s. absent m.app s.1), rw e)
            | inl (x, found, e) ↦ elim (get_type-Decides doc o t) [
              | inr (absent, e') ↦ inr ((λ m s. absent (m.type, m.control) s.3), rw (e, e'))
              | inl ((type, kind), typed, e') ↦ inl (
                record { app = x; time = n; type = type; control = kind },
                (o, found, (v, f, en), typed),
                rw (e, e', et),
              )
            ]
          ])
        (λ m (o, a, (v, f, e), t).
          (o, ((a.2.0, a.2.1), ((v, f), Typed-type doc (m.type, m.control) t))))
