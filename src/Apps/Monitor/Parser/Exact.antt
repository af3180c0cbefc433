-- ===== src/Apps/Monitor/Parser/Exact.antt =====
-- On the documents that `parse_app` accepts.
use xerock.Base.{
  ◌≡◌, refl, subst, true, false, Text, codes, text_eq, text_eq_iff, inl, inr, ◌⊎◌, Bool-cases,
  if◌then◌else◌,
}
use xerock.Base.Run.{Run, done, abort, ◌and_then◌, Settles, Settles-and_then, Settles-Bool, Decides}
use xerock.Json.{Json}
use xerock.Json.Fields.{Field, With, Has, has_field, has_field-Settles, has_field-With}
use xerock.Apps.InData.{parse_data-Decides}
use xerock.Apps.Monitor.Parser.{
  MonitorMessage, set_monitor, cancel_monitor, check_status_message, get_monitor, parse_app,
}

module _ ⦃J : Json⦄ where
  open J use {
    Value, is_object, is_string, is_int, is_bool, member, has_member, get_string, get_int, get_bool,
    get_string-done, get_int-done, get_bool-done, has_member-true,
  }

  -- What a message must carry, by the text of its type.
  abbrev pub Asks : Value → MonitorMessage → Type 0
  Asks d (set_monitor n c) =
      (is_object d ≡ true)
      × With is_string d "type" (λ v. get_string v ≡ done (codes "set"))
      × With is_int d "sample_time" (λ v. get_int v ≡ done n)
      × With is_bool d "cont" (λ v. get_bool v ≡ done c)
  Asks d cancel_monitor =
      (is_object d ≡ true) × With is_string d "type" (λ v. get_string v ≡ done (codes "cancel"))

  -- The text of the type, where there is one, is known.
  abbrev pub IsKnown : Value → Type 0
  IsKnown doc =
      (d t : Value)
      → Field is_object doc "data" d
      → Field is_string d "type" t
      → (get_string t ≡ done (codes "set")) ⊎ (get_string t ≡ done (codes "cancel"))

  abbrev SetFields : Value → Type 0
  SetFields d = Has is_int d "sample_time" × Has is_bool d "cont"

  -- The check of the text s of the type.
  abbrev Checked : Value → Value → Type 0
  Checked d t = (get_string t ≡ done (codes "set")) → SetFields d

  abbrev HasAsked : Value → Type 0
  HasAsked d = (is_object d ≡ true) × With is_string d "type" (Checked d)

  fields-Settles :
      (d : Value)
      → is_object d ≡ true
      → Settles (SetFields d) (has_field is_int d "sample_time" and_then has_field is_bool d "cont")
  fields-Settles d o =
      Settles-and_then (has_field-Settles is_int d "sample_time" o)
        λ _. has_field-Settles is_bool d "cont" o

  check_type-Settles :
      (d t : Value) (s : Text)
      → is_object d ≡ true
      → get_string t ≡ done s
      → Settles (Checked d t) (
          if text_eq s (codes "set")
          then has_field is_int d "sample_time" and_then has_field is_bool d "cont"
          else done true)
  check_type-Settles d t s o e = elim (Bool-cases (text_eq s (codes "set"))) [
    | inl h ↦
        let same = (text_eq_iff s (codes "set")).0 h in
        elim (fields-Settles d o) [
          | inl (p, e') ↦ inl ((λ _. p), rw (h, e'))
          | inr (absent, e') ↦ inr ((λ f. absent (f (cc (e, same)))), rw (h, e'))
        ]
    | inr h ↦ inl (
      (λ g. let same : s ≡ codes "set" = cc (e, g) in cc ((text_eq_iff s (codes "set")).1 same, h)),
      rw h refl,
    )
  ]

  check_status_message-Settles :
      (d : Value) → is_object d ≡ true → Settles (HasAsked d) (check_status_message d)
  unfolding check_status_message
  check_status_message-Settles d o = Settles-and_then (Settles-Bool (is_object d)) λ _.
      has_field-With o λ t f.
        let (s, e) = get_string-done t f.1 in
        subst (Settles (Checked d t)) (rw e) (check_type-Settles d t s o e)

  get_monitor-Decides :
      (d : Value)
      → HasAsked d
      → ((t : Value)
          → Field is_string d "type" t
          → (get_string t ≡ done (codes "set")) ⊎ (get_string t ≡ done (codes "cancel")))
      → Decides (Asks d) (get_monitor d)
  unfolding get_monitor
  get_monitor-Decides d (o, (t, f, checked)) known = elim (known t f) [
    | inl e ↦
        let ((v, fv), (w, fw)) = checked e in
        let (n, e₁) = get_int-done v fv.1 in
        let (c, e₂) = get_bool-done w fw.1 in
        inl (
          set_monitor n c,
          (o, (t, f, e), (v, fv, e₁), (w, fw, e₂)),
          rw (f.0, e, fv.0, e₁, fw.0, e₂) refl,
        )
    | inr e ↦ inl (cancel_monitor, (o, (t, f, e)), rw (f.0, e) refl)
  ]

  -- On a document that is an object, in which the text `type` of the object `data` is "set" or
  -- "cancel" where there is one, `parse_app` fails no assertion, and it returns a message exactly
  -- when `data` is an object with such a text and, for "set", with an int `sample_time` and a Boolean
  -- `cont`. The message has these.
  pub parse_app-Decides :
      (doc : Value)
      → is_object doc ≡ true
      → IsKnown doc
      → Decides (λ m. With is_object doc "data" (λ d. Asks d m)) (parse_app doc)
  unfolding parse_app
  parse_app-Decides doc h known =
      parse_data-Decides HasAsked Asks check_status_message get_monitor doc h
        check_status_message-Settles (λ d f p. get_monitor-Decides d p (λ t ft. known d t f ft))
        asks
    where
      asks : (d : Value) (m : MonitorMessage) → Asks d m → HasAsked d
      asks d (set_monitor n c) (o, (t, f, e), (v, fv, e₁), (w, fw, e₂)) =
          (o, (t, f, λ _. ((v, fv), (w, fw))))
      asks d cancel_monitor (o, (t, f, e)) = (o, (t, f, λ g. cc (e, g)))

  absent-abort :
      (d : Value) (k : _) (r : Run Value) → member d k ≡ r → has_member d k ≡ done false → r ≡ abort
  absent-abort d k (done w) e h = cc (has_member-true d k w e, h)
  absent-abort d k abort e h = refl

  -- Another text as the type passes the check, and the parser then reads a member `sample_time`
  -- that it has not looked for: without one the assertion of the access fails.
  pub parse_app-abort :
      (doc d t : Value) (s : Text)
      → is_object doc ≡ true
      → Field is_object doc "data" d
      → Field is_string d "type" t
      → get_string t ≡ done s
      → text_eq s (codes "set") ≡ false
      → text_eq s (codes "cancel") ≡ false
      → has_member d "sample_time" ≡ done false
      → parse_app doc ≡ abort
  unfolding parse_app check_status_message get_monitor
  parse_app-abort doc d t s h f ft e no_set no_cancel absent =
      rw
        (
          has_member-true doc "data" d f.0,
          f.0,
          f.1,
          has_member-true d "type" t ft.0,
          ft.0,
          ft.1,
          e,
          no_set,
          no_cancel,
          absent-abort d "sample_time" (member d "sample_time") refl absent,
        )
        refl
