-- ===== src/Core/Factory/Accepted.antt =====
-- On the documents of the factory, read by the parser of envelopes.
use xerock.Base.{
  ℕ, ◌+◌, ◌%◌, ◌^◌, ◌<◌, ◌≡◌, refl, ◌∙◌, true, false, Bool, Option, none, some, List, [], ◌∷◌, ◌++◌,
  String, Text, arith,
}
use xerock.Base.Run.{done}
use xerock.Json.{Json}
use xerock.Json.Fields.{Field, has_field-Field}
use xerock.Json.Build.{Build, c_str, first_member}
use xerock.Core.Message.{
  App, MessageType, payload, control, Control, status, type_text, control_text,
}
use xerock.Core.Dispatcher.{Entry, lookup_app, lookup_name}
use xerock.Core.Outbox.{Outbox, Quiet, get_mid, time}
use xerock.Core.Factory.{
  Content, app_text, content, header, make_data_obj, make_control_obj, data_document,
  control_document,
}
use xerock.Apps.Main.Parser.{check_message, get_app, get_control, get_type, get_time, parser_main}
use xerock.Apps.Main.Parser.Exact.{control_of-control_text}

c_str-control_text : (k : Control) → c_str (control_text k) ≡ control_text k
unfolding c_str control_text
c_str-control_text status = refl
c_str-control_text k = refl

pub wrapped : (n : ℕ) → n % 2 ^ 64 < 2 ^ 64
wrapped n = omega arith

module _ ⦃J : Json⦄ ⦃B : Build J⦄ where
  open J use {Value, has_member, is_object, is_string, is_uint64, member, get_string, get_uint64}
  open B use {
    str, uint, object, is_string-str, get_string-str, is_uint64-uint, get_uint64-uint,
    is_object-object, member-object, has_member-object,
  }

  -- A member of an object that was built.
  pub built-Field :
      (test : Value → Bool) (fs : List (String × Value)) (k : String) (v : Value)
      → first_member k fs ≡ some v
      → test v ≡ true
      → Field test (object fs) k v
  built-Field test fs k v h t = (member-object fs k ∙ rw h, t)

  -- What the document has under "data".
  abbrev pub Carries : Option (Content Value) → Value → Type 0
  Carries none doc = has_member doc "data" ≡ done false
  Carries (some c) doc = member doc "data" ≡ done (content c)

  get_type-control :
      (name : Text) (mid t : ℕ) (k : Control) (rest : List (String × Value))
      → get_type (object (header name mid t control ++ ("ctype", str (control_text k)) ∷ rest))
        ≡ done (some (control, some k))
  unfolding get_type get_control first_member c_str type_text
  get_type-control name mid t k rest =
      let fs = header name mid t control ++ ("ctype", str (control_text k)) ∷ rest in
      let fy =
        built-Field is_string fs "type" (str (type_text control)) refl
          (is_string-str (type_text control)) in
      let fc =
        built-Field is_string fs "ctype" (str (control_text k)) refl
          (is_string-str (control_text k)) in
      rw (
        fy.0,
        get_string-str (type_text control),
        has_field-Field is_string (object fs) "ctype" (str (control_text k)) fc,
        fc.0,
        get_string-str (control_text k),
        c_str-control_text k,
        control_of-control_text k,
      )

module _ {ℓ} ⦃J : Json⦄ ⦃B : Build J⦄ {H : Type ℓ} (apps : List (Entry H)) where
  open J use {Value, has_member, is_object, is_string, is_uint64, member, get_string, get_uint64}
  open B use {
    str, uint, object, is_string-str, get_string-str, is_uint64-uint, get_uint64-uint,
    is_object-object, member-object, has_member-object,
  }

  -- The application is registered, and its name leads back to it.
  abbrev pub Named : App → Entry H → Type ℓ
  Named ap e =
      (lookup_app apps ap ≡ some e)
      × (lookup_name apps e.name ≡ some e)
      × (e.app ≡ ap)
      × (c_str e.name ≡ e.name)

  module _ (ap : App) (e : Entry H) (named : Named ap e) (mid t : ℕ) (small : t < 2 ^ 64) where
    -- An object that begins with a header has the members of the envelope.
    header-parser_main :
        (type : MessageType) (rest : List (String × Value)) (kind : Option Control)
        → get_type (object (header e.name mid t type ++ rest)) ≡ done (some (type, kind))
        → parser_main apps (object (header e.name mid t type ++ rest))
          ≡ done (some (record { app = ap; time = t; type = type; control = kind }))
    unfolding parser_main check_message get_app get_time first_member
    header-parser_main type rest kind h =
        let fs = header e.name mid t type ++ rest in
        let fa = built-Field is_string fs "app" (str e.name) refl (is_string-str e.name) in
        let ft = built-Field is_uint64 fs "time" (uint t) refl (is_uint64-uint t small) in
        let fy =
          built-Field is_string fs "type" (str (type_text type)) refl
            (is_string-str (type_text type)) in
        rw (
          is_object-object fs,
          has_field-Field is_string (object fs) "app" (str e.name) fa,
          has_field-Field is_uint64 (object fs) "time" (uint t) ft,
          has_field-Field is_string (object fs) "type" (str (type_text type)) fy,
          fa.0,
          get_string-str e.name,
          named.3,
          named.1,
          h,
          ft.0,
          get_uint64-uint t small,
          named.2,
        )

  -- A registered application whose name leads back to it gets its message: whatever the overload of
  -- `create` for data, the parser of envelopes reads from the document the application, the time of
  -- the clock, and the type, and the document has the content under "data"; it is made without a message being sent and without a change of
  -- the open sessions.
  pub parser_main-data_document :
      {S : Type 0} (now : ℕ → ℕ) (ap : App) (e : Entry H) (c : Content Value) (o : Outbox S Text)
      → Named ap e
      → (doc : Value) × (o' : Outbox S Text) × (data_document now apps ap c o ≡ done (doc, o'))
        × (parser_main apps doc
            ≡ done (
                some (record {
                  app = ap;
                  time = now o.readings % 2 ^ 64;
                  type = payload;
                  control = none;
                })))
        × Carries (some c) doc
        × Quiet o o'
  unfolding data_document make_data_obj app_text get_mid time get_type first_member c_str type_text
  parser_main-data_document now ap e c o named =
      let t = now o.readings % 2 ^ 64 in
      let rest = ("data", content c) ∷ [] in
      let fs = header e.name o.mid t payload ++ rest in
      let fy =
        built-Field is_string fs "type" (str (type_text payload)) refl
          (is_string-str (type_text payload)) in
      (
        object fs,
        record o { mid = (o.mid + 1) % 2 ^ 64; readings = o.readings + 1 },
        rw named.0,
        header-parser_main ap e named o.mid t (wrapped (now o.readings)) payload rest none
            (rw (fy.0, get_string-str (type_text payload))),
        member-object fs "data",
        (refl, refl),
      )

  -- A registered application whose name leads back to it gets its message: whatever the overload of
  -- `create` for a control, the parser of envelopes reads from the document the application, the
  -- time of the clock, and the control, and the document has the content under "data", or no such
  -- member if there is none; it is made without a message being sent and without a change of the
  -- open sessions.
  pub parser_main-control_document :
      {S : Type 0} (now : ℕ → ℕ) (ap : App) (e : Entry H) (k : Control) (c : Option (Content Value))
      (o : Outbox S Text)
      → Named ap e
      → (doc : Value) × (o' : Outbox S Text) × (control_document now apps ap k c o ≡ done (doc, o'))
        × (parser_main apps doc
            ≡ done (
                some (record {
                  app = ap;
                  time = now o.readings % 2 ^ 64;
                  type = control;
                  control = some k;
                })))
        × Carries c doc
        × Quiet o o'
  unfolding control_document make_control_obj app_text get_mid time first_member
  parser_main-control_document now ap e k none o named =
      let t = now o.readings % 2 ^ 64 in
      let start = header e.name o.mid t control ++ ("ctype", str (control_text k)) ∷ [] in
      (
        object start,
        record o { mid = (o.mid + 1) % 2 ^ 64; readings = o.readings + 1 },
        rw named.0,
        header-parser_main ap e named o.mid t (wrapped (now o.readings)) control
            (("ctype", str (control_text k)) ∷ []) (some k) (get_type-control e.name o.mid t k []),
        has_member-object start "data",
        (refl, refl),
      )
  parser_main-control_document now ap e k (some d) o named =
      let t = now o.readings % 2 ^ 64 in
      let start = header e.name o.mid t control ++ ("ctype", str (control_text k)) ∷ [] in
      (
        object (start ++ ("data", content d) ∷ []),
        record o { mid = (o.mid + 1) % 2 ^ 64; readings = o.readings + 1 },
        rw named.0,
        header-parser_main ap e named o.mid t (wrapped (now o.readings)) control
            (("ctype", str (control_text k)) ∷ ("data", content d) ∷ []) (some k)
            (get_type-control e.name o.mid t k (("data", content d) ∷ [])),
        member-object (start ++ ("data", content d) ∷ []) "data",
        (refl, refl),
      )
