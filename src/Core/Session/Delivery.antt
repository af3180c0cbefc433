-- ===== src/Core/Session/Delivery.antt =====
-- On what becomes of an object that a session gets.
use xerock.Base.{
  ℕ, ◌+◌, ◌%◌, ◌^◌, ◌<◌, ◌≡◌, refl, sym, ◌∙◌, true, false, Option, none, some, List, [], ◌∷◌, ◌++◌,
  String, Text, inl, inr, ◌⊎◌, Bool-cases,
}
use xerock.Base.Run.{Run, done, abort, ◌>>=◌}
use xerock.Json.{Json}
use xerock.Json.Build.{Build}
use xerock.Core.Message.{App, MessageType, payload, control, Control, MainData, main, error}
use xerock.Core.Dispatcher.{Entry, find, lookup_app, called, exec}
use xerock.Core.Dispatcher.Laws.{found_again}
use xerock.Core.Outbox.{Outbox, write_all}
use xerock.Core.Factory.Accepted.{Named, wrapped}
use xerock.Core.Factory.Sent.{ControlOf}
use xerock.Core.Answers.{ill_formed, make_error_code}
use xerock.Core.Answers.Accepted.{said, fail_message-Sends}
use xerock.Core.Session.{
  parse_object, if_object, dispatch, on_object, after_exec, refuse, on_message,
}
use xerock.Core.Session.Message.{Echo, add_mid-Echo, add_mid-abort}
use xerock.Apps.Main.Parser.{parser_main}
use xerock.Apps.Main.Parser.Exact.{TextAt, Typed, AppOf, Envelope, parser_main-Decides}

module _ {ℓ} ⦃J : Json⦄ ⦃B : Build J⦄ {H : Type ℓ} (apps : List (Entry H)) where
  open J use {Value, is_object, is_uint64, member, has_member, get_uint64}
  open B use {uint, print, is_uint64-uint, get_uint64-uint}

  -- The application, the type and the control that a document names.
  abbrev pub Sender : Value → App → MessageType × Option Control → Type ℓ
  Sender d a k = AppOf apps d a × Typed d k

  TextAt-same :
      (d d' : Value) (k : String) (s : Text)
      → member d' k ≡ member d k
      → TextAt d k s
      → TextAt d' k s
  TextAt-same d d' k s e (v, f, g) = (v, (e ∙ f.0, f.1), g)

  Typed-same :
      (d d' : Value) (k : MessageType × Option Control)
      → member d' "type" ≡ member d "type"
      → member d' "ctype" ≡ member d "ctype"
      → Typed d k
      → Typed d' k
  Typed-same d d' (payload, none) e c s = TextAt-same d d' "type" _ e s
  Typed-same d d' (control, some k) e c s =
      (TextAt-same d d' "type" _ e s.0, TextAt-same d d' "ctype" _ c s.1)
  Typed-same d d' (payload, some k) e c s = s
  Typed-same d d' (control, none) e c s = s

  AppOf-same :
      (d d' : Value) (a : App) → member d' "app" ≡ member d "app" → AppOf apps d a → AppOf apps d' a
  AppOf-same d d' a e (name, x, t, l, r) = (name, x, TextAt-same d d' "app" name e t, l, r)

  module _ (d d' : Value) (t : ℕ) (small : t < 2 ^ 64) (echo : Echo d t d') where
    echo-Envelope :
        (a : App) (type : MessageType) (kind : Option Control)
        → Sender d a (type, kind)
        → Envelope apps d' (record { app = a; time = t; type = type; control = kind })
    echo-Envelope a type kind s = (
      echo.0,
      AppOf-same d d' a (echo.2 "app" refl refl refl) s.0,
      (uint t, (echo.1, is_uint64-uint t small), get_uint64-uint t small),
      Typed-same d d' (type, kind) (echo.2 "type" refl refl refl) (echo.2 "ctype" refl refl refl)
          s.1,
    )

    Envelope-echo :
        (m : MainData) → Envelope apps d' m → Sender d m.app (m.type, m.control) × (m.time ≡ t)
    Envelope-echo m (o, a, (v, f, g), k) = (
      (
        AppOf-same d' d m.app (sym (echo.2 "app" refl refl refl)) a,
        Typed-same d' d (m.type, m.control) (sym (echo.2 "type" refl refl refl))
            (sym (echo.2 "ctype" refl refl refl)) k,
      ),
      cc (f.0, echo.1, g, get_uint64-uint t small),
    )

module _ ⦃J : Json⦄ ⦃B : Build J⦄ where
  open J use {Value, is_object}
  open B use {parse}

  if_object-is_object : (p : Option Value) (d : Value) → if_object p ≡ some d → is_object d ≡ true
  if_object-is_object none d h = cc
  if_object-is_object (some x) d h = elim (Bool-cases (is_object x)) [
    | inl o ↦ cc (h, o)
    | inr n ↦ cc (h, n)
  ]

module _ {ℓ} ⦃J : Json⦄ ⦃B : Build J⦄ {H : Type ℓ} {S W : Type 0} (now : ℕ → ℕ)
    (apps : List (Entry H))
    (handle : H → S → MainData → J.Value → W × Outbox S Text → Run (W × Outbox S Text)) where
  open J use {Value, is_object, has_member}
  open B use {print}

  -- The call of a handler, if the application has one.
  abbrev pub handled : Option H → S → MainData → Value → W × Outbox S Text → Run (W × Outbox S Text)
  handled f ws m d st = called f (λ h r. do st' ← r; handle h ws m d st') (done st)

  -- The state once the echo of the document was sent to all.
  abbrev pub echoed : Value → Outbox S Text → Outbox S Text
  echoed d' o = record o {
    mid = (o.mid + 1) % 2 ^ 64;
    readings = o.readings + 1;
    sent = o.sent ++ (o.shares, print d') ∷ [];
  }

  -- The handler of the application that a document names is called with the echoed document, at the
  -- time t; a document that names none is answered as ill formed.
  abbrev pub Delivery : S → Value → ℕ → Value → W × Outbox S Text → Run (W × Outbox S Text) → Type ℓ
  Delivery ws d t d' st r =
      ((m : MainData) × Sender apps d m.app (m.type, m.control)
        × (m.time ≡ t)
        × (x : Entry H) × (lookup_app apps m.app ≡ some x)
        × (r ≡ handled x.func ws m d' st))
      ⊎ (((a : App) (k : MessageType × Option Control) → ¬ Sender apps d a k)
          × (r ≡ refuse now apps handle ws ill_formed st))

  dispatch-Delivery :
      (ws : S) (d d' : Value) (t : ℕ) (st : W × Outbox S Text)
      → t < 2 ^ 64
      → Echo d t d'
      → Delivery ws d t d' st (do m ← parser_main apps d'; dispatch now apps handle ws d' m st)
  unfolding lookup_app exec dispatch after_exec refuse
  dispatch-Delivery ws d d' t st small echo = elim (parser_main-Decides apps d') [
    | inr (absent, e) ↦
        inr ((λ a k s. absent _ (echo-Envelope apps d d' t small echo a k.0 k.1 s)), rw e)
    | inl (m, env, e) ↦
        let (sender, at) = Envelope-echo apps d d' t small echo m env in
        let (name, x, text, named, same) = env.1 in
        let (y, found) = found_again apps name x named in
        let here : find m.app apps ≡ some y = cc (same, found) in
        inl (m, sender, at, y, here, rw (e, here))
  ]

  parse_object-is_object :
      (body : Text) (d : Value) → parse_object body ≡ some d → is_object d ≡ true
  unfolding parse_object
  parse_object-is_object body d h = if_object-is_object _ d h

  -- A message that is an object with a member "time": all open sessions get one echo of it, which
  -- has the daemon's time in place of its own and keeps the members besides "smid" and "echoed".
  -- Then, if the object names a registered application, a type and a control, the handler of that
  -- application runs on the echo with this application, type, control and the daemon's time, if the
  -- application has one; if the object names none, the message is answered as ill formed.
  pub on_message-Delivery :
      (ws : S) (body : Text) (d : Value) (w : W) (o : Outbox S Text)
      → parse_object body ≡ some d
      → has_member d "time" ≡ done true
      → (d' : Value) × Echo d (now o.readings % 2 ^ 64) d'
        × Delivery ws d
            (now o.readings % 2 ^ 64)
            d'
            (w, echoed d' o)
            (on_message now apps handle ws body (w, o))
  unfolding on_message on_object write_all
  on_message-Delivery ws body d w o h timed =
      let (d', echo, e) = add_mid-Echo now d o (parse_object-is_object body d h) timed in
      (
        d',
        echo,
        rw (h, e)
            (dispatch-Delivery ws d d' (now o.readings % 2 ^ 64) (w, echoed d' o) (wrapped _) echo),
      )

  -- A message that is an object without a member "time" ends the daemon.
  pub on_message-abort :
      (ws : S) (body : Text) (d : Value) (w : W) (o : Outbox S Text)
      → parse_object body ≡ some d
      → has_member d "time" ≡ done false
      → on_message now apps handle ws body (w, o) ≡ abort
  unfolding on_message on_object
  on_message-abort ws body d w o h untimed =
      rw (h, add_mid-abort now d o (parse_object-is_object body d h) untimed)

  -- With `main` registered: a message that is no object is answered to its sender alone, with one
  -- message that reads as an error of `main` and says that it is ill formed, and the state of the applications stays.
  pub on_message-ill_formed :
      (ws : S) (body : Text) (e : Entry H) (w : W) (o : Outbox S Text)
      → parse_object body ≡ none
      → Named apps main e
      → (text : Text) × (o' : Outbox S Text) × (on_message now apps handle ws body (w, o)
          ≡ done (w, o'))
        × ControlOf apps main error
            (said (make_error_code ill_formed) [])
            (now o.readings % 2 ^ 64)
            text
        × (o'.sent ≡ o.sent ++ (ws ∷ [], text) ∷ [])
        × (o'.shares ≡ o.shares)
  unfolding on_message on_object refuse
  on_message-ill_formed ws body e w o h named =
      let (text, o', r, of, s, shares) =
        (fail_message-Sends apps now ws main e (make_error_code ill_formed) [] o named).0 in
      (text, o', rw (h, r), of, s, shares)
