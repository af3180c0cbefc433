-- ===== src/Apps/Serial/Handler/Status.antt =====
-- On the handler of `serial`: what it does, and the status behind it.
use xerock.Base.{
  ℕ, ◌≡◌, refl, subst, Bool-cases, inl, inr, Option, none, some, List, [], ◌∷◌, Text, if◌then◌else◌,
}
use xerock.Base.Run.{Run, done, abort, ◌>>=◌}
use xerock.Core.Answers.{ErrorCode, ill_formed, make_error_code}
use mathlib.Core.Option
use xerock.Json.{Json}
use xerock.Json.Build.{Build}
use xerock.Core.Message.{
  MessageType, payload, control, Control, status, open_control, close, App, MainData, serial,
}
use xerock.Core.Dispatcher.{Entry}
use xerock.Core.Outbox.{Outbox}
use xerock.Core.Factory.Accepted.{Named}
use xerock.MyAsync.SerialContainer.{
  Error, system, not_connected, already_connected, SerialType, Serials, Outcome, container_is_open,
  container_open, container_close, container_write,
}
use xerock.Apps.Handler.{
  Answer, silent, refused, announced, Answers, fail, if_error, if_parsed, fail-Answers,
  send_status-Answers,
}
use xerock.Apps.Serial.Parser.{
  SerialConfig, parser_serial_config, parser_serial_close, parser_serial_data,
}
use xerock.Apps.Serial.Make.{status_document}
use xerock.Apps.Serial.Handler.{
  Machine, World, configured, called_back, serial_send_status, serial_message, serial_config,
  serial_open, serial_close, on_type, serial_app,
}

-- What a user can ask for.
pub data Call : Type 0 where
  send : Text → List ℕ → Call
  open_port : SerialConfig → Call
  close_port : Text → Call

module _ ⦃J : Json⦄ ⦃B : Build J⦄ (T : SerialType) (eq : Discrete Text) (c : Machine T) where
  open J use {Value}

  abbrev pub shown : Serials T eq → Value
  shown m = status_document T eq c.get_option c.ports m

  -- What is said in turn, each with the ports behind it.
  abbrev pub Script : Type 0
  Script = List (Serials T eq × Answer Value)

  -- An error is answered, and nothing else.
  abbrev pub answers : {E : Type 0} → (E → ErrorCode) → Serials T eq × Option E → Script
  answers code (m, none) = (m, silent) ∷ []
  answers code (m, some e) = (m, refused serial (code e)) ∷ []

  -- Before the error of a missing file is answered, the port of this name is taken away, if there is
  -- one, and the status goes to all.
  abbrev pub reports : Text → Serials T eq × Outcome T eq → Script
  reports name (m, some (system e)) =
      if c.is_missing e
      then (let m' = (container_close T eq name m).0 in
          (m', announced (shown m')) ∷ (m', refused serial (c.code (system e))) ∷ [])
      else (m, refused serial (c.code (system e))) ∷ []
  reports name r = answers c.code r

  -- An open is a configuration of the new port.
  abbrev pub opened : SerialConfig → Serials T eq × Outcome T eq → Script
  opened d (m, none) = reports d.port (configured T eq c d m)
  opened d (m, some e) = reports (c.port_name (T.open_port d.port d.baud c.made).0) (m, some e)

  abbrev pub act : Call → Serials T eq → Script
  act (send port bytes) m = answers c.code (container_write T eq port bytes m)
  act (close_port port) m = answers (λ _. c.no_such_device) (container_close T eq port m)
  act (open_port d) m =
      if container_is_open T eq d.port m
      then (m, refused serial (c.code already_connected)) ∷ []
      else opened d (container_open T eq d.port d.baud c.made m)

  -- Of a call, and of a message that is ill formed.
  abbrev pub script : Option Call → Serials T eq → Script
  script none m = (m, refused serial (make_error_code ill_formed)) ∷ []
  script (some a) m = act a m

  abbrev pub data_command : Value → Run (Option Call)
  data_command doc = do
    r ← parser_serial_data doc
    done (Option.map (λ (port, bytes). send port bytes) r)

  abbrev pub open_command : Value → Run (Option Call)
  open_command doc = do r ← parser_serial_config c.character_size doc; done (Option.map open_port r)

  abbrev pub close_command : Value → Run (Option Call)
  close_command doc = do r ← parser_serial_close doc; done (Option.map close_port r)

module _ {ℓ} ⦃J : Json⦄ ⦃B : Build J⦄ {H : Type ℓ} (now : ℕ → ℕ) (apps : List (Entry H))
    {S M : Type 0} where
  Answers-done :
      (ap : App) (ws : S) (o : Outbox S Text) (m : M) (a : Answer J.Value)
      (r : Run (M × Outbox S Text))
      → Answers now apps ap ws o (m, a) r
      → (o₁ : Outbox S Text) × (r ≡ done (m, o₁))
  Answers-done ap ws o m silent r h = (o, h)
  Answers-done ap ws o m (refused by ec) r h = (h.1, h.2)
  Answers-done ap ws o m (announced doc) r h = (h.1, h.2)

module _ {ℓ} ⦃J : Json⦄ ⦃B : Build J⦄ {H : Type ℓ} {S : Type 0} (now : ℕ → ℕ)
    (apps : List (Entry H)) (T : SerialType) (eq : Discrete Text) (c : Machine T) (ws : S) where
  open J use {Value}

  abbrev pub Ending : Type 1
  Ending = Serials T eq → Outbox S Text → Run (World T eq S) → Type 0

  -- The run ends there, or it sends the status of what there is to all.
  abbrev pub Stops : Ending
  Stops m o r = r ≡ done (m, o)

  abbrev pub Shows : Ending
  Shows m o r = Answers now apps serial ws o (m, announced (shown T eq c m)) r

  -- The run says what the script has, in turn, and then ends so.
  abbrev pub Plays :
      Ending → Script T eq c → Serials T eq → Outbox S Text → Run (World T eq S) → Type 0
  Plays end [] m o r = end m o r
  Plays end ((m', a) ∷ rest) m o r =
      (o₁ : Outbox S Text) × Answers now apps serial ws o (m', a) (done (m', o₁))
      × Plays end rest m' o₁ r

  -- It dies exactly where the reading of the message does.
  abbrev pub Follows :
      Ending → Run (Option Call) → Serials T eq → Outbox S Text → Run (World T eq S) → Type 0
  Follows end abort m o r = r ≡ abort
  Follows end (done k) m o r = Plays end (script T eq c k m) m o r

  -- What the handler does with a message. A control message for a configuration, an error or another
  -- purpose is ignored.
  abbrev pub Behaves :
      MessageType
      → Option Control
      → Value
      → Serials T eq
      → Outbox S Text
      → Run (World T eq S)
      → Type 0
  Behaves payload k doc m o r = Follows Stops (data_command T eq c doc) m o r
  Behaves control none doc m o r = r ≡ abort
  Behaves control (some open_control) doc m o r = Follows Shows (open_command T eq c doc) m o r
  Behaves control (some close) doc m o r = Follows Shows (close_command T eq c doc) m o r
  Behaves control (some status) doc m o r = Shows m o r
  Behaves control (some _) doc m o r = r ≡ done (m, o)

  module _ (e : Entry H) (named : Named apps serial e) where
    status-Shows :
        (m : Serials T eq) (o : Outbox S Text)
        → Shows m o (serial_send_status now apps T eq c (m, o))
    unfolding serial_send_status
    status-Shows m o = send_status-Answers now apps serial ws e named o m (shown T eq c m)

    refusal-Answers :
        (m : Serials T eq) (o : Outbox S Text) (ec : ErrorCode)
        → Answers now apps serial ws o (m, refused serial ec) (fail now apps serial ws ec (m, o))
    refusal-Answers m o ec = fail-Answers now apps serial ws e named o serial m ec

    -- A run that answers once plays a script of one part.
    one-Plays :
        (m m' : Serials T eq) (a : Answer Value) (o : Outbox S Text) (r : Run (World T eq S))
        → Answers now apps serial ws o (m', a) r
        → Plays Stops ((m', a) ∷ []) m o r
    one-Plays m m' a o r h =
        let (o₁, p) = Answers-done now apps serial ws o m' a r h in
        (o₁, subst (Answers now apps serial ws o (m', a)) p h, p)

    refusal-Plays :
        (m m' : Serials T eq) (ec : ErrorCode) (o : Outbox S Text)
        → Plays Stops ((m', refused serial ec) ∷ []) m o (fail now apps serial ws ec (m', o))
    refusal-Plays m m' ec o =
        one-Plays m m' (refused serial ec) o (fail now apps serial ws ec (m', o))
          (refusal-Answers m' o ec)

    answers-Plays :
        {E : Type 0} (code : E → ErrorCode) (m : Serials T eq) (r : Serials T eq × Option E)
        (o : Outbox S Text)
        → Plays Stops
            (answers T eq c code r)
            m
            o
            (if_error now apps serial ws code r o (λ m'. done (m', o)))
    answers-Plays code m (m', none) o = one-Plays m m' silent o (done (m', o)) refl
    answers-Plays code m (m', some x) o = refusal-Plays m m' (code x) o

    -- A run that answers, and goes on.
    then-Plays :
        (end : Ending) (m m' : Serials T eq) (a : Answer Value) (rest : Script T eq c)
        (o : Outbox S Text) (r : Run (World T eq S)) (next : World T eq S → Run (World T eq S))
        → Answers now apps serial ws o (m', a) r
        → ((o₁ : Outbox S Text) → Plays end rest m' o₁ (next (m', o₁)))
        → Plays end ((m', a) ∷ rest) m o (r >>= next)
    then-Plays end m m' a rest o r next h k =
        let (o₁, p) = Answers-done now apps serial ws o m' a r h in
        (o₁, subst (Answers now apps serial ws o (m', a)) p h, rw p (k o₁))

    -- What follows a call on the container that may have called the callback.
    failed-Plays :
        (name : Text) (m m' : Serials T eq) (x : Error T.Code) (o : Outbox S Text)
        (next : Outbox S Text → Serials T eq → Run (World T eq S))
        → Plays Stops (reports T eq c name (m', some x)) m o (do
          (m₂, o') ← called_back now apps T eq c name (m', some x) o
          if_error now apps serial ws c.code (m₂, some x) o' (next o'))
    unfolding called_back
    failed-Plays name m m' (system x) o next = elim (Bool-cases (c.is_missing x)) [
      | inr f ↦ rw f (refusal-Plays m m' (c.code (system x)) o)
      | inl t ↦
          let m₂ = (container_close T eq name m').0 in
          rw t (
            then-Plays Stops m m₂ (announced (shown T eq c m₂))
              ((m₂, refused serial (c.code (system x))) ∷ []) o
              (serial_send_status now apps T eq c (m₂, o))
              (λ st. if_error now apps serial ws c.code (st.0, some (system x)) st.1 (next st.1))
              (status-Shows m₂ o) λ o₁. refusal-Plays m₂ m₂ (c.code (system x)) o₁)
    ]
    failed-Plays name m m' already_connected o next =
        refusal-Plays m m' (c.code already_connected) o
    failed-Plays name m m' not_connected o next = refusal-Plays m m' (c.code not_connected) o

    reports-Plays :
        (name : Text) (m : Serials T eq) (r : Serials T eq × Outcome T eq) (o : Outbox S Text)
        → Plays Stops (reports T eq c name r) m o (do
          (m₂, o') ← called_back now apps T eq c name r o
          if_error now apps serial ws c.code (m₂, r.1) o' λ m₃. done (m₃, o'))
    unfolding called_back
    reports-Plays name m (m', none) o = one-Plays m m' silent o (done (m', o)) refl
    reports-Plays name m (m', some x) o = failed-Plays name m m' x o λ o'. λ m₃. done (m₃, o')

    opened-Plays :
        (d : SerialConfig) (m : Serials T eq) (r : Serials T eq × Outcome T eq) (o : Outbox S Text)
        → Plays Stops (opened T eq c d r) m o (do
          (m₂, o') ←
              called_back now apps T eq c (c.port_name (T.open_port d.port d.baud c.made).0) r o
          if_error now apps serial ws c.code
              (m₂, r.1)
              o'
              λ m₃. serial_config now apps T eq c ws d (m₃, o'))
    unfolding called_back serial_config
    opened-Plays d m (m', none) o = reports-Plays d.port m (configured T eq c d m') o
    opened-Plays d m (m', some x) o =
        failed-Plays (c.port_name (T.open_port d.port d.baud c.made).0) m m' x o
          λ o'. λ m₃. serial_config now apps T eq c ws d (m₃, o')

    parsed-Follows :
        {D : Type 0} (p : Run (Option D)) (f : D → Call) (m : Serials T eq) (o : Outbox S Text)
        (next : D → Run (World T eq S))
        → ((d : D) → Plays Stops (act T eq c (f d) m) m o (next d))
        → Follows Stops
            (do r ← p; done (Option.map f r))
            m
            o
            (do r ← p; if_parsed now apps serial ws (make_error_code ill_formed) r (m, o) next)
    parsed-Follows abort f m o next h = refl
    parsed-Follows (done none) f m o next h = refusal-Plays m m (make_error_code ill_formed) o
    parsed-Follows (done (some d)) f m o next h = h d

    Plays-status :
        (xs : Script T eq c) (m : Serials T eq) (o : Outbox S Text) (r : Run (World T eq S))
        → Plays Stops xs m o r
        → Plays Shows xs m o (do st ← r; serial_send_status now apps T eq c st)
    Plays-status [] m o r h = rw h (status-Shows m o)
    Plays-status ((m', a) ∷ xs) m o r (o₁, h, k) = (o₁, h, Plays-status xs m' o₁ r k)

    Follows-status :
        (k : Run (Option Call)) (m : Serials T eq) (o : Outbox S Text) (r : Run (World T eq S))
        → Follows Stops k m o r
        → Follows Shows k m o (do st ← r; serial_send_status now apps T eq c st)
    Follows-status abort m o r h = rw h refl
    Follows-status (done k) m o r h = Plays-status (script T eq c k m) m o r h

    message-Follows :
        (doc : Value) (m : Serials T eq) (o : Outbox S Text)
        → Follows Stops (data_command T eq c doc) m o (serial_message now apps T eq c ws doc (m, o))
    unfolding serial_message
    message-Follows doc m o =
        parsed-Follows (parser_serial_data doc) _ m o _
          λ (port, bytes). answers-Plays c.code m (container_write T eq port bytes m) o

    close-Follows :
        (doc : Value) (m : Serials T eq) (o : Outbox S Text)
        → Follows Stops (close_command T eq c doc) m o (serial_close now apps T eq c ws doc (m, o))
    unfolding serial_close
    close-Follows doc m o =
        parsed-Follows (parser_serial_close doc) _ m o _
          λ port. answers-Plays (λ _. c.no_such_device) m (container_close T eq port m) o

    open-Follows :
        (doc : Value) (m : Serials T eq) (o : Outbox S Text)
        → Follows Stops (open_command T eq c doc) m o (serial_open now apps T eq c ws doc (m, o))
    unfolding serial_open
    open-Follows doc m o = parsed-Follows (parser_serial_config c.character_size doc) _ m o _ λ d.
        elim (Bool-cases (container_is_open T eq d.port m)) [
          | inl t ↦ rw t (refusal-Plays m m (c.code already_connected) o)
          | inr f ↦ rw f (opened-Plays d m (container_open T eq d.port d.baud c.made m) o)
        ]

    type-Behaves :
        (t : MessageType) (k : Option Control) (doc : Value) (m : Serials T eq) (o : Outbox S Text)
        → Behaves t k doc m o (on_type now apps T eq c t k ws doc (m, o))
    type-Behaves payload k doc m o = message-Follows doc m o
    type-Behaves control none doc m o = refl
    type-Behaves control (some open_control) doc m o = Follows-status _ m o _ (open-Follows doc m o)
    type-Behaves control (some close) doc m o = Follows-status _ m o _ (close-Follows doc m o)
    type-Behaves control (some status) doc m o = status-Shows m o
    type-Behaves control (some _) doc m o = refl

  -- With `serial` registered: a data message goes to its port without an answer. An open makes a port
  -- and configures it, and is refused if the port is open; a close takes the port away. An error goes
  -- to the sender alone; before one of an open or of its configuration that says that the file of the
  -- port is missing, the callback takes the port of the failed one's name away, if there is one, and
  -- sends the status to all. After an open and after a close, an error of either included, the status
  -- of the ports that it leaves goes to all sessions. A status is sent if it is asked for. Any other
  -- control message is ignored. The handler dies only where the reading of a message does.
  pub serial_app-Behaves :
      (e : Entry H) (main : MainData) (doc : Value) (m : Serials T eq) (o : Outbox S Text)
      → Named apps serial e
      → Behaves main.type main.control doc m o (serial_app now apps T eq c ws main doc (m, o))
  unfolding serial_app
  serial_app-Behaves e main doc m o named = type-Behaves e named main.type main.control doc m o
