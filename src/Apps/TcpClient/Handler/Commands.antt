-- ===== src/Apps/TcpClient/Handler/Commands.antt =====
-- On the handler of `tcp_client`: the commands that it obeys.
use xerock.Base.{
  ℕ, refl, Option, none, some, List, Text, Bool-cases, Option-cases, inl, inr, [], ◌∷◌, ◌++◌,
  if◌then◌else◌,
}
use xerock.Base.Run.{Run, done, abort, ◌>>=◌}
use xerock.Json.{Json}
use xerock.Json.Build.{Build}
use xerock.Core.Message.{
  MessageType, payload, control, Control, status, open_control, close, MainData, tcp_client,
}
use xerock.Core.Dispatcher.{Entry}
use xerock.Core.Outbox.{Outbox}
use xerock.Core.Factory.Accepted.{Named}
use xerock.Core.Answers.{ErrorCode}
use xerock.Asio.{Asio, Endpoint}
use xerock.MyAsync.Registry.{lookup, erase}
use xerock.MyAsync.ClientContainer.{SocketType, Failure, not_connected, tcp_close, tcp_write}
use xerock.Apps.Handler.{Answer, refused, fail-Answers}
use xerock.Apps.Handler.Commands.{
  Command, nonsense, report, call, parsed_command, quietly, publicly, answered, Obeys, Meets,
  nonsense-Obeys, report-Obeys, if_parsed-Obeys, if_error-Meets,
}
use xerock.Apps.TcpClient.Parser.{
  MessageData, MessageOpen, MessageClose, parser_data, parser_open, parser_close,
}
use xerock.Apps.TcpServer.Handler.{Features}
use xerock.Apps.TcpClient.Handler.{
  Clients, status_of, on_sockets, supported, message_status, message_data, message_close,
  message_open, on_control, on_type, tpc_client_app,
}

-- What a user can ask for.
pub data Call ⦃N : Asio⦄ : Type 0 where
  send : MessageData → Call
  open_at : MessageOpen → Call
  close_at : Endpoint → Call

module _ ⦃J : Json⦄ ⦃N : Asio⦄ where
  open J use {Value}

  abbrev pub control_command : Option Control → Value → Run (Command Call)
  control_command none doc = abort
  control_command (some open_control) doc = do
    r ← parser_open doc
    parsed_command (λ (d : MessageOpen). done (call (open_at d))) r
  control_command (some close) doc = do
    r ← parser_close doc
    parsed_command (λ (d : MessageClose). done (call (close_at d.local))) r
  control_command (some status) doc = done report
  control_command (some _) doc = done nonsense

  abbrev pub command : MessageType → Option Control → Value → Run (Command Call)
  command control k doc = control_command k doc
  command payload k doc = do r ← parser_data doc; parsed_command (λ d. done (call (send d))) r

module _ ⦃J : Json⦄ ⦃B : Build J⦄ ⦃N : Asio⦄ (T : SocketType Endpoint) (eq : Discrete Endpoint)
    (code : Failure T.Code → ErrorCode) (features : Features)
    (wrong_protocol_type : ErrorCode) where
  open J use {Value}

  abbrev pub listing : Clients T eq → Run Value
  listing m = status_of T eq m.sockets

  -- A close takes the client away, and closes it.
  abbrev pub taken : Endpoint → Option T.Socket → Clients T eq → Run (Clients T eq × Answer Value)
  taken ep none m = done (m, refused tcp_client (code not_connected))
  taken ep (some s) m =
      quietly
        (record m { sockets = erase eq ep m.sockets; let_go = m.let_go ++ T.close_client s ∷ [] })

  abbrev pub act : Call → Clients T eq → Run (Clients T eq × Answer Value)
  act (send d) m =
      answered tcp_client code quietly
        (on_sockets T eq (tcp_write T eq d.local d.payload m.sockets) m)
  act (close_at ep) m = taken ep (lookup eq ep m.sockets) m
  act (open_at d) m =
      if supported features d.secure
      then quietly (record m { attempts = m.attempts ++ d ∷ [] })
      else done (m, refused tcp_client wrong_protocol_type)

module _ {ℓ} ⦃J : Json⦄ ⦃B : Build J⦄ ⦃N : Asio⦄ {H : Type ℓ} {S : Type 0} (now : ℕ → ℕ)
    (apps : List (Entry H)) (T : SocketType Endpoint) (eq : Discrete Endpoint)
    (code : Failure T.Code → ErrorCode) (features : Features)
    (wrong_protocol_type : ErrorCode) where
  open J use {Value}

  module _ (ws : S) (e : Entry H) (named : Named apps tcp_client e) (doc : Value) (m : Clients T eq)
      (o : Outbox S Text) where
    abbrev meaning : Call → Clients T eq → Run (Clients T eq × Answer Value)
    meaning = act T eq code features wrong_protocol_type

    abbrev shown : Clients T eq → Run Value
    shown = listing T eq code features wrong_protocol_type

    -- The run of a handler obeys this command.
    abbrev Does : Run (Command Call) → Run (Clients T eq × Outbox S Text) → Type 0
    Does c r = Obeys now apps tcp_client ws o meaning shown c m r

    message_status-Does :
        (m' : Clients T eq)
        → Meets now apps tcp_client ws o meaning shown
            (publicly shown m')
            (message_status now apps T eq code features wrong_protocol_type (m', o))
    unfolding message_status
    message_status-Does m' = report-Obeys now apps tcp_client ws o meaning shown e named m'

    message_data-Does :
        Does
          (command payload none doc)
          (message_data now apps T eq code features wrong_protocol_type ws doc (m, o))
    unfolding message_data
    message_data-Does =
        if_parsed-Obeys now apps tcp_client ws o meaning shown e named m (parser_data doc) _ _ λ d.
          if_error-Meets now apps tcp_client ws o meaning shown tcp_client e named code quietly
            (on_sockets T eq (tcp_write T eq d.local d.payload m.sockets) m) _ λ m'. refl

    message_open-Does :
        Does
          (control_command (some open_control) doc)
          (message_open now apps T eq code features wrong_protocol_type ws doc (m, o))
    unfolding message_open
    message_open-Does =
        if_parsed-Obeys now apps tcp_client ws o meaning shown e named m (parser_open doc) _ _ λ d.
          elim (Bool-cases (supported features d.secure)) [
            | inl t ↦ rw t
            | inr f ↦
                rw f
                  (fail-Answers now apps tcp_client ws e named o tcp_client m wrong_protocol_type)
          ]

    message_close-Does :
        Does
          (control_command (some close) doc)
          (message_close now apps T eq code features wrong_protocol_type ws doc (m, o))
    unfolding message_close tcp_close
    message_close-Does =
        if_parsed-Obeys now apps tcp_client ws o meaning shown e named m (parser_close doc) _ _ λ d.
          elim (Option-cases (lookup eq d.local m.sockets)) [
            | inl h ↦
                rw h
                  (fail-Answers now apps tcp_client ws e named o tcp_client m (code not_connected))
            | inr (s, h) ↦ rw h refl
          ]

    on_control-Does :
        (k : Option Control)
        → Does
            (control_command k doc)
            (on_control now apps T eq code features wrong_protocol_type k ws doc (m, o))
    on_control-Does none = refl
    on_control-Does (some open_control) = message_open-Does
    on_control-Does (some close) = message_close-Does
    on_control-Does (some status) = message_status-Does m
    on_control-Does (some _) = nonsense-Obeys now apps tcp_client ws o meaning shown e named m

    on_type-Does :
        (t : MessageType) (k : Option Control)
        → Does
            (command t k doc)
            (on_type now apps T eq code features wrong_protocol_type t k ws doc (m, o))
    on_type-Does control k = on_control-Does k
    on_type-Does payload k = message_data-Does

  -- With `tcp_client` registered, its handler does what the command of the message says, and it
  -- dies where the reading of the command does, and where a status is due and the endpoints of a
  -- client cannot be read. A message that is not read is answered as ill formed, and a status is
  -- sent to all if it is asked for. A data message goes to its client, a close closes the client
  -- and takes it away, and an open starts an attempt to connect if the kind of socket is
  -- supported, all three without an answer. An error is answered to the sender alone.
  pub tpc_client_app-Obeys :
      (ws : S) (e : Entry H) (main : MainData) (doc : Value) (m : Clients T eq) (o : Outbox S Text)
      → Named apps tcp_client e
      → Obeys now apps tcp_client ws o
          (act T eq code features wrong_protocol_type)
          (listing T eq code features wrong_protocol_type)
          (command main.type main.control doc)
          m
          (tpc_client_app now apps T eq code features wrong_protocol_type ws main doc (m, o))
  unfolding tpc_client_app
  tpc_client_app-Obeys ws e main doc m o named =
      on_type-Does ws e named doc m o main.type main.control
