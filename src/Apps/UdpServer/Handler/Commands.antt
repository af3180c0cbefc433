-- ===== src/Apps/UdpServer/Handler/Commands.antt =====
-- On the handler of `udp_server`: the commands that it obeys.
use xerock.Base.{ℕ, refl, Option, none, some, List, Text}
use xerock.Base.Run.{Run, done, abort, ◌>>=◌}
use xerock.Json.{Json}
use xerock.Json.Build.{Build}
use xerock.Core.Message.{
  MessageType, payload, control, Control, status, open_control, close, MainData, udp_server,
}
use xerock.Core.Dispatcher.{Entry}
use xerock.Core.Outbox.{Outbox}
use xerock.Core.Factory.Accepted.{Named}
use xerock.Core.Answers.{ErrorCode, server_internal_error, make_error_code}
use xerock.Asio.{Asio, Endpoint}
use xerock.MyAsync.ClientContainer.{
  SocketType, Sockets, Failure, server_open, server_close, server_write_all, server_endpoints,
}
use xerock.Apps.Handler.{Answer}
use xerock.Apps.Handler.Commands.{
  Command, nonsense, report, call, parsed_command, quietly, publicly, answered, Obeys, Meets,
  call-Meets, nonsense-Obeys, report-Obeys, if_parsed-Obeys, if_error-Meets,
}
use xerock.Apps.UdpServer.Parser.{
  MessageData, MessageOpen, MessageClose, parser_data, parser_open, parser_close,
}
use xerock.Apps.UdpServer.Make.{status_document}
use xerock.Apps.UdpServer.Handler.{
  message_status, message_data, message_close, message_open, on_control, on_type, udp_server_app,
}

-- What a user can ask for.
pub data Call ⦃N : Asio⦄ : Type 0 where
  send : MessageData → Call
  open_at close_at : Endpoint → Call

module _ ⦃J : Json⦄ ⦃N : Asio⦄ where
  open J use {Value}

  abbrev pub control_command : Option Control → Value → Run (Command Call)
  control_command none doc = abort
  control_command (some open_control) doc = do
    r ← parser_open doc
    parsed_command (λ (d : MessageOpen). done (call (open_at d.ep))) r
  control_command (some close) doc = do
    r ← parser_close doc
    parsed_command (λ (d : MessageClose). done (call (close_at d.ep))) r
  control_command (some status) doc = done report
  control_command (some _) doc = done nonsense

  abbrev pub command : MessageType → Option Control → Value → Run (Command Call)
  command control k doc = control_command k doc
  command payload k doc = do r ← parser_data doc; parsed_command (λ d. done (call (send d))) r

module _ ⦃J : Json⦄ ⦃B : Build J⦄ ⦃N : Asio⦄ (T : SocketType Endpoint) (eq : Discrete Endpoint)
    (code : Failure T.Code → ErrorCode) (made : T.Socket) where
  open J use {Value}

  -- The keys of the container, of which none is read from a socket.
  abbrev pub listing : Sockets T eq → Run Value
  listing m = done (status_document (server_endpoints T eq m))

  abbrev pub act : Call → Sockets T eq → Run (Sockets T eq × Answer Value)
  act (send d) m = answered udp_server code quietly (server_write_all T eq d.from d.to d.payload m)
  act (open_at ep) m = do
    r ← server_open T eq ep made m
    answered udp_server code (publicly listing) r
  act (close_at ep) m =
      answered udp_server (λ _. make_error_code server_internal_error) (publicly listing)
        (server_close T eq ep m)

module _ {ℓ} ⦃J : Json⦄ ⦃B : Build J⦄ ⦃N : Asio⦄ {H : Type ℓ} {S : Type 0} (now : ℕ → ℕ)
    (apps : List (Entry H)) (T : SocketType Endpoint) (eq : Discrete Endpoint)
    (code : Failure T.Code → ErrorCode) (made : T.Socket) where
  open J use {Value}

  module _ (ws : S) (e : Entry H) (named : Named apps udp_server e) (doc : Value) (m : Sockets T eq)
      (o : Outbox S Text) where
    abbrev meaning : Call → Sockets T eq → Run (Sockets T eq × Answer Value)
    meaning = act T eq code made

    abbrev shown : Sockets T eq → Run Value
    shown = listing T eq code made

    -- The run of a handler obeys this command.
    abbrev Does : Run (Command Call) → Run (Sockets T eq × Outbox S Text) → Type 0
    Does c r = Obeys now apps udp_server ws o meaning shown c m r

    message_status-Does :
        (m' : Sockets T eq)
        → Meets now apps udp_server ws o meaning shown
            (publicly shown m')
            (message_status now apps T eq code made (m', o))
    unfolding message_status
    message_status-Does m' = report-Obeys now apps udp_server ws o meaning shown e named m'

    message_data-Does :
        Does (command payload none doc) (message_data now apps T eq code made ws doc (m, o))
    unfolding message_data
    message_data-Does =
        if_parsed-Obeys now apps udp_server ws o meaning shown e named m (parser_data doc) _ _ λ d.
          if_error-Meets now apps udp_server ws o meaning shown udp_server e named code quietly
            (server_write_all T eq d.from d.to d.payload m) _ λ m'. refl

    message_open-Does :
        Does
          (control_command (some open_control) doc)
          (message_open now apps T eq code made ws doc (m, o))
    unfolding message_open
    message_open-Does =
        if_parsed-Obeys now apps udp_server ws o meaning shown e named m (parser_open doc) _ _ λ d.
          call-Meets now apps udp_server ws o meaning shown (server_open T eq d.ep made m) _ _ λ r.
            if_error-Meets now apps udp_server ws o meaning shown udp_server e named code
              (publicly shown) r _ message_status-Does

    message_close-Does :
        Does
          (control_command (some close) doc)
          (message_close now apps T eq code made ws doc (m, o))
    unfolding message_close
    message_close-Does =
        if_parsed-Obeys now apps udp_server ws o meaning shown e named m (parser_close doc) _ _ λ d.
          if_error-Meets now apps udp_server ws o meaning shown udp_server e named
            (λ _. make_error_code server_internal_error) (publicly shown) (server_close T eq d.ep m)
            _ message_status-Does

    on_control-Does :
        (k : Option Control)
        → Does (control_command k doc) (on_control now apps T eq code made k ws doc (m, o))
    on_control-Does none = refl
    on_control-Does (some open_control) = message_open-Does
    on_control-Does (some close) = message_close-Does
    on_control-Does (some status) = message_status-Does m
    on_control-Does (some _) = nonsense-Obeys now apps udp_server ws o meaning shown e named m

    on_type-Does :
        (t : MessageType) (k : Option Control)
        → Does (command t k doc) (on_type now apps T eq code made t k ws doc (m, o))
    on_type-Does control k = on_control-Does k
    on_type-Does payload k = message_data-Does

  -- With `udp_server` registered, its handler does what the command of the message says, and it
  -- dies where the reading of the command does, and where an open throws. A message that is not
  -- read is answered as ill formed, and a status is sent to all if it is asked for. A data
  -- message goes to its receivers without an answer; an open and a close are followed by the
  -- status of the container that they leave. An error of the container is answered to the sender
  -- alone, one of a close as internal.
  pub udp_server_app-Obeys :
      (ws : S) (e : Entry H) (main : MainData) (doc : Value) (m : Sockets T eq) (o : Outbox S Text)
      → Named apps udp_server e
      → Obeys now apps udp_server ws o
          (act T eq code made)
          (listing T eq code made)
          (command main.type main.control doc)
          m
          (udp_server_app now apps T eq code made ws main doc (m, o))
  unfolding udp_server_app
  udp_server_app-Obeys ws e main doc m o named =
      on_type-Does ws e named doc m o main.type main.control
