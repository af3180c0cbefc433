-- ===== src/Apps/UdpClient/Handler/Commands.antt =====
-- On the handler of `udp_client`: the commands that it obeys.
use xerock.Base.{ℕ, refl, Option, none, some, List, Text}
use xerock.Base.Run.{Run, done, abort, ◌>>=◌}
use xerock.Json.{Json}
use xerock.Json.Build.{Build}
use xerock.Core.Message.{
  MessageType, payload, control, Control, status, open_control, close, MainData, tcp_client,
  udp_client,
}
use xerock.Core.Dispatcher.{Entry}
use xerock.Core.Outbox.{Outbox}
use xerock.Core.Factory.Accepted.{Named}
use xerock.Core.Answers.{ErrorCode}
use xerock.Asio.{Asio, Endpoint}
use xerock.MyAsync.ClientContainer.{SocketType, Sockets, Failure, udp_open, udp_close, udp_write}
use xerock.Apps.Handler.{Answer}
use xerock.Apps.Handler.Commands.{
  Command, nonsense, report, call, parsed_command, quietly, publicly, answered, Obeys, Meets,
  call-Meets, nonsense-Obeys, report-Obeys, if_parsed-Obeys, if_error-Meets,
}
use xerock.Apps.UdpClient.Parser.{
  MessageData, MessageOpen, MessageClose, parser_data, parser_open, parser_close,
}
use xerock.Apps.UdpClient.Handler.{
  status_of, message_status, message_data, message_close, message_open, on_control, on_type,
  udp_client_app,
}

-- What a user can ask for.
pub data Call ⦃N : Asio⦄ : Type 0 where
  send : MessageData → Call
  open_at close_at : Endpoint → Call

module _ ⦃J : Json⦄ ⦃N : Asio⦄ where
  open J use {Value}

  abbrev pub control_command : Option Control → Value → Run (Command Call)
  control_command none doc = abort
  control_command (some open_control) doc = do
    r ← parser_open doc
    parsed_command (λ (d : MessageOpen). done (call (open_at d.remote))) r
  control_command (some close) doc = do
    r ← parser_close doc
    parsed_command (λ (d : MessageClose). done (call (close_at d.local))) r
  control_command (some status) doc = done report
  control_command (some _) doc = done nonsense

  abbrev pub command : MessageType → Option Control → Value → Run (Command Call)
  command control k doc = control_command k doc
  command payload k doc = do r ← parser_data doc; parsed_command (λ d. done (call (send d))) r

module _ ⦃J : Json⦄ ⦃B : Build J⦄ ⦃N : Asio⦄ (T : SocketType Endpoint) (eq : Discrete Endpoint)
    (code : Failure T.Code → ErrorCode) (made : Run T.Socket) where
  open J use {Value}

  abbrev pub listing : Sockets T eq → Run Value
  listing m = status_of T eq m

  abbrev pub act : Call → Sockets T eq → Run (Sockets T eq × Answer Value)
  act (send d) m = answered tcp_client code quietly (udp_write T eq d.local d.payload m)
  act (open_at ep) m = do r ← udp_open T eq ep made m; publicly listing r.0
  act (close_at ep) m = answered udp_client code (publicly listing) (udp_close T eq ep m)

module _ {ℓ} ⦃J : Json⦄ ⦃B : Build J⦄ ⦃N : Asio⦄ {H : Type ℓ} {S : Type 0} (now : ℕ → ℕ)
    (apps : List (Entry H)) (T : SocketType Endpoint) (eq : Discrete Endpoint)
    (code : Failure T.Code → ErrorCode) (made : Run T.Socket) where
  open J use {Value}

  module _ (ws : S) (e e' : Entry H) (named : Named apps udp_client e)
      (named' : Named apps tcp_client e') (doc : Value) (m : Sockets T eq) (o : Outbox S Text) where
    abbrev meaning : Call → Sockets T eq → Run (Sockets T eq × Answer Value)
    meaning = act T eq code made

    abbrev shown : Sockets T eq → Run Value
    shown = listing T eq code made

    -- The run of a handler obeys this command.
    abbrev Does : Run (Command Call) → Run (Sockets T eq × Outbox S Text) → Type 0
    Does c r = Obeys now apps udp_client ws o meaning shown c m r

    message_status-Does :
        (m' : Sockets T eq)
        → Meets now apps udp_client ws o meaning shown
            (publicly shown m')
            (message_status now apps T eq code made (m', o))
    unfolding message_status
    message_status-Does m' = report-Obeys now apps udp_client ws o meaning shown e named m'

    message_data-Does :
        Does (command payload none doc) (message_data now apps T eq code made ws doc (m, o))
    unfolding message_data
    message_data-Does =
        if_parsed-Obeys now apps udp_client ws o meaning shown e named m (parser_data doc) _ _ λ d.
          if_error-Meets now apps udp_client ws o meaning shown tcp_client e' named' code quietly
            (udp_write T eq d.local d.payload m) _ λ m'. refl

    message_open-Does :
        Does
          (control_command (some open_control) doc)
          (message_open now apps T eq code made ws doc (m, o))
    unfolding message_open
    message_open-Does =
        if_parsed-Obeys now apps udp_client ws o meaning shown e named m (parser_open doc) _ _ λ d.
          call-Meets now apps udp_client ws o meaning shown (udp_open T eq d.remote made m) _ _
            λ r. message_status-Does r.0

    message_close-Does :
        Does
          (control_command (some close) doc)
          (message_close now apps T eq code made ws doc (m, o))
    unfolding message_close
    message_close-Does =
        if_parsed-Obeys now apps udp_client ws o meaning shown e named m (parser_close doc) _ _ λ d.
          if_error-Meets now apps udp_client ws o meaning shown udp_client e named code
            (publicly shown) (udp_close T eq d.local m) _ message_status-Does

    on_control-Does :
        (k : Option Control)
        → Does (control_command k doc) (on_control now apps T eq code made k ws doc (m, o))
    on_control-Does none = refl
    on_control-Does (some open_control) = message_open-Does
    on_control-Does (some close) = message_close-Does
    on_control-Does (some status) = message_status-Does m
    on_control-Does (some _) = nonsense-Obeys now apps udp_client ws o meaning shown e named m

    on_type-Does :
        (t : MessageType) (k : Option Control)
        → Does (command t k doc) (on_type now apps T eq code made t k ws doc (m, o))
    on_type-Does control k = on_control-Does k
    on_type-Does payload k = message_data-Does

  -- With `udp_client` and `tcp_client` registered, the handler of `udp_client` does what the
  -- command of the message says, and it dies where the reading of the command does, where an open
  -- throws, and where a status is due and the endpoints of a client cannot be read. A message
  -- that is not read is answered as ill formed, and a status is sent to all if it is asked for. A
  -- data message goes to its client without an answer; an open, and a close without an error, are
  -- followed by the status of the container that they leave. An error of the container is
  -- answered to the sender alone, one of a data message in the name of `tcp_client`.
  pub udp_client_app-Obeys :
      (ws : S) (e e' : Entry H) (main : MainData) (doc : Value) (m : Sockets T eq)
      (o : Outbox S Text)
      → Named apps udp_client e
      → Named apps tcp_client e'
      → Obeys now apps udp_client ws o
          (act T eq code made)
          (listing T eq code made)
          (command main.type main.control doc)
          m
          (udp_client_app now apps T eq code made ws main doc (m, o))
  unfolding udp_client_app
  udp_client_app-Obeys ws e e' main doc m o named named' =
      on_type-Does ws e e' named named' doc m o main.type main.control
