-- ===== src/Apps/TcpServer/Handler/Commands.antt =====
-- On the handler of `tcp_server`: the commands that it obeys.
use xerock.Base.{
  ℕ, ◌≡◌, refl, true, Bool-cases, inl, inr, Option, none, some, List, Text, if◌then◌else◌,
}
use xerock.Base.Run.{Run, done, abort, ◌>>=◌}
use xerock.Json.{Json}
use xerock.Json.Build.{Build}
use xerock.Core.Message.{
  MessageType, payload, control, Control, status, open_control, close, custom, MainData, tcp_server,
}
use xerock.Core.Dispatcher.{Entry}
use xerock.Core.Outbox.{Outbox}
use xerock.Core.Factory.Accepted.{Named}
use xerock.Core.Answers.{ErrorCode, resource_in_use, resource_not_found, make_error_code}
use xerock.Asio.{Asio, Endpoint}
use xerock.MyAsync.ListenerContainer.{
  SessionType, Listener, Listeners, ListenFailure, is_open, write_clients, close_listener,
  close_listener_clients,
}
use xerock.MyAsync.ListenerContainer.Refinement.{close_listener-none}
use xerock.Apps.Handler.{Answer, refused, fail, fail-Answers}
use xerock.Apps.Handler.Commands.{
  Command, nonsense, report, call, parsed_command, quietly, publicly, answered, Obeys, Meets,
  call-Meets, nonsense-Obeys, report-Obeys, if_parsed-Obeys, if_error-Meets,
}
use xerock.Apps.TcpServer.Parser.{
  MessageData, MessageOpen, MessageClose, MessageCloseClient, parser_data, parser_open,
  parser_close, parser_close_clients,
}
use xerock.Apps.TcpServer.Make.{status_document}
use xerock.Apps.TcpServer.Handler.{
  Features, addressed, open_with, close_open, open_free, message_status, message_data,
  message_close, message_open, message_close_clients, on_control, on_type, tpc_server_app,
}

-- What a user can ask for.
pub data Call ⦃N : Asio⦄ : Type 0 where
  send : MessageData → Call
  open_at : Endpoint → MessageOpen → Call
  close_at : Endpoint → Call
  close_clients_at : MessageCloseClient → Call

module _ ⦃J : Json⦄ ⦃N : Asio⦄ where
  open J use {Value}
  open N use {make_address}

  abbrev pub opening : Option N.Address → MessageOpen → Run (Command Call)
  opening none d = abort
  opening (some a) d = done (call (open_at (record { address = a; port = d.port }) d))

  abbrev pub control_command : Option Control → Value → Run (Command Call)
  control_command none doc = abort
  control_command (some open_control) doc = do
    r ← parser_open doc
    parsed_command (λ (d : MessageOpen). opening (make_address d.addr) d) r
  control_command (some close) doc = do
    r ← parser_close doc
    parsed_command (λ (d : MessageClose). done (call (close_at d.endpoint))) r
  control_command (some status) doc = done report
  control_command (some custom) doc = do
    r ← parser_close_clients doc
    parsed_command (λ d. done (call (close_clients_at d))) r
  control_command (some _) doc = done nonsense

  abbrev pub command : MessageType → Option Control → Value → Run (Command Call)
  command control k doc = control_command k doc
  command payload k doc = do r ← parser_data doc; parsed_command (λ d. done (call (send d))) r

module _ ⦃J : Json⦄ ⦃B : Build J⦄ ⦃N : Asio⦄ (T : SessionType Endpoint) (eq : Discrete Endpoint)
    (code : ListenFailure T.Code → ErrorCode) (features : Features)
    (listen : Endpoint → MessageOpen → Listener T × Option T.Code) where
  open J use {Value}

  -- What a call does to the listeners, and how it is answered.
  abbrev pub act : Call → Listeners T eq → Run (Listeners T eq × Answer Value)
  act (send d) m = do
    r ← write_clients T eq d.from d.to d.payload m
    answered tcp_server code quietly r
  act (close_clients_at d) m = do
    r ← close_listener_clients T eq d.endpoint d.clients m
    answered tcp_server code quietly r
  act (close_at ep) m =
      if is_open T eq ep m
      then publicly (status_document T eq) (close_listener T eq ep m).0
      else done (m, refused tcp_server (make_error_code resource_not_found))
  act (open_at ep d) m =
      if is_open T eq ep m
      then done (m, refused tcp_server (make_error_code resource_in_use))
      else answered tcp_server code (publicly (status_document T eq))
          (open_with T eq features listen d.secure ep d m)

module _ {ℓ} ⦃J : Json⦄ ⦃B : Build J⦄ ⦃N : Asio⦄ {H : Type ℓ} {S : Type 0} (now : ℕ → ℕ)
    (apps : List (Entry H)) (T : SessionType Endpoint) (eq : Discrete Endpoint)
    (code : ListenFailure T.Code → ErrorCode) (features : Features)
    (listen : Endpoint → MessageOpen → Listener T × Option T.Code) where
  open J use {Value}
  open N use {make_address}

  module _ (ws : S) (e : Entry H) (named : Named apps tcp_server e) (doc : Value)
      (m : Listeners T eq) (o : Outbox S Text) where
    abbrev meaning : Call → Listeners T eq → Run (Listeners T eq × Answer Value)
    meaning = act T eq code features listen

    abbrev shown : Listeners T eq → Run Value
    shown = status_document T eq

    -- The run of a handler obeys this command.
    abbrev Does : Run (Command Call) → Run (Listeners T eq × Outbox S Text) → Type 0
    Does c r = Obeys now apps tcp_server ws o meaning shown c m r

    message_status-Does :
        (m' : Listeners T eq)
        → Meets now apps tcp_server ws o meaning shown
            (publicly shown m')
            (message_status now apps T eq code features listen (m', o))
    unfolding message_status
    message_status-Does m' = report-Obeys now apps tcp_server ws o meaning shown e named m'

    message_data-Does :
        Does
          (command payload none doc)
          (message_data now apps T eq code features listen ws doc (m, o))
    unfolding message_data
    message_data-Does =
        if_parsed-Obeys now apps tcp_server ws o meaning shown e named m (parser_data doc) _ _ λ d.
          call-Meets now apps tcp_server ws o meaning shown
            (write_clients T eq d.from d.to d.payload m) _ _
            λ r.
              if_error-Meets now apps tcp_server ws o meaning shown tcp_server e named code quietly
                r _ λ m'. refl

    message_close_clients-Does :
        Does
          (control_command (some custom) doc)
          (message_close_clients now apps T eq code features listen ws doc (m, o))
    unfolding message_close_clients
    message_close_clients-Does =
        if_parsed-Obeys now apps tcp_server ws o meaning shown e named m (parser_close_clients doc)
          _ _
          λ d.
            call-Meets now apps tcp_server ws o meaning shown
              (close_listener_clients T eq d.endpoint d.clients m) _ _
              λ r.
                if_error-Meets now apps tcp_server ws o meaning shown tcp_server e named code
                  quietly r _ λ m'. refl

    open_free-Does :
        (ep : Endpoint) (d : MessageOpen)
        → Does
            (done (call (open_at ep d)))
            (open_free now apps T eq code features listen ws ep d (m, o))
    unfolding open_free
    open_free-Does ep d = elim (Bool-cases (is_open T eq ep m)) [
      | inl t ↦ rw t (
          fail-Answers now apps tcp_server ws e named o tcp_server m
            (make_error_code resource_in_use))
      | inr f ↦ rw f (
          if_error-Meets now apps tcp_server ws o meaning shown tcp_server e named code
            (publicly shown) (open_with T eq features listen d.secure ep d m) _ message_status-Does)
    ]

    addressed-Does :
        (a : Option N.Address) (d : MessageOpen)
        → Does
            (opening a d)
            (do ep ← addressed a d; open_free now apps T eq code features listen ws ep d (m, o))
    addressed-Does none d = refl
    addressed-Does (some a) d = open_free-Does (record { address = a; port = d.port }) d

    message_open-Does :
        Does
          (control_command (some open_control) doc)
          (message_open now apps T eq code features listen ws doc (m, o))
    unfolding message_open
    message_open-Does =
        if_parsed-Obeys now apps tcp_server ws o meaning shown e named m (parser_open doc) _ _
          λ d. addressed-Does (make_address d.addr) d

    close_open-Does :
        (ep : Endpoint)
        → is_open T eq ep m ≡ true
        → Meets now apps tcp_server ws o meaning shown
            (publicly shown (close_listener T eq ep m).0)
            (close_open now apps T eq code features listen ws ep (m, o))
    unfolding close_open
    close_open-Does ep h =
        rw (close_listener-none T eq ep m h) (message_status-Does (close_listener T eq ep m).0)

    close_at-Does :
        (ep : Endpoint)
        → Does (done (call (close_at ep))) (
            if is_open T eq ep m
            then close_open now apps T eq code features listen ws ep (m, o)
            else fail now apps tcp_server ws (make_error_code resource_not_found) (m, o))
    close_at-Does ep = elim (Bool-cases (is_open T eq ep m)) [
      | inl t ↦ rw t (close_open-Does ep t)
      | inr f ↦ rw f (
          fail-Answers now apps tcp_server ws e named o tcp_server m
            (make_error_code resource_not_found))
    ]

    message_close-Does :
        Does
          (control_command (some close) doc)
          (message_close now apps T eq code features listen ws doc (m, o))
    unfolding message_close
    message_close-Does =
        if_parsed-Obeys now apps tcp_server ws o meaning shown e named m (parser_close doc) _ _
          λ d. close_at-Does d.endpoint

    on_control-Does :
        (k : Option Control)
        → Does
            (control_command k doc)
            (on_control now apps T eq code features listen k ws doc (m, o))
    on_control-Does none = refl
    on_control-Does (some open_control) = message_open-Does
    on_control-Does (some close) = message_close-Does
    on_control-Does (some status) = message_status-Does m
    on_control-Does (some custom) = message_close_clients-Does
    on_control-Does (some _) = nonsense-Obeys now apps tcp_server ws o meaning shown e named m

    on_type-Does :
        (t : MessageType) (k : Option Control)
        → Does (command t k doc) (on_type now apps T eq code features listen t k ws doc (m, o))
    on_type-Does control k = on_control-Does k
    on_type-Does payload k = message_data-Does

  -- With `tcp_server` registered, its handler does what the command of the message says, and it dies
  -- where the reading of the command does, and where a write, a close of clients or a status asks a
  -- session for its endpoint that is not connected. A message that is not read is answered as ill
  -- formed, and a status is sent to all if it is asked for. A data message goes to its receivers and
  -- a close of clients to its listener, without an answer. An open of an endpoint in use is answered
  -- as that, and one of any other endpoint is followed by the status of what it leaves. A close of
  -- an endpoint without a listener is answered as that, and any other close succeeds and is followed
  -- by the status. All errors are answered to the sender alone.
  pub tpc_server_app-Obeys :
      (ws : S) (e : Entry H) (main : MainData) (doc : Value) (m : Listeners T eq)
      (o : Outbox S Text)
      → Named apps tcp_server e
      → Obeys now apps tcp_server ws o
          (act T eq code features listen)
          (status_document T eq)
          (command main.type main.control doc)
          m
          (tpc_server_app now apps T eq code features listen ws main doc (m, o))
  unfolding tpc_server_app
  tpc_server_app-Obeys ws e main doc m o named =
      on_type-Does ws e named doc m o main.type main.control
