-- ===== src/Apps/TcpServer/Handler.antt =====
-- src/apps/tcp_server/tcp_server.cpp. The listeners are those of the container. `code` gives the value
-- and the text of an error of the library's, `listen` makes a listener with the options of a message,
-- and the Booleans are the container's parameters and the flag USE_SSL of the build.
pub mod Commands
pub mod Throw
mod Examples
use xerock.Base.{ℕ, Bool, true, false, Option, none, some, List, Text, if◌then◌else◌, ◌&&◌, not}
use xerock.Base.Run.{Run, done, abort, ◌>>=◌}
use xerock.Json.{Json}
use xerock.Json.Build.{Build}
use xerock.Core.Message.{
  MessageType, payload, control, Control, status, open_control, close, custom, MainData, tcp_server,
}
use xerock.Core.Dispatcher.{Entry}
use xerock.Core.Outbox.{Outbox}
use xerock.Core.Answers.{
  ErrorCode, ill_formed, server_internal_error, resource_in_use, resource_not_found,
  make_error_code,
}
use xerock.Asio.{Asio, Endpoint}
use xerock.MyAsync.ListenerContainer.{
  SessionType, Listener, Listeners, Result, ListenFailure, wrong_protocol_type, is_open,
  open_listener, write_clients, close_listener, close_listener_clients,
}
use xerock.Apps.Handler.{fail, send_status, if_parsed, if_error}
use xerock.Apps.TcpServer.Parser.{
  SecureType, plain, ssl, MessageOpen, parser_data, parser_open, parser_close, parser_close_clients,
}
use xerock.Apps.TcpServer.Make.{status_document}

-- The listeners of the container, beside the outbox.
module _ ⦃N : Asio⦄ (T : SessionType Endpoint) (eq : Discrete Endpoint) where
  abbrev pub World : Type 0 → Type 0
  World S = Listeners T eq × Outbox S Text

-- How the daemon was built.
pub record Features : Type 0 where
  pub support_ssl : Bool
  pub support_plain : Bool
  pub use_ssl : Bool

module _ ⦃N : Asio⦄ where
  open N use {Address}

  -- `make_address(data.addr)` throws where the text is no address.
  abbrev pub addressed : Option Address → MessageOpen → Run Endpoint
  addressed none d = abort
  addressed (some a) d = done (record { address = a; port = d.port })

module _ ⦃N : Asio⦄ (T : SessionType Endpoint) (eq : Discrete Endpoint) (features : Features)
    (listen : Endpoint → MessageOpen → Listener T × Option T.Code) where
  -- `if(data.secure == Secure_Type::plain) servers->open<Session<false>>(…) else …`
  abbrev pub open_with :
      SecureType → Endpoint → MessageOpen → Listeners T eq → Listeners T eq × Result T eq
  open_with plain ep d m =
      open_listener T eq features.support_ssl features.support_plain false ep (listen ep d) m
  open_with ssl ep d m =
      if features.use_ssl
      then open_listener T eq features.support_ssl features.support_plain true ep (listen ep d) m
      else (m, some wrong_protocol_type)

module _ {ℓ} ⦃J : Json⦄ ⦃B : Build J⦄ ⦃N : Asio⦄ {H : Type ℓ} {S : Type 0} (now : ℕ → ℕ)
    (apps : List (Entry H)) (T : SessionType Endpoint) (eq : Discrete Endpoint)
    (code : ListenFailure T.Code → ErrorCode) (features : Features)
    (listen : Endpoint → MessageOpen → Listener T × Option T.Code) where
  open J use {Value}
  open N use {make_address}

  unfoldable pub message_status : World T eq S → Run (World T eq S)
  unfolding status_document
  message_status (m, o) = do v ← status_document T eq m; send_status now apps tcp_server v (m, o)

  unfoldable pub message_data : S → Value → World T eq S → Run (World T eq S)
  message_data ws doc (m, o) = do
    r ← parser_data doc
    if_parsed now apps tcp_server ws (make_error_code ill_formed) r (m, o)
        λ d. do
          r ← write_clients T eq d.from d.to d.payload m
          if_error now apps tcp_server ws code r o λ m'. done (m', o)

  -- The end of message_close, behind the test of the endpoint.
  unfoldable pub close_open : S → Endpoint → World T eq S → Run (World T eq S)
  unfolding message_status
  close_open ws ep (m, o) =
      let (m', (closed, ec)) = close_listener T eq ep m in
      if_error now apps tcp_server ws (λ _. make_error_code server_internal_error) (m', ec) o
        λ m'. message_status (m', o)

  unfoldable pub message_close : S → Value → World T eq S → Run (World T eq S)
  unfolding close_open
  message_close ws doc (m, o) = do
    r ← parser_close doc
    if_parsed now apps tcp_server ws (make_error_code ill_formed) r (m, o)
        λ d.
          if is_open T eq d.endpoint m
          then close_open ws d.endpoint (m, o)
          else fail now apps tcp_server ws (make_error_code resource_not_found) (m, o)

  -- The end of message_open, for the endpoint.
  unfoldable pub open_free : S → Endpoint → MessageOpen → World T eq S → Run (World T eq S)
  unfolding message_status
  open_free ws ep d (m, o) =
      if is_open T eq ep m
      then fail now apps tcp_server ws (make_error_code resource_in_use) (m, o)
      else if_error now apps tcp_server ws code (open_with T eq features listen d.secure ep d m) o
          λ m'. message_status (m', o)

  unfoldable pub message_open : S → Value → World T eq S → Run (World T eq S)
  unfolding open_free
  message_open ws doc (m, o) = do
    r ← parser_open doc
    if_parsed now apps tcp_server ws (make_error_code ill_formed) r (m, o)
        λ d. do ep ← addressed (make_address d.addr) d; open_free ws ep d (m, o)

  unfoldable pub message_close_clients : S → Value → World T eq S → Run (World T eq S)
  message_close_clients ws doc (m, o) = do
    r ← parser_close_clients doc
    if_parsed now apps tcp_server ws (make_error_code ill_formed) r (m, o)
        λ d. do
          r ← close_listener_clients T eq d.endpoint d.clients m
          if_error now apps tcp_server ws code r o λ m'. done (m', o)

  -- The switch on `main.control`, which a control message has.
  abbrev pub on_control : Option Control → S → Value → World T eq S → Run (World T eq S)
  on_control none ws doc st = abort
  on_control (some open_control) ws doc st = message_open ws doc st
  on_control (some close) ws doc st = message_close ws doc st
  on_control (some status) ws doc st = message_status st
  on_control (some custom) ws doc st = message_close_clients ws doc st
  on_control (some _) ws doc st = fail now apps tcp_server ws (make_error_code ill_formed) st

  abbrev pub on_type : MessageType → Option Control → S → Value → World T eq S → Run (World T eq S)
  on_type control k ws doc st = on_control k ws doc st
  on_type payload k ws doc st = message_data ws doc st

  -- The source spells it so.
  unfoldable pub tpc_server_app : S → MainData → Value → World T eq S → Run (World T eq S)
  unfolding message_open message_close message_status message_close_clients message_data
  tpc_server_app ws m doc st = on_type m.type m.control ws doc st
