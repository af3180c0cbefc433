-- ===== src/Apps/TcpClient/Handler.antt =====
-- src/apps/tcp_client/tcp_client.cpp, with the test of the kind of socket in `open` of
-- src/libs/my_async/include/my_async/tcp_client/impl/container_impl.hpp. The state has the clients
-- of the container, the attempts to connect that were started, and the clients that were let go of.
-- `code` gives the value and the text of an error of the library's, and `wrong_protocol_type` is
-- the code of that name.
pub mod Commands
mod Examples
use xerock.Base.{ℕ, Bool, Option, none, some, List, [], ◌∷◌, ◌++◌, ◌&&◌, Text, if◌then◌else◌}
use xerock.Base.Run.{Run, done, abort, ◌>>=◌}
use xerock.Json.{Json}
use xerock.Json.Build.{Build}
use xerock.Core.Message.{
  MessageType, payload, control, Control, status, open_control, close, MainData, tcp_client,
}
use xerock.Core.Dispatcher.{Entry}
use xerock.Core.Outbox.{Outbox}
use xerock.Core.Answers.{ErrorCode, ill_formed, make_error_code}
use xerock.Asio.{Asio, Endpoint}
use xerock.MyAsync.ClientContainer.{
  SocketType, Sockets, Outcome, Failure, tcp_opened, tcp_close, tcp_write, tcp_endpoints,
}
use xerock.Apps.Handler.{fail, send_status, if_parsed, if_error}
use xerock.Apps.TcpServer.Parser.{SecureType, plain, ssl}
use xerock.Apps.TcpServer.Handler.{Features}
use xerock.Apps.TcpClient.Parser.{MessageOpen, parser_data, parser_open, parser_close}
use xerock.Apps.TcpClient.Make.{status_document}

module _ ⦃N : Asio⦄ (T : SocketType Endpoint) (eq : Discrete Endpoint) where
  pub record Clients : Type 0 where
    pub sockets : Sockets T eq
    pub attempts : List MessageOpen
    pub let_go : List T.Socket

  abbrev pub World : Type 0 → Type 0
  World S = Clients × Outbox S Text

  -- A call on the container leaves the attempts.
  abbrev pub on_sockets : Sockets T eq × Outcome T eq → Clients → Clients × Outcome T eq
  on_sockets (s, ec) m = (record m { sockets = s }, ec)

  -- A close of the container, with the client that it has closed and let go of.
  abbrev pub closed :
      Sockets T eq × (Option T.Socket × Outcome T eq) → Clients → Clients × Outcome T eq
  closed (s, (none, ec)) m = (record m { sockets = s }, ec)
  closed (s, (some client, ec)) m = (record m { sockets = s; let_go = m.let_go ++ client ∷ [] }, ec)

-- Whether `open` starts an attempt: the build and the container have this kind of socket.
unfoldable pub supported : Features → SecureType → Bool
supported f plain = f.support_plain
supported f ssl = f.use_ssl && f.support_ssl

-- The document of the status, for which the container reads the endpoints of all its sockets.
module _ ⦃J : Json⦄ ⦃B : Build J⦄ ⦃N : Asio⦄ (T : SocketType Endpoint)
    (eq : Discrete Endpoint) where
  abbrev pub status_of : Sockets T eq → Run J.Value
  status_of m = do eps ← tcp_endpoints T eq m; done (status_document eps)

module _ {ℓ} ⦃J : Json⦄ ⦃B : Build J⦄ ⦃N : Asio⦄ {H : Type ℓ} {S : Type 0} (now : ℕ → ℕ)
    (apps : List (Entry H)) (T : SocketType Endpoint) (eq : Discrete Endpoint)
    (code : Failure T.Code → ErrorCode) (features : Features)
    (wrong_protocol_type : ErrorCode) where
  open J use {Value}

  unfoldable pub message_status : World T eq S → Run (World T eq S)
  unfolding status_document
  message_status (m, o) = do v ← status_of T eq m.sockets; send_status now apps tcp_client v (m, o)

  unfoldable pub message_data : S → Value → World T eq S → Run (World T eq S)
  message_data ws doc (m, o) = do
    r ← parser_data doc
    if_parsed now apps tcp_client ws (make_error_code ill_formed) r (m, o)
        λ d.
          if_error now apps tcp_client ws code
            (on_sockets T eq (tcp_write T eq d.local d.payload m.sockets) m) o λ m'. done (m', o)

  unfoldable pub message_close : S → Value → World T eq S → Run (World T eq S)
  message_close ws doc (m, o) = do
    r ← parser_close doc
    if_parsed now apps tcp_client ws (make_error_code ill_formed) r (m, o)
        λ d.
          if_error now apps tcp_client ws code (closed T eq (tcp_close T eq d.local m.sockets) m) o
            λ m'. done (m', o)

  unfoldable pub message_open : S → Value → World T eq S → Run (World T eq S)
  unfolding supported
  message_open ws doc (m, o) = do
    r ← parser_open doc
    if_parsed now apps tcp_client ws (make_error_code ill_formed) r (m, o)
        λ d.
          if supported features d.secure
          then done (record m { attempts = m.attempts ++ d ∷ [] }, o)
          else fail now apps tcp_client ws wrong_protocol_type (m, o)

  abbrev pub after_attempt : Clients T eq × Outcome T eq → Outbox S Text → Run (World T eq S)
  after_attempt (m, none) o = message_status (m, o)
  after_attempt (m, some e) o = done (m, o)

  -- The callback of `open` for an attempt that has ended: `if(ec) return; init_client(…)`.
  unfoldable pub connected : T.Socket × Option T.Code → World T eq S → Run (World T eq S)
  unfolding message_status
  connected r (m, o) = do q ← tcp_opened T eq r m.sockets; after_attempt (on_sockets T eq q m) o

  -- The switch on `main.control`, which a control message has.
  abbrev pub on_control : Option Control → S → Value → World T eq S → Run (World T eq S)
  on_control none ws doc st = abort
  on_control (some open_control) ws doc st = message_open ws doc st
  on_control (some close) ws doc st = message_close ws doc st
  on_control (some status) ws doc st = message_status st
  on_control (some _) ws doc st = fail now apps tcp_client ws (make_error_code ill_formed) st

  abbrev pub on_type : MessageType → Option Control → S → Value → World T eq S → Run (World T eq S)
  on_type control k ws doc st = on_control k ws doc st
  on_type payload k ws doc st = message_data ws doc st

  -- The source spells it so.
  unfoldable pub tpc_client_app : S → MainData → Value → World T eq S → Run (World T eq S)
  unfolding message_open message_close message_status message_data
  tpc_client_app ws m doc st = on_type m.type m.control ws doc st
