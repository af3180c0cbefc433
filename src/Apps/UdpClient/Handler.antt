-- ===== src/Apps/UdpClient/Handler.antt =====
-- src/apps/udp_client/udp_client.cpp. The clients are those of the container; `code` gives the value
-- and the text of an error of the library's.
pub mod Commands
mod Examples
use xerock.Base.{ℕ, Option, none, some, List, Text}
use xerock.Base.Run.{Run, done, abort, ◌>>=◌}
use xerock.Json.{Json}
use xerock.Json.Build.{Build}
use xerock.Core.Message.{
  MessageType, payload, control, Control, status, open_control, close, MainData, tcp_client,
  udp_client,
}
use xerock.Core.Dispatcher.{Entry}
use xerock.Core.Outbox.{Outbox}
use xerock.Core.Answers.{ErrorCode, ill_formed, make_error_code}
use xerock.Asio.{Asio, Endpoint}
use xerock.MyAsync.ClientContainer.{
  SocketType, Sockets, Failure, udp_open, udp_close, udp_write, udp_endpoints,
}
use xerock.Apps.Handler.{fail, send_status, if_parsed, if_error}
use xerock.Apps.UdpClient.Parser.{parser_data, parser_open, parser_close}
use xerock.Apps.UdpClient.Make.{status_document}

-- The clients of the container, beside the outbox.
module _ ⦃N : Asio⦄ (T : SocketType Endpoint) (eq : Discrete Endpoint) where
  abbrev pub World : Type 0 → Type 0
  World S = Sockets T eq × Outbox S Text

-- The document of the status, for which the container reads the endpoints of all its sockets.
module _ ⦃J : Json⦄ ⦃B : Build J⦄ ⦃N : Asio⦄ (T : SocketType Endpoint)
    (eq : Discrete Endpoint) where
  abbrev pub status_of : Sockets T eq → Run J.Value
  status_of m = do eps ← udp_endpoints T eq m; done (status_document eps)

module _ {ℓ} ⦃J : Json⦄ ⦃B : Build J⦄ ⦃N : Asio⦄ {H : Type ℓ} {S : Type 0} (now : ℕ → ℕ)
    (apps : List (Entry H)) (T : SocketType Endpoint) (eq : Discrete Endpoint)
    (code : Failure T.Code → ErrorCode) (made : Run T.Socket) where
  open J use {Value}

  unfoldable pub message_status : World T eq S → Run (World T eq S)
  unfolding status_document
  message_status (m, o) = do v ← status_of T eq m; send_status now apps udp_client v (m, o)

  -- An error of the container is answered in the name of `tcp_client`.
  unfoldable pub message_data : S → Value → World T eq S → Run (World T eq S)
  message_data ws doc (m, o) = do
    r ← parser_data doc
    if_parsed now apps udp_client ws (make_error_code ill_formed) r (m, o)
        λ d.
          if_error now apps tcp_client ws code (udp_write T eq d.local d.payload m) o
            λ m'. done (m', o)

  unfoldable pub message_close : S → Value → World T eq S → Run (World T eq S)
  unfolding message_status
  message_close ws doc (m, o) = do
    r ← parser_close doc
    if_parsed now apps udp_client ws (make_error_code ill_formed) r (m, o)
        λ d.
          if_error now apps udp_client ws code (udp_close T eq d.local m) o
            λ m'. message_status (m', o)

  -- `made` is the client that the container makes, or the exception of its constructor; the container
  -- reports no error.
  unfoldable pub message_open : S → Value → World T eq S → Run (World T eq S)
  unfolding message_status
  message_open ws doc (m, o) = do
    r ← parser_open doc
    if_parsed now apps udp_client ws (make_error_code ill_formed) r (m, o)
        λ d. do r ← udp_open T eq d.remote made m; message_status (r.0, o)

  -- The switch on `main.control`, which a control message has.
  abbrev pub on_control : Option Control → S → Value → World T eq S → Run (World T eq S)
  on_control none ws doc st = abort
  on_control (some open_control) ws doc st = message_open ws doc st
  on_control (some close) ws doc st = message_close ws doc st
  on_control (some status) ws doc st = message_status st
  on_control (some _) ws doc st = fail now apps udp_client ws (make_error_code ill_formed) st

  abbrev pub on_type : MessageType → Option Control → S → Value → World T eq S → Run (World T eq S)
  on_type control k ws doc st = on_control k ws doc st
  on_type payload k ws doc st = message_data ws doc st

  unfoldable pub udp_client_app : S → MainData → Value → World T eq S → Run (World T eq S)
  unfolding message_open message_close message_status message_data
  udp_client_app ws m doc st = on_type m.type m.control ws doc st
