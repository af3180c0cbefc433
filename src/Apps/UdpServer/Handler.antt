-- ===== src/Apps/UdpServer/Handler.antt =====
-- src/apps/udp_server/udp_server.cpp. The servers are those of the container; `code` gives the value
-- and the text of an error of the library's.
pub mod Commands
mod Examples
use xerock.Base.{ℕ, Option, none, some, List, Text}
use xerock.Base.Run.{Run, done, abort, ◌>>=◌}
use xerock.Json.{Json}
use xerock.Json.Build.{Build}
use xerock.Core.Message.{
  MessageType, payload, control, Control, status, open_control, close, MainData, udp_server,
}
use xerock.Core.Dispatcher.{Entry}
use xerock.Core.Outbox.{Outbox}
use xerock.Core.Answers.{ErrorCode, ill_formed, server_internal_error, make_error_code}
use xerock.Asio.{Asio, Endpoint}
use xerock.MyAsync.ClientContainer.{
  SocketType, Sockets, Failure, server_open, server_close, server_write_all, server_endpoints,
}
use xerock.Apps.Handler.{fail, send_status, if_parsed, if_error}
use xerock.Apps.UdpServer.Parser.{parser_data, parser_open, parser_close}
use xerock.Apps.UdpServer.Make.{status_document}

-- The servers of the container, beside the outbox.
module _ ⦃N : Asio⦄ (T : SocketType Endpoint) (eq : Discrete Endpoint) where
  abbrev pub World : Type 0 → Type 0
  World S = Sockets T eq × Outbox S Text

module _ {ℓ} ⦃J : Json⦄ ⦃B : Build J⦄ ⦃N : Asio⦄ {H : Type ℓ} {S : Type 0} (now : ℕ → ℕ)
    (apps : List (Entry H)) (T : SocketType Endpoint) (eq : Discrete Endpoint)
    (code : Failure T.Code → ErrorCode) (made : T.Socket) where
  open J use {Value}

  unfoldable pub message_status : World T eq S → Run (World T eq S)
  unfolding status_document
  message_status (m, o) =
      send_status now apps udp_server (status_document (server_endpoints T eq m)) (m, o)

  unfoldable pub message_data : S → Value → World T eq S → Run (World T eq S)
  message_data ws doc (m, o) = do
    r ← parser_data doc
    if_parsed now apps udp_server ws (make_error_code ill_formed) r (m, o)
        λ d.
          if_error now apps udp_server ws code (server_write_all T eq d.from d.to d.payload m) o
            λ m'. done (m', o)

  unfoldable pub message_close : S → Value → World T eq S → Run (World T eq S)
  unfolding message_status
  message_close ws doc (m, o) = do
    r ← parser_close doc
    if_parsed now apps udp_server ws (make_error_code ill_formed) r (m, o)
        λ d.
          if_error now apps udp_server ws (λ _. make_error_code server_internal_error)
            (server_close T eq d.ep m) o λ m'. message_status (m', o)

  -- `made` is the server that the container makes.
  unfoldable pub message_open : S → Value → World T eq S → Run (World T eq S)
  unfolding message_status
  message_open ws doc (m, o) = do
    r ← parser_open doc
    if_parsed now apps udp_server ws (make_error_code ill_formed) r (m, o)
        λ d. do
          r ← server_open T eq d.ep made m
          if_error now apps udp_server ws code r o λ m'. message_status (m', o)

  -- The switch on `main.control`, which a control message has.
  abbrev pub on_control : Option Control → S → Value → World T eq S → Run (World T eq S)
  on_control none ws doc st = abort
  on_control (some open_control) ws doc st = message_open ws doc st
  on_control (some close) ws doc st = message_close ws doc st
  on_control (some status) ws doc st = message_status st
  on_control (some _) ws doc st = fail now apps udp_server ws (make_error_code ill_formed) st

  abbrev pub on_type : MessageType → Option Control → S → Value → World T eq S → Run (World T eq S)
  on_type control k ws doc st = on_control k ws doc st
  on_type payload k ws doc st = message_data ws doc st

  unfoldable pub udp_server_app : S → MainData → Value → World T eq S → Run (World T eq S)
  unfolding message_open message_close message_status message_data
  udp_server_app ws m doc st = on_type m.type m.control ws doc st
