-- ===== src/Apps/TcpServer/Handler/Throw.antt =====
-- On an open with a text that is no address.
use xerock.Base.{ℕ, ◌≡◌, Option, none, some, List}
use xerock.Base.Run.{done, abort}
use xerock.Json.{Json}
use xerock.Json.Build.{Build}
use xerock.Core.Message.{tcp_server, control, open_control}
use xerock.Core.Dispatcher.{Entry}
use xerock.Core.Answers.{ErrorCode}
use xerock.Asio.{Asio, Endpoint}
use xerock.MyAsync.ListenerContainer.{SessionType, Listener, ListenFailure}
use xerock.Apps.TcpServer.Parser.{MessageOpen, parser_open}
use xerock.Apps.TcpServer.Handler.{Features, World, message_open, tpc_server_app}

module _ {ℓ} ⦃J : Json⦄ ⦃B : Build J⦄ ⦃N : Asio⦄ {H : Type ℓ} {S : Type 0} (now : ℕ → ℕ)
    (apps : List (Entry H)) (T : SessionType Endpoint) (eq : Discrete Endpoint)
    (code : ListenFailure T.Code → ErrorCode) (features : Features)
    (listen : Endpoint → MessageOpen → Listener T × Option T.Code) where
  open N use {make_address}

  -- An open message that the parser accepts, with a text that is no address, ends the daemon.
  pub tpc_server_app-abort :
      (ws : S) (time : ℕ) (doc : J.Value) (d : MessageOpen) (st : World T eq S)
      → parser_open doc ≡ done (some d)
      → make_address d.addr ≡ none
      → tpc_server_app now apps T eq code features listen ws
          (record { app = tcp_server; time = time; type = control; control = some open_control })
          doc
          st
        ≡ abort
  unfolding tpc_server_app message_open
  tpc_server_app-abort ws time doc d st h bad = rw (h, bad)
