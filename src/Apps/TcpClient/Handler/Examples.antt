-- ===== src/Apps/TcpClient/Handler/Examples.antt =====
-- An instance for the handler. A socket is its local endpoint and the bytes that it was given.
use xerock.Base.{ℕ, List, [], ◌++◌, some, none, false, true}
use xerock.Base.Run.{done}
use xerock.Json.Tree.{tree}
use xerock.Json.Tree.Builder.{builder}
use xerock.Core.Message.{tcp_client, control, open_control, MainData}
use xerock.Core.Factory.Examples.{apps, entry, clock, outbox, tcp_client-Named}
use xerock.Base.Int.{pos}
use xerock.Core.Answers.{ErrorCode}
use xerock.Apps.TcpServer.Handler.{Features}
use xerock.Asio.{Endpoint}
use xerock.Asio.Local.{local}
use xerock.MyAsync.ClientContainer.{SocketType}
use xerock.Apps.Samples.{open_message}
use xerock.Apps.Handler.Commands.{Obeys}
use xerock.Apps.Handler.Samples.{endpoint_discrete, some_code}
use xerock.Apps.TcpClient.Handler.{Clients, tpc_client_app}
use xerock.Apps.TcpClient.Handler.Commands.{act, listing, command, tpc_client_app-Obeys}

abbrev sockets : SocketType Endpoint
sockets = record {
  Socket = Endpoint × List ℕ;
  Code = ℕ;
  use_ssl = λ s. false;
  local_endpoint = λ s. done s.0;
  remote_endpoint = λ s. done s.0;
  open_socket = λ k s. done ((k, s.1), none);
  close_socket = λ s. none;
  close_client = λ s. s;
  write_socket = λ bytes s. (s.0, s.1 ++ bytes);
  write_to = λ k bytes s. (s.0, s.1 ++ bytes);
}

abbrev features : Features
features = record { support_ssl = true; support_plain = true; use_ssl = true }

abbrev wrong : ErrorCode
wrong = record { value = pos 91; message = [] }

abbrev no_clients : Clients sockets endpoint_discrete
no_clients = record { sockets = []; attempts = []; let_go = [] }

abbrev main_data : MainData
main_data = record { app = tcp_client; time = 1000; type = control; control = some open_control }

tpc_client_app-Obeys_example :
    Obeys clock apps tcp_client 1 outbox
      (act sockets endpoint_discrete some_code features wrong)
      (listing sockets endpoint_discrete some_code features wrong)
      (command main_data.type main_data.control (open_message 8080))
      no_clients
      (tpc_client_app clock apps sockets endpoint_discrete some_code features wrong 1 main_data
        (open_message 8080)
        (no_clients, outbox))
tpc_client_app-Obeys_example =
    tpc_client_app-Obeys clock apps sockets endpoint_discrete some_code features wrong 1
      (entry tcp_client "tcp_client") main_data (open_message 8080) no_clients outbox
      tcp_client-Named
