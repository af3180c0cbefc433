-- ===== src/Apps/TcpServer/Handler/Examples.antt =====
-- Instances for the handler. A session is its endpoint and the bytes that it was given.
use xerock.Base.{ℕ, ◌≡◌, refl, List, [], ◌++◌, some, none, Option, true, false, codes}
use xerock.Base.Run.{done}
use xerock.Json.Tree.{tree, Tree, num, str, object, end, field}
use xerock.Json.Tree.Builder.{builder}
use xerock.Core.Message.{tcp_server, control, open_control, MainData}
use xerock.Core.Factory.Examples.{apps, entry, clock, outbox, tcp_server-Named}
use xerock.Asio.{Endpoint}
use xerock.Asio.Local.{local}
use xerock.MyAsync.ListenerContainer.{SessionType, Listener}
use xerock.Apps.Samples.{message, open_message}
use xerock.Apps.Endpoint.{is_valid_port}
use xerock.Apps.Handler.Commands.{Obeys}
use xerock.Apps.Handler.Samples.{endpoint_discrete, some_code}
use xerock.Apps.TcpServer.Parser.{MessageOpen, plain, default_options, parser_open}
use xerock.Apps.TcpServer.Make.{status_document}
use xerock.Apps.TcpServer.Handler.{Features, tpc_server_app}
use xerock.Apps.TcpServer.Handler.Commands.{act, command, tpc_server_app-Obeys}

abbrev sessions : SessionType Endpoint
sessions = record {
  Session = Endpoint × List ℕ;
  Code = ℕ;
  is_connected = λ s. true;
  endpoint = λ s. s.0;
  close_session = λ s. s;
  write_session = λ bytes s. (s.0, s.1 ++ bytes);
}

abbrev features : Features
features = record { support_ssl = true; support_plain = true; use_ssl = true }

abbrev listen : Endpoint → MessageOpen → Listener sessions × Option ℕ
listen ep d = (record { use_ssl = false; share = []; closing = false }, none)

abbrev main_data : MainData
main_data = record { app = tcp_server; time = 1000; type = control; control = some open_control }

tpc_server_app-Obeys_example :
    Obeys clock apps tcp_server 1 outbox
      (act sessions endpoint_discrete some_code features listen)
      (status_document sessions endpoint_discrete)
      (command main_data.type main_data.control (open_message 8080))
      []
      (tpc_server_app clock apps sessions endpoint_discrete some_code features listen 1 main_data
        (open_message 8080)
        ([], outbox))
tpc_server_app-Obeys_example =
    tpc_server_app-Obeys clock apps sessions endpoint_discrete some_code features listen 1
      (entry tcp_server "tcp_server") main_data (open_message 8080) [] outbox tcp_server-Named

abbrev named_host : Tree
named_host = message (
    object (
      field "addr" (str (codes "localhost"))
        (field "port" (num 8080) (field "secure" (str (codes "plain")) end))))

abbrev on_localhost : MessageOpen
on_localhost = record {
  secure = plain;
  port = 8080;
  addr = codes "localhost";
  options = default_options;
}

named_host_accepted : parser_open named_host ≡ done (some on_localhost)
unfolding parser_open is_valid_port
named_host_accepted = refl
