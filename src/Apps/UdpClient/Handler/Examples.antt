-- ===== src/Apps/UdpClient/Handler/Examples.antt =====
-- An instance for the handler. A socket is its local endpoint and the bytes that it was given.
use xerock.Base.{ℕ, List, [], ◌++◌, some, none, false}
use xerock.Base.Run.{done}
use xerock.Json.Tree.{tree}
use xerock.Json.Tree.Builder.{builder}
use xerock.Core.Message.{udp_client, tcp_client, control, open_control, MainData}
use xerock.Core.Factory.Examples.{apps, entry, clock, outbox, udp_client-Named, tcp_client-Named}
use xerock.Asio.{Endpoint}
use xerock.Asio.Local.{local, loopback}
use xerock.MyAsync.ClientContainer.{SocketType}
use xerock.Apps.Samples.{addressed, message}
use xerock.Apps.Handler.Commands.{Obeys}
use xerock.Apps.Handler.Samples.{endpoint_discrete, some_code}
use xerock.Apps.UdpClient.Handler.{udp_client_app}
use xerock.Apps.UdpClient.Handler.Commands.{act, listing, command, udp_client_app-Obeys}

abbrev sockets : SocketType Endpoint
sockets = record {
  Socket = Endpoint × List ℕ;
  Code = ℕ;
  use_ssl = λ s. false;
  local_endpoint = λ s. done s.0;
  remote_endpoint = λ s. done s.0;
  open_socket = λ k s. done ((k, s.1), none);
  close_socket = λ s. none;
  close_client = λ s. s;
  write_socket = λ bytes s. (s.0, s.1 ++ bytes);
  write_to = λ k bytes s. (s.0, s.1 ++ bytes);
}

abbrev fresh : Endpoint × List ℕ
fresh = (record { address = loopback; port = 1 }, [])

abbrev main_data : MainData
main_data = record { app = udp_client; time = 1000; type = control; control = some open_control }

udp_client_app-Obeys_example :
    Obeys clock apps udp_client 1 outbox
      (act sockets endpoint_discrete some_code (done fresh))
      (listing sockets endpoint_discrete some_code (done fresh))
      (command main_data.type main_data.control (message (addressed 8080)))
      []
      (udp_client_app clock apps sockets endpoint_discrete some_code
        (done fresh)
        1
        main_data
        (message (addressed 8080))
        ([], outbox))
udp_client_app-Obeys_example =
    udp_client_app-Obeys clock apps sockets endpoint_discrete some_code (done fresh) 1
      (entry udp_client "udp_client") (entry tcp_client "tcp_client") main_data
      (message (addressed 8080)) [] outbox udp_client-Named tcp_client-Named
