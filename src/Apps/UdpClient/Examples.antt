-- ===== src/Apps/UdpClient/Examples.antt =====
-- Tests and instances for the parsers of `udp_client`.
use xerock.Base.{◌≡◌, refl, some, [], ◌∷◌}
use xerock.Base.Run.{done}
use xerock.Json.Tree.{tree}
use xerock.Json.Bytes.{read_bytes}
use xerock.Asio.Local.{local, loopback}
use xerock.Apps.Samples.{message, local_object}
use xerock.Apps.Endpoint.{check_addr, get_endpoint, is_valid_port}
use xerock.Apps.InData.{check_local_data, get_local_data}
use xerock.Apps.UdpClient.Parser.{parser_data, get_data}

data_accepted :
    parser_data (message local_object)
    ≡ done (some (record { local = record { address = loopback; port = 8080 }; payload = 44 ∷ [] }))
unfolding parser_data get_data get_local_data check_local_data check_addr get_endpoint is_valid_port
    read_bytes
data_accepted = refl
