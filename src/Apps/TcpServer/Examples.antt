-- ===== src/Apps/TcpServer/Examples.antt =====
-- Tests and instances for the parsers of `tcp_server`.
use xerock.Base.{arith, ◌≡◌, refl, none, some, [], ◌∷◌, codes}
use xerock.Base.Run.{done, Decides}
use xerock.Json.Tree.{tree, Tree, num, str, array, object, nil, cons, end, field}
use xerock.Json.Fields.{With}
use xerock.Json.Bytes.{read_bytes}
use xerock.Asio.Local.{local, loopback}
use xerock.Apps.Samples.{addressed, message, open_message, numbers-Unsigned, payload-Unsigned}
use xerock.Apps.Endpoint.{Names, get_endpoint, is_valid_port}
use xerock.Apps.TcpServer.Parser.{parser_close, parser_open, parser_data, MessageOpen}
use xerock.Apps.TcpServer.Parser.Data.{DataOf, parser_data-Decides}
use xerock.Apps.TcpServer.Parser.Truncation.{parser_open_cuts_port}

abbrev data_object : Tree → Tree
data_object element = object (
    field "from" (addressed 8080) (
      field "to" (array (cons (addressed 9090) nil))
        (field "data" (object (field "0" element end)) end)))

abbrev data_message : Tree → Tree
data_message element = message (data_object element)

abbrev close_client_message : Tree
close_client_message =
    message (object (field "server" (addressed 8080) (field "client" (addressed 9090) end)))

close_accepted :
    parser_close (message (addressed 8080))
    ≡ done (some (record { endpoint = record { address = loopback; port = 8080 } }))
unfolding parser_close get_endpoint is_valid_port
close_accepted = refl

close_low_port : parser_close (message (addressed 1024)) ≡ done none
unfolding parser_close get_endpoint is_valid_port
close_low_port = refl

data_accepted :
    parser_data (data_message (num 300))
    ≡ done (
        some (record {
          from = record { address = loopback; port = 8080 };
          to = record { address = loopback; port = 9090 } ∷ [];
          payload = 44 ∷ [];
        }))
unfolding parser_data get_endpoint is_valid_port read_bytes
data_accepted = refl

parser_open_cuts_port_example :
    ((m : MessageOpen) × (parser_open (open_message 73616) ≡ done (some m)) × (m.port ≡ 8080))
    × (parser_close (open_message 73616) ≡ done none)
parser_open_cuts_port_example =
    parser_open_cuts_port (open_message 73616) _ _ _ _ 8080 (codes "plain") (codes "127.0.0.1") refl
      (refl, refl) (refl, refl) (refl, refl) (refl, refl) refl refl refl (omega arith) (omega arith)

named_8080 : Names (addressed 8080) (record { address = loopback; port = 8080 })
named_8080 = (
  num 8080,
  str (codes "127.0.0.1"),
  codes "127.0.0.1",
  (refl, refl),
  (refl, refl),
  refl,
  refl,
  refl,
  omega arith,
  omega arith,
)

named_9090 : Names (addressed 9090) (record { address = loopback; port = 9090 })
named_9090 = (
  num 9090,
  str (codes "127.0.0.1"),
  codes "127.0.0.1",
  (refl, refl),
  (refl, refl),
  refl,
  refl,
  refl,
  omega arith,
  omega arith,
)

parser_data-Decides_example :
    Decides
      (λ m. With tree.is_object (data_message (num 300)) "data" (λ d. DataOf d m))
      (parser_data (data_message (num 300)))
parser_data-Decides_example =
    parser_data-Decides (data_message (num 300)) refl
      (payload-Unsigned (data_message (num 300)) refl refl numbers-Unsigned)
