-- ===== src/Apps/TcpClient/Parser/Exact.antt =====
-- On the documents that `parser_data` and `parser_close` of `tcp_client` accept.

use xerock.Base.{◌≡◌, true}
use xerock.Base.Run.{Decides, Decides-bind}
use xerock.Json.{Json}
use xerock.Json.Fields.{Field, With}
use xerock.Json.Payload.{is_payload, Unsigned}
use xerock.Asio.{Asio}
use xerock.Apps.Endpoint.{
  check_port, HasPort, check_port-Settles, get_endpoint, Names, get_endpoint-Decides,
}
use xerock.Apps.InData.{
  parse_data-Decides, check_local_data, HasLocal, check_local_data-Settles, get_local_data,
  LocalData, LocalData-HasLocal, get_local_data-Decides,
}
use xerock.Apps.TcpClient.Parser.{
  check_data, check_close, get_data, get_close, parser_data, parser_close,
}

module _ ⦃J : Json⦄ ⦃N : Asio⦄ where
  open J use {Value, is_object}

  -- On a document that is an object, in which the members of a payload that is an object are
  -- unsigned numbers, `parser_data` of `tcp_client` fails no assertion, and it returns a message
  -- exactly when `data` is an object whose object `local` names an endpoint and whose `data` is an
  -- object or a text. The message has this endpoint, and the payload cut to bytes.
  pub tcp_client_data-Decides :
      (doc : Value)
      → is_object doc ≡ true
      → ((d v : Value) → Field is_object doc "data" d → Field is_payload d "data" v → Unsigned v)
      → Decides
          (λ m. With is_object doc "data" (λ d. LocalData d (m.local, m.payload)))
          (parser_data doc)
  unfolding parser_data check_data get_data
  tcp_client_data-Decides doc h unsigned =
      parse_data-Decides HasLocal (λ d m. LocalData d (m.local, m.payload)) check_local_data
        get_data doc h check_local_data-Settles
        (λ d f p.
          Decides-bind (LocalData d) (λ m. LocalData d (m.local, m.payload))
            (λ (local, payload). record { local = local; payload = payload }) (get_local_data d)
            (get_local_data-Decides d p (λ v. unsigned d v f)) (λ m s. s)
            (λ m s. ((m.local, m.payload), s)))
        (λ d m. LocalData-HasLocal d (m.local, m.payload))

  -- On a document that is an object `parser_close` of `tcp_client` fails no assertion, and it
  -- returns a message exactly when `data` is an object that names an endpoint, its port strictly
  -- between 1024 and 65536. The message has this endpoint.
  pub tcp_client_close-Decides :
      (doc : Value)
      → is_object doc ≡ true
      → Decides (λ m. With is_object doc "data" (λ d. Names d m.local)) (parser_close doc)
  unfolding parser_close check_close get_close
  tcp_client_close-Decides doc h =
      parse_data-Decides HasPort (λ d m. Names d m.local) check_port get_close doc h
        check_port-Settles
        (λ d f (p, a).
          Decides-bind (Names d) (λ m. Names d m.local) (λ e. record { local = e }) (get_endpoint d)
            (get_endpoint-Decides p.1 a.1) (λ e s. s) (λ m s. (m.local, s)))
        (λ d m s. ((s.0, s.3), (s.1, s.4)))
