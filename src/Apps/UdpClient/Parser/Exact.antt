-- ===== src/Apps/UdpClient/Parser/Exact.antt =====
-- On the documents that the parsers of `udp_client` accept.

use xerock.Base.{◌≡◌, true}
use xerock.Base.Run.{Decides, Decides-bind}
use xerock.Json.{Json}
use xerock.Json.Fields.{Field, With}
use xerock.Json.Payload.{is_payload, Unsigned}
use xerock.Asio.{Asio}
use xerock.Apps.Endpoint.{
  check_port, HasPort, check_port-Settles, get_endpoint, Names, get_endpoint-Decides,
  get_cut_endpoint,
}
use xerock.Apps.Endpoint.Cut.{NamesCut, get_cut_endpoint-Decides}
use xerock.Apps.InData.{
  parse_data-Decides, check_local_data, HasLocal, check_local_data-Settles, get_local_data,
  LocalData, LocalData-HasLocal, get_local_data-Decides,
}
use xerock.Apps.UdpClient.Parser.{
  check_data, check_open, check_close, get_data, get_open, get_close, parser_data, parser_open,
  parser_close,
}

module _ ⦃J : Json⦄ ⦃N : Asio⦄ where
  open J use {Value, is_object}

  -- On a document that is an object, in which the members of a payload that is an object are
  -- unsigned numbers, `parser_data` of `udp_client` fails no assertion, and it returns a message
  -- exactly when `data` is an object whose object `local` names an endpoint and whose `data` is an
  -- object or a text. The message has this endpoint, and the payload cut to bytes.
  pub udp_client_data-Decides :
      (doc : Value)
      → is_object doc ≡ true
      → ((d v : Value) → Field is_object doc "data" d → Field is_payload d "data" v → Unsigned v)
      → Decides
          (λ m. With is_object doc "data" (λ d. LocalData d (m.local, m.payload)))
          (parser_data doc)
  unfolding parser_data check_data get_data
  udp_client_data-Decides doc h unsigned =
      parse_data-Decides HasLocal (λ d m. LocalData d (m.local, m.payload)) check_local_data
        get_data doc h check_local_data-Settles
        (λ d f p.
          Decides-bind (LocalData d) (λ m. LocalData d (m.local, m.payload))
            (λ (local, payload). record { local = local; payload = payload }) (get_local_data d)
            (get_local_data-Decides d p (λ v. unsigned d v f)) (λ m s. s)
            (λ m s. ((m.local, m.payload), s)))
        (λ d m. LocalData-HasLocal d (m.local, m.payload))

  -- On a document that is an object `parser_open` of `udp_client` fails no assertion, and it
  -- returns a message exactly when `data` is an object with the text of an address and an unsigned
  -- port whose remainder by 65536 is above 1024. The message has the address and that remainder.
  pub udp_client_open-Decides :
      (doc : Value)
      → is_object doc ≡ true
      → Decides (λ m. With is_object doc "data" (λ d. NamesCut d m.remote)) (parser_open doc)
  unfolding parser_open check_open get_open
  udp_client_open-Decides doc h =
      parse_data-Decides HasPort (λ d m. NamesCut d m.remote) check_port get_open doc h
        check_port-Settles
        (λ d f (p, a).
          Decides-bind (NamesCut d) (λ m. NamesCut d m.remote) (λ e. record { remote = e })
            (get_cut_endpoint d) (get_cut_endpoint-Decides p.1 a.1) (λ e s. s)
            (λ m s. (m.remote, s)))
        (λ d m s. ((s.0, s.4), (s.1, s.5)))

  -- On a document that is an object `parser_close` of `udp_client` fails no assertion, and it
  -- returns a message exactly when `data` is an object that names an endpoint, its port strictly
  -- between 1024 and 65536. The message has this endpoint.
  pub udp_client_close-Decides :
      (doc : Value)
      → is_object doc ≡ true
      → Decides (λ m. With is_object doc "data" (λ d. Names d m.local)) (parser_close doc)
  unfolding parser_close check_close get_close
  udp_client_close-Decides doc h =
      parse_data-Decides HasPort (λ d m. Names d m.local) check_port get_close doc h
        check_port-Settles
        (λ d f (p, a).
          Decides-bind (Names d) (λ m. Names d m.local) (λ e. record { local = e }) (get_endpoint d)
            (get_endpoint-Decides p.1 a.1) (λ e s. s) (λ m s. (m.local, s)))
        (λ d m s. ((s.0, s.3), (s.1, s.4)))
