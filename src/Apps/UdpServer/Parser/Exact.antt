-- ===== src/Apps/UdpServer/Parser/Exact.antt =====
-- On the documents that the parsers of `udp_server` accept.
use mathlib.Core.Option
use xerock.Base.{◌≡◌, refl, subst, true, false, Bool, Option}
use xerock.Base.Run.{Run, done, abort, ◌>>=◌, when, Decides, Decides-bind}
use xerock.Json.{Json}
use xerock.Json.Fields.{Field, With}
use xerock.Json.Payload.{is_payload, Unsigned}
use xerock.Asio.{Asio}
use xerock.Apps.Endpoint.{
  check_port, HasPort, check_port-Settles, get_endpoint, Names, get_endpoint-Decides,
}
use xerock.Apps.InData.{parse_data-Decides}
use xerock.Apps.TcpServer.Parser.{
  MessageData as FromTo, parser_data as parser_from_to, check_data as check_from_to,
  get_data as get_from_to,
}
use xerock.Apps.TcpServer.Parser.Data.{DataOf, parser_data-Decides as parser_from_to-Decides}
use xerock.Apps.UdpServer.Parser.{
  MessageData, check_data, check_open, check_close, get_data, get_open, get_close, parser_data,
  parser_open, parser_close,
}

-- Converting what a parser reads is converting what it returns.
map-parse {ℓ κ κ'} :
    {V : Type ℓ} {A : Type κ} {B : Type κ'} (g : A → B) (c : Run Bool) (v : Run V)
    (get : V → Run (Option A))
    → (do o ← (do ok ← c; when ok (do d ← v; get d)); done (Option.map g o))
      ≡ (do ok ← c; when ok (do d ← v; r ← get d; done (Option.map g r)))
map-parse g (done true) (done d) get = refl
map-parse g (done true) abort get = refl
map-parse g (done false) v get = refl
map-parse g abort v get = refl

module _ ⦃J : Json⦄ ⦃N : Asio⦄ where
  open J use {Value, is_object, member}

  abbrev of : FromTo → MessageData
  of m = record { from = m.from; to = m.to; payload = m.payload }

  abbrev pub UdpDataOf : Value → MessageData → Type 0
  UdpDataOf d m = DataOf d (record { from = m.from; to = m.to; payload = m.payload })

  -- On a document that is an object, in which the members of a payload that is an object are
  -- unsigned numbers, `parser_data` of `udp_server` fails no assertion, and it returns a message
  -- exactly when `data` is an object in which the object `from` names an endpoint, `to` is an array
  -- of objects that name endpoints, and `data` is an object or a text. The message has these
  -- endpoints, in order, and the payload cut to bytes.
  pub udp_server_data-Decides :
      (doc : Value)
      → is_object doc ≡ true
      → ((d v : Value) → Field is_object doc "data" d → Field is_payload d "data" v → Unsigned v)
      → Decides (λ m. With is_object doc "data" (λ d. UdpDataOf d m)) (parser_data doc)
  unfolding parser_data check_data get_data parser_from_to
  udp_server_data-Decides doc h unsigned =
      let S = λ (m : FromTo). With is_object doc "data" (λ d. DataOf d m) in
      let T = λ (m : MessageData). With is_object doc "data" (λ d. UdpDataOf d m) in
      subst (Decides T) (map-parse of (check_from_to doc) (member doc "data") get_from_to) (
        Decides-bind S T of (parser_from_to doc) (parser_from_to-Decides doc h unsigned) (λ m s. s)
          (λ m s. (record { from = m.from; to = m.to; payload = m.payload }, s)))

  -- On a document that is an object `parser_open` of `udp_server` fails no assertion, and it
  -- returns a message exactly when `data` is an object that names an endpoint, its port strictly
  -- between 1024 and 65536: the port is not cut to 16 bits first, unlike in the other
  -- applications. The message has this endpoint.
  pub udp_server_open-Decides :
      (doc : Value)
      → is_object doc ≡ true
      → Decides (λ m. With is_object doc "data" (λ d. Names d m.ep)) (parser_open doc)
  unfolding parser_open check_open get_open
  udp_server_open-Decides doc h =
      parse_data-Decides HasPort (λ d m. Names d m.ep) check_port get_open doc h check_port-Settles
        (λ d f (p, a).
          Decides-bind (Names d) (λ m. Names d m.ep) (λ e. record { ep = e }) (get_endpoint d)
            (get_endpoint-Decides p.1 a.1) (λ e s. s) (λ m s. (m.ep, s)))
        (λ d m s. ((s.0, s.3), (s.1, s.4)))

  -- On a document that is an object `parser_close` of `udp_server` fails no assertion, and it
  -- returns a message exactly when `data` is an object that names an endpoint, its port strictly
  -- between 1024 and 65536. The message has this endpoint.
  pub udp_server_close-Decides :
      (doc : Value)
      → is_object doc ≡ true
      → Decides (λ m. With is_object doc "data" (λ d. Names d m.ep)) (parser_close doc)
  unfolding parser_close check_close get_close
  udp_server_close-Decides doc h =
      parse_data-Decides HasPort (λ d m. Names d m.ep) check_port get_close doc h check_port-Settles
        (λ d f (p, a).
          Decides-bind (Names d) (λ m. Names d m.ep) (λ e. record { ep = e }) (get_endpoint d)
            (get_endpoint-Decides p.1 a.1) (λ e s. s) (λ m s. (m.ep, s)))
        (λ d m s. ((s.0, s.3), (s.1, s.4)))
