-- ===== src/Apps/TcpServer/Parser/Exact.antt =====
-- On the documents that `parser_close` of `tcp_server` accepts.

use xerock.Base.{◌≡◌, true}
use xerock.Base.Run.{Settles, Settles-and_then, Decides, Decides-check, Decides-bind}
use xerock.Json.{Json}
use xerock.Json.Fields.{With, Has, has_field-Settles, has_field-With, Decides-With}
use xerock.Asio.{Asio}
use xerock.Apps.Endpoint.{Names, get_endpoint, get_endpoint-Decides}
use xerock.Apps.TcpServer.Parser.{check_close, get_close, parser_close}

module _ ⦃J : Json⦄ where
  open J use {Value, is_object, is_string, is_uint, member}

  check_close-Settles :
      (doc : Value)
      → is_object doc ≡ true
      → Settles
          (With is_object doc "data" (λ d. Has is_uint d "port" × Has is_string d "addr"))
          (check_close doc)
  unfolding check_close
  check_close-Settles doc h = has_field-With h λ d f.
      Settles-and_then (has_field-Settles is_uint d "port" f.1)
        λ _. has_field-Settles is_string d "addr" f.1

module _ ⦃J : Json⦄ ⦃N : Asio⦄ where
  open J use {Value, is_object, is_string, is_uint, member}

  get_close-Decides :
      (d : Value)
      → Has is_uint d "port"
      → Has is_string d "addr"
      → Decides (λ m. Names d m.endpoint) (get_close d)
  unfolding get_close
  get_close-Decides d (p, fp) (a, fa) =
      Decides-bind (Names d) (λ m. Names d m.endpoint) (λ e. record { endpoint = e })
        (get_endpoint d) (get_endpoint-Decides fp fa) (λ e s. s) (λ m s. (m.endpoint, s))

  -- On a document that is an object `parser_close` fails no assertion, and it returns a message
  -- exactly when `data` is an object that names an endpoint: an unsigned port strictly between 1024
  -- and 65536 and the text of an address. The message has this endpoint.
  pub parser_close-Decides :
      (doc : Value)
      → is_object doc ≡ true
      → Decides (λ m. With is_object doc "data" (λ d. Names d m.endpoint)) (parser_close doc)
  unfolding parser_close
  parser_close-Decides doc h =
      Decides-check (check_close-Settles doc h)
        (λ (d, f, fields).
          Decides-With (λ d m. Names d m.endpoint) is_object doc "data" get_close d f
            (get_close-Decides d fields.0 fields.1))
        (λ m (d, f, s). (d, f, ((s.0, s.3), (s.1, s.4))))
