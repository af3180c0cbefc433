-- ===== src/Apps/TcpServer/Parser/CloseClients.antt =====
-- On the documents that `parser_close_clients` of `tcp_server` accepts.
use xerock.Base.{◌≡◌, refl, subst, true, [], ◌∷◌, inl, inr}
use xerock.Base.Run.{Settles, Settles-and_then, Decides, Decides-check}
use xerock.Json.{Json}
use xerock.Json.Fields.{Field-unique, With, has_field-With, Decides-With}
use xerock.Asio.{Asio, Endpoint}
use xerock.Apps.Endpoint.{HasAddr, check_addr-Settles, Names, get_endpoint-Decides}
use xerock.Apps.Endpoint.Cut.{NamesCut, get_cut_endpoint-Decides}
use xerock.Apps.TcpServer.Parser.{
  MessageCloseClient, check_close_clients, get_close_clients, parser_close_clients,
}

module _ ⦃J : Json⦄ where
  open J use {Value, is_object, is_string, is_uint, member}

  check_close_clients-Settles :
      (doc : Value)
      → is_object doc ≡ true
      → Settles
          (With is_object doc "data"
            λ d. With is_object d "server" HasAddr × With is_object d "client" HasAddr)
          (check_close_clients doc)
  unfolding check_close_clients
  check_close_clients-Settles doc h = has_field-With h λ d f.
      Settles-and_then (has_field-With f.1 λ s g. check_addr-Settles s g.1)
        λ _. has_field-With f.1 λ c g. check_addr-Settles c g.1

module _ ⦃J : Json⦄ ⦃N : Asio⦄ where
  open J use {
    Value, is_object, is_string, is_uint, member, get_uint, get_string, get_uint-done,
    get_string-done,
  }
  open N use {make_address}

  -- The message closes one client of the server.
  abbrev pub ClosesClient : Value → MessageCloseClient → Type 0
  ClosesClient d m =
      With is_object d "server" (λ s. Names s m.endpoint)
      × With is_object d "client" (λ c. (e : Endpoint) × NamesCut c e × (m.clients ≡ e ∷ []))

  get_close_clients-Decides :
      (d : Value)
      → With is_object d "server" HasAddr
      → With is_object d "client" HasAddr
      → Decides (ClosesClient d) (get_close_clients d)
  unfolding get_close_clients
  get_close_clients-Decides d (s, fs, (hs, ps)) (c, fc, (hc, pc)) =
      elim (get_endpoint-Decides ps.1 hs.1) [
        | inr (absent, e) ↦ inr (
          (λ m q.
              absent m.endpoint (
                subst (λ v. Names v m.endpoint) (Field-unique is_object d "server" q.0.1 fs)
                  q.0.2)),
          rw (fs.0, e),
        )
        | inl (x, named, e) ↦ elim (get_cut_endpoint-Decides pc.1 hc.1) [
          | inl (y, cut, e') ↦ inl (
            record { endpoint = x; clients = y ∷ [] },
            ((s, fs, named), (c, fc, (y, cut, refl))),
            rw (fs.0, e, fc.0, e'),
          )
          | inr (absent, e') ↦ inr (
            (λ m q. absent q.1.2.0 (
                subst (λ v. NamesCut v q.1.2.0) (Field-unique is_object d "client" q.1.1 fc)
                  q.1.2.1)),
            rw (fs.0, e, fc.0, e'),
          )
        ]
      ]

  -- On a document that is an object `parser_close_clients` fails no assertion, and it returns a
  -- message exactly when `data` is an object with two objects: `server` names an endpoint, and
  -- `client` has an address and a port whose remainder by 65536 is above 1024. The message has the
  -- first endpoint, and the second with that remainder as its port as the only client.
  pub parser_close_clients-Decides :
      (doc : Value)
      → is_object doc ≡ true
      → Decides (λ m. With is_object doc "data" (λ d. ClosesClient d m)) (parser_close_clients doc)
  unfolding parser_close_clients
  parser_close_clients-Decides doc h =
      Decides-check (check_close_clients-Settles doc h)
        (λ (d, f, (server, client)).
          Decides-With ClosesClient is_object doc "data" get_close_clients d f
            (get_close_clients-Decides d server client))
        (λ m (d, f, ((s, fs, s'), (c, fc, (e, c', k)))).
          (d, f, ((s, fs, ((s'.1, s'.4), (s'.0, s'.3))), (c, fc, ((c'.1, c'.5), (c'.0, c'.4))))))
