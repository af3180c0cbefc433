-- ===== src/Apps/TcpServer/Make.antt =====
-- src/apps/tcp_server/json/make.cpp.
use xerock.Base.{ℕ, Bool, List, [], ◌∷◌, map, Text, codes, if◌then◌else◌}
use xerock.Base.Run.{Run, done, ◌>>=◌}
use xerock.Json.{Json}
use xerock.Json.Build.{Build}
use xerock.Core.Message.{tcp_server}
use xerock.Core.Dispatcher.{Entry}
use xerock.Core.Outbox.{Outbox}
use xerock.Core.Factory.{value_data, create_data, make_data_array}
use xerock.Asio.{Asio, Endpoint}
use xerock.Apps.Endpoint.Written.{endpoint_object}
use xerock.MyAsync.ListenerContainer.{SessionType, Listeners, count, listener_clients, endpoints}

module _ ⦃J : Json⦄ ⦃B : Build J⦄ ⦃N : Asio⦄ where
  open J use {Value}
  open B use {str, uint, array, object}
  open N use {to_string}

  unfoldable pub secure_text : Bool → Text
  secure_text ssl = if ssl then codes "ssl" else codes "plain"

  -- The object of a listener, with those of its clients.
  unfoldable pub listener_object : Bool → Endpoint → List Endpoint → Value
  unfolding secure_text endpoint_object
  listener_object ssl e cs = object (
      ("secure", str (secure_text ssl))
      ∷ ("addr", str (to_string e.address))
      ∷ ("port", uint e.port)
      ∷ ("clients", array (map endpoint_object cs))
      ∷ [])

  unfoldable pub received_document : Endpoint → Endpoint → List ℕ → Value
  unfolding endpoint_object make_data_array
  received_document from to bytes = object (
      ("from", endpoint_object from)
      ∷ ("to", endpoint_object to)
      ∷ ("data", make_data_array bytes)
      ∷ [])

module _ ⦃J : Json⦄ ⦃B : Build J⦄ ⦃N : Asio⦄ (T : SessionType Endpoint)
    (eq : Discrete Endpoint) where
  open J use {Value}
  open B use {uint, array, object}

  -- The loop over the endpoints of the container, which reads the clients of each listener.
  unfoldable pub listener_objects : Listeners T eq → List (Bool × Endpoint) → Run (List Value)
  unfolding listener_object listener_clients
  listener_objects m [] = done []
  listener_objects m ((ssl, e) ∷ es) = do
    r ← listener_clients T eq e m
    rest ← listener_objects m es
    done (listener_object ssl e r.0 ∷ rest)

  -- What make_status_message puts under "data".
  unfoldable pub status_document : Listeners T eq → Run Value
  unfolding listener_objects count endpoints
  status_document m = do
    list ← listener_objects m (endpoints T eq m)
    done (object (("count", uint (count T eq m)) ∷ ("list", array list) ∷ []))

module _ {ℓ} ⦃J : Json⦄ ⦃B : Build J⦄ ⦃N : Asio⦄ {H : Type ℓ} {S : Type 0} (now : ℕ → ℕ)
    (apps : List (Entry H)) where
  unfoldable pub make_tcp_server_received_message :
      Endpoint → Endpoint → List ℕ → Outbox S Text → Run (Text × Outbox S Text)
  unfolding received_document
  make_tcp_server_received_message from to bytes o =
      create_data now apps tcp_server (value_data (received_document from to bytes)) o
