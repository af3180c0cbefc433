-- ===== src/Apps/UdpServer/Make.antt =====
-- src/apps/udp_server/json/make.cpp. A status is given the endpoints of the container.
use xerock.Base.{ℕ, List, [], ◌∷◌, map, Text}
use xerock.Base.Run.{Run}
use xerock.Json.{Json}
use xerock.Json.Build.{Build}
use xerock.Core.Message.{udp_server}
use xerock.Core.Dispatcher.{Entry}
use xerock.Core.Outbox.{Outbox}
use xerock.Core.Factory.{value_data, create_data, make_data_array}
use xerock.Asio.{Asio, Endpoint}
use xerock.Apps.Endpoint.Written.{endpoint_object}

module _ ⦃J : Json⦄ ⦃B : Build J⦄ ⦃N : Asio⦄ where
  open J use {Value}
  open B use {array, object}

  -- What make_status_message and make_received_message put under "data".
  unfoldable pub status_document : List Endpoint → Value
  unfolding endpoint_object
  status_document eps = object (("list", array (map endpoint_object eps)) ∷ [])

  unfoldable pub received_document : Endpoint → Endpoint → List ℕ → Value
  unfolding endpoint_object make_data_array
  received_document to from bytes = object (
      ("from", endpoint_object from)
      ∷ ("to", endpoint_object to)
      ∷ ("data", make_data_array bytes)
      ∷ [])

module _ {ℓ} ⦃J : Json⦄ ⦃B : Build J⦄ ⦃N : Asio⦄ {H : Type ℓ} {S : Type 0} (now : ℕ → ℕ)
    (apps : List (Entry H)) where
  unfoldable pub make_received_message :
      Endpoint → Endpoint → List ℕ → Outbox S Text → Run (Text × Outbox S Text)
  unfolding received_document
  make_received_message to from bytes o =
      create_data now apps udp_server (value_data (received_document to from bytes)) o
