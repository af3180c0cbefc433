-- ===== src/MyAsync/ClientContainer.antt =====
-- src/libs/my_async: the containers of TCP clients (tcp_client/impl/container_impl.hpp), of UDP
-- clients (udp_client/impl/simple_container_impl.hpp) and of UDP servers
-- (udp_server/impl/simple_container_impl.hpp), by local endpoint. The type of a socket is a
-- parameter of their templates, here the record `SocketType`; a socket that a container shares is
-- the value in its map. An error code is `none` for no error, and `abort` an exception: those that
-- `local_endpoint()` and `endpoint()` throw where the socket is closed or not connected, and that
-- of `socket_.open` in a server of UDP.
pub mod Refinement
mod Examples
use xerock.Base.{ℕ, Bool, Option, none, some, List, [], ◌∷◌, length}
use xerock.Base.Run.{Run, done, ◌>>=◌}
use xerock.MyAsync.Registry.{lookup, assign, erase}

pub data Failure (E : Type 0) : Type 0 where
  not_connected : Failure E
  system : E → Failure E

pub record SocketType (K : Type 0) : Type 1 where
  pub Socket : Type 0
  pub Code : Type 0
  pub use_ssl : Socket → Bool
  pub local_endpoint : Socket → Run K
  pub remote_endpoint : Socket → Run K
  pub open_socket : K → Socket → Run (Socket × Option Code)
  pub close_socket : Socket → Option Code
  -- `close()` of a TCP client, which posts the closing of its stream.
  pub close_client : Socket → Socket
  pub write_socket : List ℕ → Socket → Socket
  pub write_to : K → List ℕ → Socket → Socket

module _ {K : Type 0} (T : SocketType K) (eq : Discrete K) where
  open T use {
    Socket, Code, use_ssl, local_endpoint, remote_endpoint, open_socket, close_socket, close_client,
    write_socket, write_to,
  }

  abbrev pub Sockets : Type 0
  Sockets = List (K × Socket)

  abbrev pub Outcome : Type 0
  Outcome = Option (Failure Code)

  abbrev pub reported : Option Code → Outcome
  reported none = none
  reported (some e) = some (system e)

  -- `if(client == clients_.end()) { ec = not_connected; return; }`
  abbrev pub if_connected :
      Option Socket → Sockets → (Socket → Sockets × Outcome) → Sockets × Outcome
  if_connected none m k = (m, some not_connected)
  if_connected (some s) m k = k s

  -- `if(client == clients_.end()) …`, with the client that is let go of.
  abbrev pub closing :
      Option Socket
      → Sockets
      → (Socket → Sockets × (Option Socket × Outcome))
      → Sockets × (Option Socket × Outcome)
  closing none m k = (m, (none, some not_connected))
  closing (some s) m k = k s

  -- `clients_[client->local_endpoint()] = client;`
  unfoldable pub register : Socket → Sockets → Run (Sockets × Outcome)
  register s m = do k ← local_endpoint s; done (assign eq k s m, none)

  -- The callback of `open` of a TCP client, once the client has tried to connect: it is registered
  -- under its local endpoint if there was no error, which the caller's callback is given.
  unfoldable pub tcp_opened : Socket × Option Code → Sockets → Run (Sockets × Outcome)
  unfolding register
  tcp_opened (s, none) m = register s m
  tcp_opened (s, some e) m = done (m, some (system e))

  -- With the closed client, which the container lets go of.
  unfoldable pub tcp_close : K → Sockets → Sockets × (Option Socket × Outcome)
  tcp_close k m = closing (lookup eq k m) m λ s. (erase eq k m, (some (close_client s), none))

  unfoldable pub tcp_write : K → List ℕ → Sockets → Sockets × Outcome
  tcp_write k bytes m =
      if_connected (lookup eq k m) m λ s. (assign eq k (write_socket bytes s) m, none)

  unfoldable pub tcp_endpoints : Sockets → Run (List (Bool × K × K))
  tcp_endpoints [] = done []
  tcp_endpoints ((k, s) ∷ m) = do
    local ← local_endpoint s
    remote ← remote_endpoint s
    rest ← tcp_endpoints m
    done ((use_ssl s, local, remote) ∷ rest)

  unfoldable pub tcp_size : Sockets → ℕ
  tcp_size m = length m

  -- `open` of a UDP client reports its errors to the client alone, which is registered anyway.
  -- The constructor of the client, which binds its socket, throws where that fails.
  unfoldable pub udp_open : K → Run Socket → Sockets → Run (Sockets × Outcome)
  unfolding register
  udp_open ep made m = do client ← made; r ← open_socket ep client; register r.0 m

  unfoldable pub udp_close : K → Sockets → Sockets × Outcome
  udp_close k m = if_connected (lookup eq k m) m λ s. (erase eq k m, reported (close_socket s))

  unfoldable pub udp_write : K → List ℕ → Sockets → Sockets × Outcome
  udp_write k bytes m =
      if_connected (lookup eq k m) m λ s. (assign eq k (write_socket bytes s) m, none)

  unfoldable pub udp_client : K → Sockets → Option Socket
  udp_client k m = lookup eq k m

  unfoldable pub udp_endpoints : Sockets → Run (List (K × K))
  udp_endpoints [] = done []
  udp_endpoints ((k, s) ∷ m) = do
    local ← local_endpoint s
    remote ← remote_endpoint s
    rest ← udp_endpoints m
    done ((local, remote) ∷ rest)

  -- What `open` of a UDP server does once the server has tried to open: `if(ec) return;`.
  unfoldable pub server_opened : Socket × Option Code → Sockets → Run (Sockets × Outcome)
  unfolding register
  server_opened (s, none) m = register s m
  server_opened (s, some e) m = done (m, some (system e))

  unfoldable pub server_open : K → Socket → Sockets → Run (Sockets × Outcome)
  unfolding server_opened
  server_open ep made m = do r ← open_socket ep made; server_opened r m

  unfoldable pub server_close : K → Sockets → Sockets × Outcome
  server_close k m = if_connected (lookup eq k m) m λ s. (erase eq k m, reported (close_socket s))

  unfoldable pub server_write : K → K → List ℕ → Sockets → Sockets × Outcome
  server_write from to bytes m =
      if_connected (lookup eq from m) m λ s. (assign eq from (write_to to bytes s) m, none)

  -- `for(auto const& to : tos) server->second->write(to, s_data);`
  unfoldable pub write_each : List K → List ℕ → Socket → Socket
  write_each [] bytes s = s
  write_each (to ∷ tos) bytes s = write_each tos bytes (write_to to bytes s)

  unfoldable pub server_write_all : K → List K → List ℕ → Sockets → Sockets × Outcome
  unfolding write_each
  server_write_all from tos bytes m =
      if_connected (lookup eq from m) m λ s. (assign eq from (write_each tos bytes s) m, none)

  unfoldable pub server_endpoints : Sockets → List K
  server_endpoints [] = []
  server_endpoints ((k, s) ∷ m) = k ∷ server_endpoints m
