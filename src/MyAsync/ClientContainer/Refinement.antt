-- ===== src/MyAsync/ClientContainer/Refinement.antt =====
-- On the calls of the containers of sockets, seen from one local endpoint.
use xerock.Base.{ℕ, ◌≡◌, refl, Option, none, some, List, Option-cases, inl, inr}
use xerock.Base.Run.{Run, done, abort}
use xerock.MyAsync.Registry.{lookup, assign, Distinct}
use xerock.MyAsync.Registry.Change.{Changes, Changes-same, Changes-assign, Changes-erase}
use xerock.MyAsync.ClientContainer.{
  register, not_connected, system, SocketType, Sockets, Outcome, reported, if_connected, tcp_opened,
  tcp_close, tcp_write, udp_close, udp_write, server_opened, server_close, write_each,
  server_write_all,
}

module _ {K : Type 0} (T : SocketType K) (eq : Discrete K) where
  open T use {Socket, Code, local_endpoint, close_socket, close_client, write_socket}

  -- What follows if the endpoint is connected, and if it is not.
  abbrev pub per_entry :
      (Socket → Option Socket × Outcome T eq) → Option Socket → Option Socket × Outcome T eq
  per_entry f none = (none, some not_connected)
  per_entry f (some s) = f s

  if_connected-Changes :
      (k : K) (m : Sockets T eq) (f : Socket → Option Socket × Outcome T eq)
      (g : Socket → Sockets T eq × Outcome T eq)
      → Distinct eq m
      → ((s : Socket) → Changes eq k m (f s) (g s))
      → Changes eq k m (per_entry f (lookup eq k m)) (if_connected T eq (lookup eq k m) m g)
  if_connected-Changes k m f g d h = elim (Option-cases (lookup eq k m)) [
    | inl e ↦ rw e (Changes-same eq k m none (some not_connected) d e)
    | inr (s, e) ↦ rw e (h s)
  ]

  -- What a close leaves, and the client that the container lets go of.
  abbrev pub after_close : Option Socket → Option Socket × (Option Socket × Outcome T eq)
  after_close none = (none, (none, some not_connected))
  after_close (some s) = (none, (some (close_client s), none))

  close-Changes :
      (k : K) (m : Sockets T eq)
      → Distinct eq m
      → Changes eq k m (after_close (lookup eq k m)) (tcp_close T eq k m)
  unfolding tcp_close
  close-Changes k m d = elim (Option-cases (lookup eq k m)) [
    | inl e ↦ rw e (Changes-same eq k m none (none, some not_connected) d e)
    | inr (s, e) ↦ rw e (Changes-erase eq k m (some (close_client s), none) d)
  ]

  -- How an attempt to open ends, for the local endpoint of the socket: an exception of
  -- `local_endpoint()` ends the daemon, if the attempt succeeded.
  abbrev pub Registers :
      Socket × Option Code → Run K → Sockets T eq → Run (Sockets T eq × Outcome T eq) → Type 0
  Registers (s, some e) at m r = r ≡ done (m, some (system e))
  Registers (s, none) abort m r = r ≡ abort
  Registers (s, none) (done k) m r =
      (q : Sockets T eq × Outcome T eq) × (r ≡ done q) × Changes eq k m (some s, none) q

  register-Registers :
      (s : Socket) (m : Sockets T eq) (at : Run K)
      → Distinct eq m
      → local_endpoint s ≡ at
      → Registers (s, none) at m (register T eq s m)
  unfolding register
  register-Registers s m abort d e = rw e
  register-Registers s m (done k) d e =
      ((assign eq k s m, none), rw e, Changes-assign eq k m s none d)

  tcp_opened-Registers :
      (r : Socket × Option Code) (m : Sockets T eq)
      → Distinct eq m
      → Registers r (local_endpoint r.0) m (tcp_opened T eq r m)
  unfolding tcp_opened
  tcp_opened-Registers (s, none) m d = register-Registers s m (local_endpoint s) d refl
  tcp_opened-Registers (s, some e) m d = refl

  -- If no local endpoint occurs twice in the container of TCP clients, then none does after a call. A
  -- client that connected is put at its own local endpoint, where this can be read, and no other
  -- endpoint changes; where it cannot, the daemon ends; and a client that did not connect changes
  -- nothing. A close closes the client and takes it away, and a write goes to the client; a close or a
  -- write of an endpoint without a client is refused; both change no other endpoint.
  pub tcp-Changes :
      (k : K) (r : Socket × Option Code) (bytes : List ℕ) (m : Sockets T eq)
      → Distinct eq m
      → Registers r (local_endpoint r.0) m (tcp_opened T eq r m)
        × Changes eq k m (after_close (lookup eq k m)) (tcp_close T eq k m)
        × Changes eq k m
            (per_entry (λ s. (some (write_socket bytes s), none)) (lookup eq k m))
            (tcp_write T eq k bytes m)
  unfolding tcp_write
  tcp-Changes k r bytes m d = (
    tcp_opened-Registers r m d,
    close-Changes k m d,
    if_connected-Changes k m _ _ d (λ s. Changes-assign eq k m (write_socket bytes s) none d),
  )

  -- If no local endpoint occurs twice in the container of UDP clients, then none does after a close
  -- or a write, and each changes one local endpoint: a close takes the client away and returns the
  -- error of its socket, and a write goes to the client; without a client both are refused.
  udp-Changes :
      (k : K) (bytes : List ℕ) (m : Sockets T eq)
      → Distinct eq m
      → Changes eq k m
          (per_entry (λ s. (none, reported T eq (close_socket s))) (lookup eq k m))
          (udp_close T eq k m)
        × Changes eq k m
            (per_entry (λ s. (some (write_socket bytes s), none)) (lookup eq k m))
            (udp_write T eq k bytes m)
  unfolding udp_close udp_write
  udp-Changes k bytes m d = (
    if_connected-Changes k m _ _ d (λ s. Changes-erase eq k m (reported T eq (close_socket s)) d),
    if_connected-Changes k m _ _ d (λ s. Changes-assign eq k m (write_socket bytes s) none d),
  )

  -- If no local endpoint occurs twice in the container of UDP servers, then none does after a call. A
  -- server that opened is put at its own local endpoint, and one that did not changes nothing; a close
  -- takes the server away and returns the error of its socket, and the server is given a message for
  -- each recipient in turn; a close or a write of an endpoint without a server is refused.
  server-Changes :
      (k : K) (r : Socket × Option Code) (tos : List K) (bytes : List ℕ) (m : Sockets T eq)
      → Distinct eq m
      → Registers r (local_endpoint r.0) m (server_opened T eq r m)
        × Changes eq k m
            (per_entry (λ s. (none, reported T eq (close_socket s))) (lookup eq k m))
            (server_close T eq k m)
        × Changes eq k m
            (per_entry (λ s. (some (write_each T eq tos bytes s), none)) (lookup eq k m))
            (server_write_all T eq k tos bytes m)
  unfolding server_close server_write_all server_opened
  server-Changes k r tos bytes m d = (
    opened r,
    if_connected-Changes k m _ _ d (λ s. Changes-erase eq k m (reported T eq (close_socket s)) d),
    if_connected-Changes k m _ _ d
        (λ s. Changes-assign eq k m (write_each T eq tos bytes s) none d),
  )
    where
      opened :
          (r : Socket × Option Code) → Registers r (local_endpoint r.0) m (server_opened T eq r m)
      opened (s, none) = register-Registers s m (local_endpoint s) d refl
      opened (s, some e) = refl
