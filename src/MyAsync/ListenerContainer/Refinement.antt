-- ===== src/MyAsync/ListenerContainer/Refinement.antt =====
-- On the calls of the container of listeners, seen from one local endpoint.
use xerock.Base.{
  ℕ, ◌≡◌, refl, Bool, true, false, Option, none, some, List, Option-cases, Bool-cases, inl, inr,
  if◌then◌else◌,
}
use xerock.Base.Run.{Run, done, abort, ◌>>=◌}
use xerock.MyAsync.Registry.{lookup, assign, Distinct}
use xerock.MyAsync.Registry.Change.{Changes, Changes-same, Changes-assign, Changes-erase}
use xerock.MyAsync.ListenerContainer.{
  not_connected, address_in_use, wrong_protocol_type, listen_error, SessionType, Listener,
  Listeners, Result, if_listening, made, close, close_clients, close_found, present, is_open,
  open_listener, write_each, write_clients, close_listener, close_listener_clients,
}

module _ {K : Type 0} (T : SessionType K) (eq : Discrete K) where
  open T use {Session, Code}

  -- What an endpoint has after an attempt to listen there.
  abbrev pub after_make :
      Bool → Listener T × Option Code → Option (Listener T) → Option (Listener T) × Result T eq
  after_make supported r (some l) = (some l, some address_in_use)
  after_make false r none = (none, some wrong_protocol_type)
  after_make true (l, none) none = (some l, none)
  after_make true (l, some e) none = (none, some (listen_error e))

  -- What follows if there is a listener at the endpoint, and if there is none.
  abbrev pub per_listener :
      (Listener T → Run (Listener T))
      → Option (Listener T)
      → Run (Option (Listener T) × Result T eq)
  per_listener f none = done (none, some not_connected)
  per_listener f (some l) = do l' ← f l; done (some l', none)

  -- The call changes the endpoint so, and it dies exactly where this does.
  abbrev pub Runs :
      K
      → Listeners T eq
      → Run (Option (Listener T) × Result T eq)
      → Run (Listeners T eq × Result T eq)
      → Type 0
  Runs ep m (done p) r = (q : Listeners T eq × Result T eq) × (r ≡ done q) × Changes eq ep m p q
  Runs ep m abort r = r ≡ abort

  abbrev pub after_close :
      Option (Listener T) → Option (Listener T) × (Option (Listener T) × Result T eq)
  after_close none = (none, (none, some not_connected))
  after_close (some l) = (none, (some (close T eq true l), none))

  made-Changes :
      (ep : K) (r : Listener T × Option Code) (m : Listeners T eq)
      → Distinct eq m
      → lookup eq ep m ≡ none
      → Changes eq ep m (after_make true r none) (made T eq ep r m)
  made-Changes ep (l, none) m d h = Changes-assign eq ep m l none d
  made-Changes ep (l, some e) m d h = Changes-same eq ep m none (some (listen_error e)) d h

  open-Changes :
      (a b s : Bool) (ep : K) (r : Listener T × Option Code) (m : Listeners T eq)
      → Distinct eq m
      → Changes eq ep m
          (after_make (if s then a else b) r (lookup eq ep m))
          (open_listener T eq a b s ep r m)
  unfolding open_listener is_open
  open-Changes a b s ep r m d = elim (Option-cases (lookup eq ep m)) [
    | inr (l, e) ↦ rw e (Changes-same eq ep m (some l) (some address_in_use) d e)
    | inl e ↦ elim (Bool-cases (if s then a else b)) [
      | inl t ↦ rw (e, t) (made-Changes ep r m d e)
      | inr f ↦ rw (e, f) (Changes-same eq ep m none (some wrong_protocol_type) d e)
    ]
  ]

  assign-Runs :
      (ep : K) (m : Listeners T eq) (r : Run (Listener T))
      → Distinct eq m
      → Runs ep m (do l' ← r; done (some l', none)) (do l' ← r; done (assign eq ep l' m, none))
  assign-Runs ep m abort d = refl
  assign-Runs ep m (done l) d = ((assign eq ep l m, none), refl, Changes-assign eq ep m l none d)

  if_listening-Runs :
      (ep : K) (m : Listeners T eq) (f : Listener T → Run (Listener T))
      → Distinct eq m
      → Runs ep m
          (per_listener f (lookup eq ep m))
          (if_listening T eq (lookup eq ep m) m (λ l. do l' ← f l; done (assign eq ep l' m, none)))
  if_listening-Runs ep m f d = elim (Option-cases (lookup eq ep m)) [
    | inl e ↦
        rw e ((m, some not_connected), refl, Changes-same eq ep m none (some not_connected) d e)
    | inr (l, e) ↦ rw e (assign-Runs ep m (f l) d)
  ]

  close-Changes :
      (ep : K) (m : Listeners T eq)
      → Distinct eq m
      → Changes eq ep m (after_close (lookup eq ep m)) (close_listener T eq ep m)
  unfolding close_listener close_found
  close-Changes ep m d = elim (Option-cases (lookup eq ep m)) [
    | inl e ↦ rw e (Changes-same eq ep m none (none, some not_connected) d e)
    | inr (l, e) ↦ rw e (Changes-erase eq ep m (some (close T eq true l), none) d)
  ]

  -- A close of an endpoint that is open reports no error.
  pub close_listener-none :
      (ep : K) (m : Listeners T eq)
      → is_open T eq ep m ≡ true
      → (close_listener T eq ep m).1.1 ≡ none
  unfolding close_listener is_open
  close_listener-none ep m h = elim (Option-cases (lookup eq ep m)) [
    | inl e ↦ let no : present T eq (lookup eq ep m) ≡ false = rw e in cc (h, no)
    | inr (l, e) ↦ rw e
  ]

  -- If no endpoint occurs twice in the container of listeners, then none does after a call, and each
  -- call changes one endpoint. An open of an endpoint in use is refused, one of a kind of session
  -- that the container does not support is too, and one whose listener reports an error leaves
  -- nothing; else the listener is put there. A close takes the listener away with its clients and
  -- the acceptor closed. A write and a close of clients go to the listener, and end the daemon where
  -- the listener does so, as where the endpoint of a session cannot be read. At an endpoint without
  -- a listener the last three are refused and change nothing.
  pub listeners-Changes :
      (a b s : Bool) (ep : K) (r : Listener T × Option Code) (eps : List K) (bytes : List ℕ)
      (m : Listeners T eq)
      → Distinct eq m
      → Changes eq ep m
          (after_make (if s then a else b) r (lookup eq ep m))
          (open_listener T eq a b s ep r m)
        × Changes eq ep m (after_close (lookup eq ep m)) (close_listener T eq ep m)
        × Runs ep m
            (per_listener (write_each T eq eps bytes) (lookup eq ep m))
            (write_clients T eq ep eps bytes m)
        × Runs ep m
            (per_listener (close_clients T eq eps) (lookup eq ep m))
            (close_listener_clients T eq ep eps m)
  unfolding write_clients close_listener_clients
  listeners-Changes a b s ep r eps bytes m d = (
    open-Changes a b s ep r m d,
    close-Changes ep m d,
    if_listening-Runs ep m (write_each T eq eps bytes) d,
    if_listening-Runs ep m (close_clients T eq eps) d,
  )
