-- ===== src/MyAsync/ListenerContainer.antt =====
-- src/libs/my_async: a listener's sessions (listener/listener_base.hpp, as
-- listener_concept_impl.hpp calls it) and the container of listeners by local endpoint
-- (listener/impl/container_impl.hpp). A session is a parameter; the sessions of a listener that
-- exist are a list in the order of `exec_to_all`. An error code is `none` for no error, and `abort`
-- the exception of `endpoint()` of a session, which `exec_to_all` does not let out.
pub mod Delivery
pub mod Refinement
mod Examples
use mathlib.Core.Logic.{ite}
use xerock.Base.{
  ℕ, Bool, true, false, Option, none, some, List, [], ◌∷◌, map, length, if◌then◌else◌,
}
use xerock.Base.Run.{Run, done, abort, ◌>>=◌}
use xerock.MyAsync.Registry.{lookup, assign, erase}

pub data ListenFailure (E : Type 0) : Type 0 where
  not_connected address_in_use wrong_protocol_type : ListenFailure E
  listen_error : E → ListenFailure E

pub record SessionType (K : Type 0) : Type 1 where
  pub Session : Type 0
  pub Code : Type 0
  -- `endpoint()` throws where the session is not connected.
  pub is_connected : Session → Bool
  pub endpoint : Session → K
  pub close_session : Session → Session
  pub write_session : List ℕ → Session → Session

module _ {K : Type 0} (T : SessionType K) where
  -- Listener_Base; `closing` is posted to the acceptor by `close`.
  pub record Listener : Type 0 where
    pub use_ssl : Bool
    pub share : List T.Session
    pub closing : Bool

module _ {K : Type 0} (T : SessionType K) (eq : Discrete K) where
  open T use {Session, Code, is_connected, endpoint, close_session, write_session}

  unfoldable pub is_listed : K → List K → Bool
  is_listed k [] = false
  is_listed k (ep ∷ eps) = ite (eq ep k) true (is_listed k eps)

  unfoldable pub all_connected : List Session → Bool
  all_connected [] = true
  all_connected (s ∷ share) = if is_connected s then all_connected share else false

  -- A call that asks each session of the listener for its endpoint.
  abbrev pub asking : {A : Type 0} → Listener T → A → Run A
  asking l a = if all_connected l.share then done a else abort

  -- Listener_Base::clients, close(ec, close_clients), close_clients and write.
  unfoldable pub clients : Listener T → Run (List K)
  unfolding all_connected
  clients l = asking l (map endpoint l.share)

  unfoldable pub close : Bool → Listener T → Listener T
  close close_clients l = record {
    use_ssl = l.use_ssl;
    share = if close_clients then map close_session l.share else l.share;
    closing = true;
  }

  -- No endpoint is asked for if there is none to compare it with.
  unfoldable pub close_clients : List K → Listener T → Run (Listener T)
  unfolding is_listed all_connected
  close_clients [] l = done l
  close_clients (ep ∷ eps) l = asking l (record l {
    share = map (λ s. if is_listed (endpoint s) (ep ∷ eps) then close_session s else s) l.share;
  })

  -- The sessions behind a write that returns.
  unfoldable pub deliver : K → List ℕ → Listener T → Listener T
  deliver client bytes l = record l {
    share = map (λ s. ite (eq client (endpoint s)) (write_session bytes s) s) l.share;
  }

  unfoldable pub write : K → List ℕ → Listener T → Run (Listener T)
  unfolding deliver all_connected
  write client bytes l = asking l (deliver client bytes l)

  abbrev pub Listeners : Type 0
  Listeners = List (K × Listener T)

  abbrev pub Result : Type 0
  Result = Option (ListenFailure Code)

  -- `if(server == servers_.end()) { ec = not_connected; return; }`
  abbrev pub if_listening :
      Option (Listener T)
      → Listeners
      → (Listener T → Run (Listeners × Result))
      → Run (Listeners × Result)
  if_listening none m k = done (m, some not_connected)
  if_listening (some l) m k = k l

  abbrev pub present : Option (Listener T) → Bool
  present none = false
  present (some l) = true

  -- Container::is_open
  unfoldable pub is_open : K → Listeners → Bool
  is_open ep m = present (lookup eq ep m)

  -- `auto server = make(…); if(ec) return false; servers_[ep] = …;`
  abbrev pub made : K → Listener T × Option Code → Listeners → Listeners × Result
  made ep (l, none) m = (assign eq ep l m, none)
  made ep (l, some e) m = (m, some (listen_error e))

  -- Container<SupportSSL, SupportPlain>::open<Session>: `ssl` is Session::use_ssl, and `make` has
  -- tried to listen at the endpoint.
  unfoldable pub open_listener :
      Bool → Bool → Bool → K → Listener T × Option Code → Listeners → Listeners × Result
  unfolding is_open
  open_listener support_ssl support_plain ssl ep make m =
      if is_open ep m
      then (m, some address_in_use)
      else if (if ssl then support_ssl else support_plain)
      then made ep make m
      else (m, some wrong_protocol_type)

  -- `for(auto const& t : to) server->second->write(t, share_data);`
  unfoldable pub write_each : List K → List ℕ → Listener T → Run (Listener T)
  unfolding write
  write_each [] bytes l = done l
  write_each (t ∷ to) bytes l = do l' ← write t bytes l; write_each to bytes l'

  unfoldable pub write_clients : K → List K → List ℕ → Listeners → Run (Listeners × Result)
  unfolding write_each
  write_clients from to bytes m =
      if_listening (lookup eq from m) m
        λ l. do l' ← write_each to bytes l; done (assign eq from l' m, none)

  unfoldable pub count : Listeners → ℕ
  count m = length m

  abbrev pub close_found :
      Option (Listener T) → K → Listeners → Listeners × (Option (Listener T) × Result)
  close_found none ep m = (m, (none, some not_connected))
  close_found (some l) ep m = (erase eq ep m, (some (close true l), none))

  -- Container::close, with the listener that it lets go of. Listener_Base::close sets no error.
  unfoldable pub close_listener : K → Listeners → Listeners × (Option (Listener T) × Result)
  unfolding close_found
  close_listener ep m = close_found (lookup eq ep m) ep m

  abbrev pub clients_of : Option (Listener T) → Run (List K × Result)
  clients_of none = done ([], some not_connected)
  clients_of (some l) = do eps ← clients l; done (eps, none)

  -- Container::clients
  unfoldable pub listener_clients : K → Listeners → Run (List K × Result)
  unfolding clients_of
  listener_clients ep m = clients_of (lookup eq ep m)

  unfoldable pub close_listener_clients : K → List K → Listeners → Run (Listeners × Result)
  unfolding close_clients
  close_listener_clients ep eps m =
      if_listening (lookup eq ep m) m
        λ l. do l' ← close_clients eps l; done (assign eq ep l' m, none)

  unfoldable pub endpoints : Listeners → List (Bool × K)
  endpoints [] = []
  endpoints ((k, l) ∷ m) = (l.use_ssl, k) ∷ endpoints m
