-- ===== src/MyAsync/ListenerContainer/Delivery.antt =====
-- On the writes of a listener to its clients.
use mathlib.Core.Logic.{ite, if_pos, if_neg}
use mathlib.Core.List.{map-id, map-map}
use xerock.Base.{
  ℕ, zero, suc, ◌≡◌, refl, sym, ap, ◌∙◌, fun_ext, Bool, true, false, ◌||◌, if◌then◌else◌,
  Bool-cases, inl, inr, List, [], ◌∷◌, map,
}
use xerock.Base.Run.{done, abort}
use xerock.MyAsync.ListenerContainer.{
  SessionType, Listener, all_connected, deliver, write, write_each,
}

module _ {K : Type 0} (T : SessionType K) (eq : Discrete K) where
  open T use {Session, is_connected, endpoint, write_session}

  abbrev pub is_nil : List K → Bool
  is_nil [] = true
  is_nil (t ∷ to) = false

  -- How often the endpoint is in the list.
  abbrev pub occurrences : K → List K → ℕ
  occurrences k [] = 0
  occurrences k (t ∷ to) = ite (eq t k) (suc (occurrences k to)) (occurrences k to)

  abbrev pub written : ℕ → List ℕ → Session → Session
  written zero bytes s = s
  written (suc n) bytes s = written n bytes (write_session bytes s)

  -- What the loop does to one session.
  turn : K → List ℕ → Session → Session
  turn t bytes s = ite (eq t (endpoint s)) (write_session bytes s) s

  one_session : List K → List ℕ → Session → Session
  one_session [] bytes s = s
  one_session (t ∷ to) bytes s = one_session to bytes (turn t bytes s)

  -- What the loop leaves where no write throws.
  deliver_each : List K → List ℕ → Listener T → Listener T
  deliver_each [] bytes l = l
  deliver_each (t ∷ to) bytes l = deliver_each to bytes (deliver T eq t bytes l)

  deliver_each-map :
      (to : List K) (bytes : List ℕ) (l : Listener T)
      → deliver_each to bytes l ≡ record l { share = map (one_session to bytes) l.share }
  unfolding deliver_each deliver one_session turn
  deliver_each-map [] bytes l = ap (λ xs. record l { share = xs }) (sym (map-id l.share))
  deliver_each-map (t ∷ to) bytes l =
      deliver_each-map to bytes (deliver T eq t bytes l)
      ∙ ap (λ xs. record l { share = xs }) (map-map (one_session to bytes) (turn t bytes) l.share)

  module _
      (same : (bytes : List ℕ) (s : Session) → endpoint (write_session bytes s) ≡ endpoint s) where
    one_session-written :
        (to : List K) (bytes : List ℕ) (s : Session)
        → one_session to bytes s ≡ written (occurrences (endpoint s) to) bytes s
    unfolding one_session turn
    one_session-written [] bytes s = refl
    one_session-written (t ∷ to) bytes s = elim (eq t (endpoint s)) [
      | yes e ↦ rw (
        if_pos (eq t (endpoint s)) e,
        one_session-written to bytes (write_session bytes s),
        same bytes s,
        if_pos (eq t (endpoint s)) e,
      )
      | no n ↦ rw (
        if_neg (eq t (endpoint s)) n,
        one_session-written to bytes s,
        if_neg (eq t (endpoint s)) n,
      )
    ]

    deliver_each-written :
        (to : List K) (bytes : List ℕ) (l : Listener T)
        → deliver_each to bytes l
          ≡ record l { share = map (λ s. written (occurrences (endpoint s) to) bytes s) l.share }
    deliver_each-written to bytes l =
        deliver_each-map to bytes l
        ∙ ap (λ f. record l { share = map f l.share }) (fun_ext (one_session-written to bytes))

    module _
        (stays : (bytes : List ℕ) (s : Session)
          → is_connected (write_session bytes s) ≡ is_connected s) where
      turn-connected :
          (t : K) (bytes : List ℕ) (s : Session) → is_connected (turn t bytes s) ≡ is_connected s
      unfolding turn
      turn-connected t bytes s = elim (eq t (endpoint s)) [
        | yes e ↦ rw (if_pos (eq t (endpoint s)) e) (stays bytes s)
        | no n ↦ rw (if_neg (eq t (endpoint s)) n) refl
      ]

      all_connected-turn :
          (t : K) (bytes : List ℕ) (share : List Session)
          → all_connected T eq (map (turn t bytes) share) ≡ all_connected T eq share
      unfolding all_connected
      all_connected-turn t bytes [] = refl
      all_connected-turn t bytes (s ∷ share) =
          rw (turn-connected t bytes s, all_connected-turn t bytes share) refl

      write_each-deliver :
          (to : List K) (bytes : List ℕ) (l : Listener T)
          → all_connected T eq l.share ≡ true
          → write_each T eq to bytes l ≡ done (deliver_each to bytes l)
      unfolding write_each write deliver deliver_each turn
      write_each-deliver [] bytes l h = refl
      write_each-deliver (t ∷ to) bytes l h = rw h (
          write_each-deliver to bytes (deliver T eq t bytes l)
            (all_connected-turn t bytes l.share ∙ h))

      -- If a write changes neither the endpoint of a session nor whether it is connected, then the
      -- loop over the receivers of a message writes to each session of the listener as often as its
      -- endpoint is in the list, and changes nothing else; where a session is not connected and there
      -- is a receiver, it ends the daemon.
      pub write_each-written :
          (to : List K) (bytes : List ℕ) (l : Listener T)
          → write_each T eq to bytes l ≡ (
              if is_nil to || all_connected T eq l.share
              then done (record l {
                share = map (λ s. written (occurrences (endpoint s) to) bytes s) l.share;
              })
              else abort)
      unfolding write_each write deliver_each
      write_each-written [] bytes l = ap done (deliver_each-written [] bytes l)
      write_each-written (t ∷ to) bytes l = elim (Bool-cases (all_connected T eq l.share)) [
        | inl h ↦
            write_each-deliver (t ∷ to) bytes l h
            ∙ rw h (ap done (deliver_each-written (t ∷ to) bytes l))
        | inr h ↦ rw h refl
      ]
