-- ===== src/MyAsync/WriteQueue.antt =====
-- The write queue of a session, which `Session_Base` of websocket/ and of tcp_server/ and
-- `Client_Base` of tcp_client/ share word for word: `writing` runs on the executor for each posted
-- message, and `on_write` when the operation that `do_write` started completes.
pub mod Failures
pub mod Order
pub mod Stall
mod Examples
use xerock.Base.{ℕ, ◌≡◌, Bool, Option, none, some, List, [], ◌∷◌, ◌++◌, length, ltb, if◌then◌else◌}
use xerock.Base.Run.{Run, done, abort}

module _ (D Error : Type 0) where
  -- `in_flight` is the buffer of the outstanding operation, `sent` what completed operations wrote,
  -- and `failures` the errors given to `fail(ec, "write")`.
  pub record Session : Type 0 where
    pub queue : List D
    pub in_flight : Option D
    pub sent : List D
    pub failures : List Error

module _ {D Error : Type 0} where
  abbrev pub empty : Session D Error
  empty = record { queue = []; in_flight = none; sent = []; failures = [] }

  -- `*queue_.front()` of an empty queue has no meaning, and a second operation beside an
  -- outstanding one is refused by the stream: both end the program.
  start : List D → Option D → Session D Error → Run (Session D Error)
  start [] flight s = abort
  start (d ∷ queue) (some e) s = abort
  start (d ∷ queue) none s = done (record s { in_flight = some d })

  unfoldable pub do_write : Session D Error → Run (Session D Error)
  unfolding start
  do_write s = start s.queue s.in_flight s

  unfoldable pub writing : D → Session D Error → Run (Session D Error)
  unfolding do_write
  writing d s =
      let s' = record s { queue = s.queue ++ d ∷ [] } in
      if ltb 1 (length s'.queue) then done s' else do_write s'

  -- `queue_.erase(queue_.begin())`, and the next operation if there is one.
  advance : List D → Session D Error → Run (Session D Error)
  unfolding do_write
  advance [] s = abort
  advance (d ∷ []) s = done (record s { queue = [] })
  advance (d ∷ e ∷ rest) s = do_write (record s { queue = e ∷ rest })

  unfoldable pub on_write : Option Error → Session D Error → Run (Session D Error)
  unfolding advance
  on_write (some ec) s = done (record s { failures = s.failures ++ ec ∷ [] })
  on_write none s = advance s.queue s

  -- The outstanding operation on d ends without an error, or with one; then its handler runs.
  unfoldable pub completed : D → Session D Error → Run (Session D Error)
  unfolding on_write
  completed d s = on_write none (record s { in_flight = none; sent = s.sent ++ d ∷ [] })

  unfoldable pub broken : Error → Session D Error → Run (Session D Error)
  unfolding on_write
  broken ec s = on_write (some ec) (record s { in_flight = none })

  -- What can happen to a session, with the messages posted so far, oldest first.
  pub data Reach : List D → Session D Error → Type 0 where
    opened : Reach [] empty
    posted :
        {ds : List D} {s s' : Session D Error} (d : D)
        → Reach ds s
        → writing d s ≡ done s'
        → Reach (ds ++ d ∷ []) s'
    wrote :
        {ds : List D} {s s' : Session D Error} (d : D)
        → Reach ds s
        → s.in_flight ≡ some d
        → completed d s ≡ done s'
        → Reach ds s'
    broke :
        {ds : List D} {s s' : Session D Error} (d : D) (ec : Error)
        → Reach ds s
        → s.in_flight ≡ some d
        → broken ec s ≡ done s'
        → Reach ds s'
