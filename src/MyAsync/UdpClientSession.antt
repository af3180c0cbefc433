-- ===== src/MyAsync/UdpClientSession.antt =====
-- The life of a client of udp that was opened, udp_client/impl/client_base_impl.hpp of
-- src/libs/my_async/include/my_async. The member `endpoint_` is where do_write sends to, and where
-- do_read has the sender of a datagram stored.
pub mod Aims
mod Examples
use xerock.Base.{
  ℕ, ◌≡◌, Bool, true, false, ◌||◌, Option, none, some, List, [], ◌∷◌, ◌++◌, if◌then◌else◌, Text,
  codes,
}
use xerock.Base.Run.{Run, done, ◌>>=◌}
use xerock.MyAsync.WriteQueue as Queue
use xerock.MyAsync.WriteQueue.{Session, empty, completed, broken}

-- The errors of Boost.Asio that `fail` compares with.
pub record Quiets (Error : Type 0) : Type 0 where
  pub is_aborted : Error → Bool
  pub is_bad_descriptor : Error → Bool

-- The functions of the derived class that the client calls; `on_close` is given what the closing of
-- the socket reported.
pub data Callback (Endpoint Bytes Error : Type 0) : Type 0 where
  called_open : Callback Endpoint Bytes Error
  called_read : Endpoint → Bytes → Callback Endpoint Bytes Error
  called_error : Error → Text → Callback Endpoint Bytes Error
  called_close : Option Error → Callback Endpoint Bytes Error

-- `aims` are the endpoints that the operations of do_write so far were started for, the oldest
-- first.
pub record UdpClient (D Endpoint Bytes Error : Type 0) : Type 0 where
  pub endpoint : Endpoint
  pub is_reading : Bool
  pub out : Session D Error
  pub aims : List Endpoint
  pub calls : List (Callback Endpoint Bytes Error)

-- What can happen to the client: a datagram, its sender and what it holds; a failed receipt; a run of
-- `writing` that was posted; the end of the outstanding operation; and `close`. Where the socket is
-- closed, the last argument is what that reports.
pub data Event (D Endpoint Bytes Error : Type 0) : Type 0 where
  received : Endpoint → Bytes → Event D Endpoint Bytes Error
  not_received : Error → Option Error → Event D Endpoint Bytes Error
  posted : D → Event D Endpoint Bytes Error
  sent : Event D Endpoint Bytes Error
  not_sent : Error → Option Error → Event D Endpoint Bytes Error
  asked : Option Error → Event D Endpoint Bytes Error

-- The endpoint of an operation that is started, if one is.
unfoldable pub aim : {D Endpoint : Type 0} → Endpoint → Option D → List Endpoint → List Endpoint
aim e none es = es
aim e (some d) es = es ++ e ∷ []

-- A message that is queued behind another waits.
abbrev pub first : {D : Type 0} → List D → D → Option D
first [] d = some d
first (x ∷ queue) d = none

module _ {D Endpoint Bytes Error : Type 0} where
  abbrev call :
      Callback Endpoint Bytes Error
      → UdpClient D Endpoint Bytes Error
      → UdpClient D Endpoint Bytes Error
  call c s = record s { calls = c ∷ s.calls }

  unfoldable pub do_read : UdpClient D Endpoint Bytes Error → UdpClient D Endpoint Bytes Error
  do_read s = record s { is_reading = true }

  unfoldable pub open_client : Endpoint → UdpClient D Endpoint Bytes Error
  unfolding do_read
  open_client peer = do_read (record {
    endpoint = peer;
    is_reading = false;
    out = empty;
    aims = [];
    calls = called_open ∷ [];
  })

  unfoldable pub close :
      Option Error → UdpClient D Endpoint Bytes Error → UdpClient D Endpoint Bytes Error
  close r s = call (called_close r) s

  unfoldable pub fail :
      Quiets Error
      → Error
      → Text
      → Option Error
      → UdpClient D Endpoint Bytes Error
      → UdpClient D Endpoint Bytes Error
  unfolding close
  fail E ec what r s =
      if E.is_aborted ec || E.is_bad_descriptor ec
      then s
      else close r (call (called_error ec what) s)

  -- The sender of a datagram is in `endpoint_` when the handler of the operation runs.
  unfoldable pub on_read :
      Endpoint → Bytes → UdpClient D Endpoint Bytes Error → UdpClient D Endpoint Bytes Error
  unfolding do_read
  on_read sender bytes s =
      do_read (call (called_read sender bytes) (record s { endpoint = sender }))

  -- `do_write` runs where nothing was queued before, and behind a completed operation where
  -- something still is.
  unfoldable pub writing :
      D → UdpClient D Endpoint Bytes Error → Run (UdpClient D Endpoint Bytes Error)
  unfolding aim
  writing d s = do
    q ← Queue.writing d s.out
    done (record s { out = q; aims = aim s.endpoint (first s.out.queue d) s.aims })

  unfoldable pub on_write :
      D → UdpClient D Endpoint Bytes Error → Run (UdpClient D Endpoint Bytes Error)
  unfolding aim
  on_write d s = do
    q ← completed d s.out
    done (record s { out = q; aims = aim s.endpoint q.in_flight s.aims })

  unfoldable pub on_write_failed :
      Quiets Error
      → Error
      → Option Error
      → UdpClient D Endpoint Bytes Error
      → Run (UdpClient D Endpoint Bytes Error)
  unfolding fail
  on_write_failed E ec r s = do
    q ← broken ec s.out
    done (fail E ec (codes "write") r (record s { out = q }))

  -- Nothing ends that is not outstanding.
  abbrev pub end_read :
      Quiets Error
      → Bool
      → Event D Endpoint Bytes Error
      → UdpClient D Endpoint Bytes Error
      → UdpClient D Endpoint Bytes Error
  end_read E true (received sender bytes) s = on_read sender bytes (record s { is_reading = false })
  end_read E true (not_received ec r) s =
      fail E ec (codes "read") r (record s { is_reading = false })
  end_read E _ _ s = s

  abbrev pub end_write :
      Quiets Error
      → Option D
      → Event D Endpoint Bytes Error
      → UdpClient D Endpoint Bytes Error
      → Run (UdpClient D Endpoint Bytes Error)
  end_write E (some d) sent s = on_write d s
  end_write E (some d) (not_sent ec r) s = on_write_failed E ec r s
  end_write E _ _ s = done s

  unfoldable pub step :
      Quiets Error
      → Event D Endpoint Bytes Error
      → UdpClient D Endpoint Bytes Error
      → Run (UdpClient D Endpoint Bytes Error)
  unfolding writing on_write on_write_failed on_read fail close
  step E (received sender bytes) s = done (end_read E s.is_reading (received sender bytes) s)
  step E (not_received ec r) s = done (end_read E s.is_reading (not_received ec r) s)
  step E (posted d) s = writing d s
  step E sent s = end_write E s.out.in_flight sent s
  step E (not_sent ec r) s = end_write E s.out.in_flight (not_sent ec r) s
  step E (asked r) s = done (close r s)

  abbrev pub run :
      Quiets Error
      → List (Event D Endpoint Bytes Error)
      → UdpClient D Endpoint Bytes Error
      → Run (UdpClient D Endpoint Bytes Error)
  run E [] s = done s
  run E (e ∷ es) s = step E e s >>= run E es
