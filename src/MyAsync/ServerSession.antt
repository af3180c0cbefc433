-- ===== src/MyAsync/ServerSession.antt =====
-- The life of a session of a tcp server, tcp_server/impl/session_base_impl.hpp: the handshake, the
-- reading, the end by an error and the closing of the stream, around the write queue.
pub mod Ends
pub mod Queue
mod Examples
use xerock.Base.{
  ℕ, suc, ◌⊎◌, inl, inr, ◌≡◌, Bool, true, false, ◌||◌, ◌&&◌, Option, none, some, List, [], ◌∷◌,
  if◌then◌else◌, Text, codes,
}
use xerock.Base.Run.{done}
use xerock.MyAsync.WriteQueue.{Session, empty, writing, completed, broken}

-- The errors of Boost.Asio that `fail` compares with.
pub record Kinds (Error : Type 0) : Type 0 where
  pub is_aborted : Error → Bool
  pub is_eof : Error → Bool
  pub is_truncated : Error → Bool

-- The calls on the stream that `closing` makes, each with the error that it reports.
pub record Stream (Socket Error : Type 0) : Type 0 where
  pub shutdown : Socket → Socket × Option Error
  pub cancel : Socket → Socket × Option Error
  pub close : Socket → Socket × Option Error

-- The functions of the derived class that the session calls, with their arguments.
pub data Callback (Bytes Error : Type 0) : Type 0 where
  called_open : Callback Bytes Error
  called_read : Bytes → Callback Bytes Error
  called_error : Error → Text → Callback Bytes Error
  called_close : Error → Callback Bytes Error

-- Which of the operations that come one behind the other is outstanding.
pub data Pending : Type 0 where
  nothing : Pending
  shaking : Pending
  reading : Pending

-- `calls` are the calls so far, the last one first, `posted` how many runs of `closing` are posted.
pub record ServerSession (D Bytes Error Socket : Type 0) : Type 0 where
  pub pending : Pending
  pub out : Session D Error
  pub calls : List (Callback Bytes Error)
  pub posted : ℕ
  pub stream : Socket

-- `if(ec) return;` behind a call on the stream, and what comes behind it.
unless_failed : {Socket Error : Type 0} → (Socket → Socket) → Socket × Option Error → Socket
unless_failed next (socket, some ec) = socket
unless_failed next (socket, none) = next socket

module _ {Socket Error : Type 0} where
  -- The closing of the stream, which `closing` of the clients shares.
  unfoldable pub shut : Stream Socket Error → Socket → Socket
  unfolding unless_failed
  shut T socket =
      let close_last = λ (b : Socket). unless_failed (λ (c : Socket). c) (T.close b) in
      let cancel_then = λ (a : Socket). unless_failed close_last (T.cancel a) in
      unless_failed cancel_then (T.shutdown socket)

module _ {D Bytes Error Socket : Type 0} where
  abbrev pub created : Socket → ServerSession D Bytes Error Socket
  created socket = record {
    pending = nothing;
    out = empty;
    calls = [];
    posted = 0;
    stream = socket;
  }

  abbrev pub call :
      Callback Bytes Error → ServerSession D Bytes Error Socket → ServerSession D Bytes Error Socket
  call c s = record s { calls = c ∷ s.calls }

  abbrev pub with_out :
      Session D Error → ServerSession D Bytes Error Socket → ServerSession D Bytes Error Socket
  with_out q s = record s { out = q }

  -- The completion of the outstanding operation, before its handler runs.
  abbrev pub ended : ServerSession D Bytes Error Socket → ServerSession D Bytes Error Socket
  ended s = record s { pending = nothing }

  unfoldable pub do_read : ServerSession D Bytes Error Socket → ServerSession D Bytes Error Socket
  do_read s = record s { pending = reading }

  unfoldable pub do_accept : ServerSession D Bytes Error Socket → ServerSession D Bytes Error Socket
  unfolding do_read
  do_accept s = do_read (call called_open s)

  unfoldable pub on_run :
      Bool → ServerSession D Bytes Error Socket → ServerSession D Bytes Error Socket
  unfolding do_accept
  on_run true s = record s { pending = shaking }
  on_run false s = do_accept s

  unfoldable pub close : ServerSession D Bytes Error Socket → ServerSession D Bytes Error Socket
  close s = record s { posted = suc s.posted }

  -- The first argument tells whether the session uses SSL.
  unfoldable pub fail :
      Kinds Error
      → Bool
      → Error
      → Text
      → ServerSession D Bytes Error Socket
      → ServerSession D Bytes Error Socket
  unfolding close
  fail K ssl ec what s =
      if K.is_aborted ec || K.is_eof ec
      then call (called_close ec) s
      else if ssl && K.is_truncated ec
      then call (called_close ec) s
      else close (call (called_close ec) (call (called_error ec what) s))

  unfoldable pub on_handshake :
      Kinds Error
      → Option Error
      → ServerSession D Bytes Error Socket
      → ServerSession D Bytes Error Socket
  unfolding fail do_accept
  on_handshake K (some ec) s = fail K true ec (codes "handshake") s
  on_handshake K none s = do_accept s

  -- What was read, or the error.
  unfoldable pub on_read :
      Kinds Error
      → Bool
      → Bytes ⊎ Error
      → ServerSession D Bytes Error Socket
      → ServerSession D Bytes Error Socket
  unfolding fail do_read
  on_read K ssl (inr ec) s = fail K ssl ec (codes "read") s
  on_read K ssl (inl bytes) s = do_read (call (called_read bytes) s)

  unfoldable pub closing :
      Stream Socket Error → ServerSession D Bytes Error Socket → ServerSession D Bytes Error Socket
  unfolding shut
  closing T s = record s { stream = shut T s.stream }

  -- What can happen to a session behind `on_run`: its handlers in any order that the executor
  -- allows, with any result of an operation.
  pub data Reach (K : Kinds Error) (T : Stream Socket Error) (ssl : Bool)
      : ServerSession D Bytes Error Socket → Type 0 where
    ran : (socket : Socket) → Reach K T ssl (on_run ssl (created socket))
    shaken :
        {s : ServerSession D Bytes Error Socket} (ec : Option Error)
        → Reach K T ssl s
        → s.pending ≡ shaking
        → Reach K T ssl (on_handshake K ec (ended s))
    read :
        {s : ServerSession D Bytes Error Socket} (r : Bytes ⊎ Error)
        → Reach K T ssl s
        → s.pending ≡ reading
        → Reach K T ssl (on_read K ssl r (ended s))
    written :
        {s : ServerSession D Bytes Error Socket} {q : Session D Error} (d : D)
        → Reach K T ssl s
        → writing d s.out ≡ done q
        → Reach K T ssl (with_out q s)
    wrote :
        {s : ServerSession D Bytes Error Socket} {q : Session D Error} (d : D)
        → Reach K T ssl s
        → s.out.in_flight ≡ some d
        → completed d s.out ≡ done q
        → Reach K T ssl (with_out q s)
    broke :
        {s : ServerSession D Bytes Error Socket} {q : Session D Error} (d : D) (ec : Error)
        → Reach K T ssl s
        → s.out.in_flight ≡ some d
        → broken ec s.out ≡ done q
        → Reach K T ssl (fail K ssl ec (codes "write") (with_out q s))
    asked : {s : ServerSession D Bytes Error Socket} → Reach K T ssl s → Reach K T ssl (close s)
    closed :
        {s : ServerSession D Bytes Error Socket} {n : ℕ}
        → Reach K T ssl s
        → s.posted ≡ suc n
        → Reach K T ssl (closing T (record s { posted = n }))
