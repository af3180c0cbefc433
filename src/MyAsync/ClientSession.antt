-- ===== src/MyAsync/ClientSession.antt =====
-- The life of a client of tcp, tcp_client/impl/client_base_impl.hpp: the attempt to connect with its
-- callback, the handshake, the reading, the end by an error and the closing of the stream.
pub mod Answer
mod Examples
use xerock.Base.{
  ℕ, suc, ◌⊎◌, inl, inr, ◌≡◌, Bool, true, false, ◌||◌, ◌&&◌, Option, none, some, List, [], ◌∷◌,
  if◌then◌else◌, Text, codes,
}
use xerock.Base.Run.{done}
use xerock.MyAsync.WriteQueue.{Session, empty, writing, completed, broken}
use xerock.MyAsync.ServerSession.{Stream, shut}

-- The errors of Boost.Asio that `fail` compares with.
pub record Kinds (Error : Type 0) : Type 0 where
  pub is_aborted : Error → Bool
  pub is_eof : Error → Bool
  pub is_truncated : Error → Bool
  pub is_refused : Error → Bool

-- The calls of the functions of the derived class, and of the callback given to `open`.
pub data Call (Bytes Error : Type 0) : Type 0 where
  called_back : Option Error → Call Bytes Error
  called_open : Call Bytes Error
  called_read : Bytes → Call Bytes Error
  called_error : Error → Text → Call Bytes Error
  called_close : Error → Call Bytes Error

-- Which of the operations that come one behind the other is outstanding.
pub data Pending : Type 0 where
  nothing : Pending
  connecting : Pending
  shaking : Pending
  reading : Pending

-- `calls` are the calls so far, the last one first, `posted` how many runs of `closing` are posted.
pub record ClientSession (D Bytes Error Socket : Type 0) : Type 0 where
  pub pending : Pending
  pub out : Session D Error
  pub calls : List (Call Bytes Error)
  pub posted : ℕ
  pub stream : Socket

module _ {D Bytes Error Socket : Type 0} where
  abbrev pub created : Socket → ClientSession D Bytes Error Socket
  created socket = record {
    pending = nothing;
    out = empty;
    calls = [];
    posted = 0;
    stream = socket;
  }

  abbrev pub call :
      Call Bytes Error → ClientSession D Bytes Error Socket → ClientSession D Bytes Error Socket
  call c s = record s { calls = c ∷ s.calls }

  abbrev pub with_out :
      Session D Error → ClientSession D Bytes Error Socket → ClientSession D Bytes Error Socket
  with_out q s = record s { out = q }

  -- The completion of the outstanding operation, before its handler runs.
  abbrev pub ended : ClientSession D Bytes Error Socket → ClientSession D Bytes Error Socket
  ended s = record s { pending = nothing }

  -- With a callback.
  unfoldable pub open_cb : ClientSession D Bytes Error Socket → ClientSession D Bytes Error Socket
  open_cb s = record s { pending = connecting }

  unfoldable pub do_read : ClientSession D Bytes Error Socket → ClientSession D Bytes Error Socket
  do_read s = record s { pending = reading }

  -- With SSL the handshake comes first.
  unfoldable pub connected :
      Bool → ClientSession D Bytes Error Socket → ClientSession D Bytes Error Socket
  unfolding do_read
  connected true s = record s { pending = shaking }
  connected false s = do_read (call called_open (call (called_back none) s))

  unfoldable pub close : ClientSession D Bytes Error Socket → ClientSession D Bytes Error Socket
  close s = record s { posted = suc s.posted }

  unfoldable pub closing :
      Stream Socket Error → ClientSession D Bytes Error Socket → ClientSession D Bytes Error Socket
  unfolding shut
  closing T s = record s { stream = shut T s.stream }

-- The Boolean tells whether the client uses SSL.
module _ {D Bytes Error Socket : Type 0} (K : Kinds Error) (ssl : Bool) where
  unfoldable pub fail :
      Error → Text → ClientSession D Bytes Error Socket → ClientSession D Bytes Error Socket
  unfolding close
  fail ec what s =
      if K.is_aborted ec || K.is_eof ec
      then call (called_close ec) s
      else if ssl && K.is_truncated ec
      then call (called_close ec) s
      else if K.is_refused ec
      then call (called_error ec what) s
      else close (call (called_close ec) (call (called_error ec what) s))

  unfoldable pub on_handshake_cb :
      Option Error → ClientSession D Bytes Error Socket → ClientSession D Bytes Error Socket
  unfolding fail do_read
  on_handshake_cb (some ec) s = fail ec (codes "handshake") (call (called_back (some ec)) s)
  on_handshake_cb none s = do_read (call called_open (call (called_back none) s))

  unfoldable pub opened_cb :
      Option Error → ClientSession D Bytes Error Socket → ClientSession D Bytes Error Socket
  unfolding fail connected
  opened_cb (some ec) s = fail ec (codes "open") (call (called_back (some ec)) s)
  opened_cb none s = connected ssl s

  -- What was read, or the error.
  unfoldable pub on_read :
      Bytes ⊎ Error → ClientSession D Bytes Error Socket → ClientSession D Bytes Error Socket
  unfolding fail do_read
  on_read (inr ec) s = fail ec (codes "read") s
  on_read (inl bytes) s = do_read (call (called_read bytes) s)

  -- What can happen to a client behind `open`: its handlers in any order that the executor allows,
  -- with any result of an operation.
  pub data Reach (T : Stream Socket Error) : ClientSession D Bytes Error Socket → Type 0 where
    asked_open : (socket : Socket) → Reach T (open_cb (created socket))
    met :
        {s : ClientSession D Bytes Error Socket} (ec : Option Error)
        → Reach T s
        → s.pending ≡ connecting
        → Reach T (opened_cb ec (ended s))
    shaken :
        {s : ClientSession D Bytes Error Socket} (ec : Option Error)
        → Reach T s
        → s.pending ≡ shaking
        → Reach T (on_handshake_cb ec (ended s))
    read :
        {s : ClientSession D Bytes Error Socket} (r : Bytes ⊎ Error)
        → Reach T s
        → s.pending ≡ reading
        → Reach T (on_read r (ended s))
    written :
        {s : ClientSession D Bytes Error Socket} {q : Session D Error} (d : D)
        → Reach T s
        → writing d s.out ≡ done q
        → Reach T (with_out q s)
    wrote :
        {s : ClientSession D Bytes Error Socket} {q : Session D Error} (d : D)
        → Reach T s
        → s.out.in_flight ≡ some d
        → completed d s.out ≡ done q
        → Reach T (with_out q s)
    broke :
        {s : ClientSession D Bytes Error Socket} {q : Session D Error} (d : D) (ec : Error)
        → Reach T s
        → s.out.in_flight ≡ some d
        → broken ec s.out ≡ done q
        → Reach T (fail ec (codes "write") (with_out q s))
    asked : {s : ClientSession D Bytes Error Socket} → Reach T s → Reach T (close s)
    closed :
        {s : ClientSession D Bytes Error Socket} {n : ℕ}
        → Reach T s
        → s.posted ≡ suc n
        → Reach T (closing T (record s { posted = n }))
