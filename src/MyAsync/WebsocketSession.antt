-- ===== src/MyAsync/WebsocketSession.antt =====
-- The life of a session of a user of the daemon, websocket/impl/session_base_impl.hpp of
-- src/libs/my_async/include/my_async, with the callbacks of
-- websocket/impl/session_static_callback_static_share_impl.hpp: the handshakes, the reading, the
-- writing of messages that are posted, and the end. The options of the stream are left out.
pub mod Sent
pub mod Ends
mod Examples
use xerock.Base.{
  ℕ, suc, ◌⊎◌, inl, inr, ◌≡◌, Bool, true, false, ◌||◌, Option, none, some, List, [], ◌∷◌, ◌++◌,
  if◌then◌else◌, Text, codes,
}
use xerock.Base.Run.{done}
use xerock.MyAsync.WriteQueue.{Session, empty, writing, completed, broken}
use xerock.MyAsync.ServerSession.{Callback, called_open, called_read, called_error, called_close}

-- The errors that `fail` compares with: operation_aborted of Boost.Asio and closed of Boost.Beast.
pub record Endings (Error : Type 0) : Type 0 where
  pub is_aborted : Error → Bool
  pub is_closed : Error → Bool

-- The outstanding operation: the handshake of TLS, that of the WebSocket, or a read.
pub data Stage : Type 0 where
  idle : Stage
  shaking : Stage
  accepting : Stage
  reading : Stage

-- `calls` are the calls of on_open_f, on_message_f, on_error_f and on_close_f so far, the last one
-- first; `posts` the messages for which a run of `writing` is posted, the oldest first; and
-- `closings` counts the outstanding operations of `close`.
pub record WebsocketSession (D Bytes Error : Type 0) : Type 0 where
  pub stage : Stage
  pub out : Session D Error
  pub posts : List D
  pub calls : List (Callback Bytes Error)
  pub is_text : Bool
  pub closings : ℕ

module _ {D Bytes Error : Type 0} where
  abbrev pub created : WebsocketSession D Bytes Error
  created = record {
    stage = idle;
    out = empty;
    posts = [];
    calls = [];
    is_text = true;
    closings = 0;
  }

  abbrev pub call :
      Callback Bytes Error → WebsocketSession D Bytes Error → WebsocketSession D Bytes Error
  call c s = record s { calls = c ∷ s.calls }

  -- The completion of the outstanding operation, before its handler runs.
  abbrev pub ended : WebsocketSession D Bytes Error → WebsocketSession D Bytes Error
  ended s = record s { stage = idle }

  -- The next message whose `writing` runs is taken from those posted.
  abbrev pub taken :
      List D → Session D Error → WebsocketSession D Bytes Error → WebsocketSession D Bytes Error
  taken rest q s = record s { out = q; posts = rest }

  abbrev pub with_out :
      Session D Error → WebsocketSession D Bytes Error → WebsocketSession D Bytes Error
  with_out q s = record s { out = q }

  unfoldable pub do_read : WebsocketSession D Bytes Error → WebsocketSession D Bytes Error
  do_read s = record s { stage = reading }

  unfoldable pub on_run : Bool → WebsocketSession D Bytes Error → WebsocketSession D Bytes Error
  on_run true s = record s { stage = shaking }
  on_run false s = record s { stage = accepting }

  -- `run(req)`, of a connection that another class has read the request of.
  unfoldable pub run_request : WebsocketSession D Bytes Error → WebsocketSession D Bytes Error
  run_request s = record s { stage = accepting }

  unfoldable pub fail :
      Endings Error → Error → Text → WebsocketSession D Bytes Error → WebsocketSession D Bytes Error
  fail E ec what s =
      if E.is_aborted ec || E.is_closed ec
      then call (called_close ec) s
      else call (called_error ec what) s

  unfoldable pub on_handshake :
      Endings Error → Option Error → WebsocketSession D Bytes Error → WebsocketSession D Bytes Error
  unfolding fail
  on_handshake E (some ec) s = fail E ec (codes "handshake") s
  on_handshake E none s = record s { stage = accepting }

  unfoldable pub on_accept :
      Endings Error → Option Error → WebsocketSession D Bytes Error → WebsocketSession D Bytes Error
  unfolding fail do_read
  on_accept E (some ec) s = fail E ec (codes "accept") s
  on_accept E none s = call called_open (do_read s)

  -- What was read, or the error.
  unfoldable pub on_read :
      Endings Error
      → Bytes ⊎ Error
      → WebsocketSession D Bytes Error
      → WebsocketSession D Bytes Error
  unfolding fail do_read
  on_read E (inr ec) s = fail E ec (codes "read") s
  on_read E (inl bytes) s = do_read (call (called_read bytes) s)

  unfoldable pub set_text : Bool → WebsocketSession D Bytes Error → WebsocketSession D Bytes Error
  set_text b s = record s { is_text = b }

  unfoldable pub write : D → WebsocketSession D Bytes Error → WebsocketSession D Bytes Error
  write d s = record s { posts = s.posts ++ d ∷ [] }

  unfoldable pub write_share2 :
      D → Bool → WebsocketSession D Bytes Error → WebsocketSession D Bytes Error
  unfolding set_text write
  write_share2 d b s = write d (set_text b s)

  unfoldable pub close : WebsocketSession D Bytes Error → WebsocketSession D Bytes Error
  close s = record s { closings = suc s.closings }

  -- The end of `close` calls on_close of the base class, which the session does not override and
  -- which is empty.
  unfoldable pub closed : WebsocketSession D Bytes Error → WebsocketSession D Bytes Error
  closed s = s

  -- What can happen to a session behind `run`, with the messages given to it so far, the oldest
  -- first: its handlers in any order that the executor allows, with any result of an operation.
  pub data Lives (E : Endings Error) : List D → WebsocketSession D Bytes Error → Type 0 where
    ran : (ssl : Bool) → Lives E [] (on_run ssl created)
    upgraded : Lives E [] (run_request created)
    shaken :
        {ds : List D} {s : WebsocketSession D Bytes Error} (ec : Option Error)
        → Lives E ds s
        → s.stage ≡ shaking
        → Lives E ds (on_handshake E ec (ended s))
    accepted :
        {ds : List D} {s : WebsocketSession D Bytes Error} (ec : Option Error)
        → Lives E ds s
        → s.stage ≡ accepting
        → Lives E ds (on_accept E ec (ended s))
    read :
        {ds : List D} {s : WebsocketSession D Bytes Error} (r : Bytes ⊎ Error)
        → Lives E ds s
        → s.stage ≡ reading
        → Lives E ds (on_read E r (ended s))
    given :
        {ds : List D} {s : WebsocketSession D Bytes Error} (d : D)
        → Lives E ds s
        → Lives E (ds ++ d ∷ []) (write d s)
    set :
        {ds : List D} {s : WebsocketSession D Bytes Error} (b : Bool)
        → Lives E ds s
        → Lives E ds (set_text b s)
    written :
        {ds rest : List D} {s : WebsocketSession D Bytes Error} {q : Session D Error} (d : D)
        → Lives E ds s
        → s.posts ≡ d ∷ rest
        → writing d s.out ≡ done q
        → Lives E ds (taken rest q s)
    wrote :
        {ds : List D} {s : WebsocketSession D Bytes Error} {q : Session D Error} (d : D)
        → Lives E ds s
        → s.out.in_flight ≡ some d
        → completed d s.out ≡ done q
        → Lives E ds (with_out q s)
    broke :
        {ds : List D} {s : WebsocketSession D Bytes Error} {q : Session D Error} (d : D)
        (ec : Error)
        → Lives E ds s
        → s.out.in_flight ≡ some d
        → broken ec s.out ≡ done q
        → Lives E ds (fail E ec (codes "write") (with_out q s))
    asked : {ds : List D} {s : WebsocketSession D Bytes Error} → Lives E ds s → Lives E ds (close s)
    ended_close :
        {ds : List D} {s : WebsocketSession D Bytes Error} {n : ℕ}
        → Lives E ds s
        → s.closings ≡ suc n
        → Lives E ds (closed (record s { closings = n }))
