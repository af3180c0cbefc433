-- ===== src/MyAsync/ServerSession/Queue.antt =====
-- On the write queue of a session of a tcp server.
use xerock.Base.{
  suc, ◌≡◌, ap, Bool, true, false, ◌⊎◌, inl, inr, Option, none, some, List, [], ◌∷◌, ◌++◌, length,
  length-append, arith, if_lem, ◌||◌, ◌&&◌, Text,
}
use xerock.Base.Run.{Run, done, abort}
use xerock.MyAsync.WriteQueue as Queue
use xerock.MyAsync.WriteQueue.{Session, writing, completed, broken}
use xerock.MyAsync.WriteQueue.Order.{session, writing_waits}
use xerock.MyAsync.ServerSession.{
  Kinds, Stream, ServerSession, created, with_out, ended, on_run, on_handshake, on_read, do_accept,
  do_read, fail, close, closing, Reach, ran, shaken, read, written, wrote, broke, asked, closed,
}

module _ {D Error : Type 0} where
  failures_of : Run (Session D Error) → List Error
  failures_of (done s) = s.failures
  failures_of abort = []

  pub writing_keeps :
      (queue : List D) (flight : Option D) (sent : List D) (failures : List Error) (d : D)
      (q : Session D Error)
      → writing d (session queue flight sent failures) ≡ done q
      → failures ≡ q.failures
  unfolding writing failures_of
  writing_keeps [] none sent failures d q e = ap failures_of e
  writing_keeps [] (some x) sent failures d q e = cc e
  writing_keeps (x ∷ queue) flight sent failures d q e =
      let f : failures_of (done (session (x ∷ queue ++ d ∷ []) flight sent failures))
          ≡ failures_of (done q) =
        cc (writing_waits x d queue flight sent failures, e) in
      f

  pub completed_keeps :
      (queue : List D) (d : D) (flight : Option D) (sent : List D) (failures : List Error)
      (q : Session D Error)
      → completed d (session queue flight sent failures) ≡ done q
      → failures ≡ q.failures
  unfolding completed failures_of
  completed_keeps [] d flight sent failures q e = cc e
  completed_keeps (x ∷ []) d flight sent failures q e = ap failures_of e
  completed_keeps (x ∷ y ∷ queue) d flight sent failures q e = ap failures_of e

  pub broken_adds :
      (ec : Error) (s q : Session D Error)
      → broken ec s ≡ done q
      → length q.failures ≡ suc (length s.failures)
  unfolding broken failures_of
  broken_adds ec s q e =
      let f : s.failures ++ ec ∷ [] ≡ q.failures = ap failures_of e in
      ground (arith, length-append s.failures (ec ∷ []), f)

  abbrev pub Posted : Session D Error → Type 0
  Posted q = (ds : List D) × Queue.Reach ds q

module _ {D Bytes Error Socket : Type 0} (K : Kinds Error) (T : Stream Socket Error)
    (ssl : Bool) where
  fail-out :
      (with_ssl : Bool) (ec : Error) (what : Text) (s : ServerSession D Bytes Error Socket)
      → Posted s.out
      → Posted (fail K with_ssl ec what s).out
  unfolding fail close
  fail-out with_ssl ec what s p =
      let P = λ (s' : ServerSession D Bytes Error Socket). Posted s'.out in
      if_lem P (K.is_aborted ec || K.is_eof ec) p (if_lem P (with_ssl && K.is_truncated ec) p p)

  on_run-out :
      (with_ssl : Bool) (s : ServerSession D Bytes Error Socket)
      → Posted s.out
      → Posted (on_run with_ssl s).out
  unfolding on_run do_accept do_read
  on_run-out true s p = p
  on_run-out false s p = p

  on_handshake-out :
      (ec : Option Error) (s : ServerSession D Bytes Error Socket)
      → Posted s.out
      → Posted (on_handshake K ec s).out
  unfolding on_handshake do_accept do_read
  on_handshake-out (some ec) s p = fail-out true ec _ s p
  on_handshake-out none s p = p

  on_read-out :
      (r : Bytes ⊎ Error) (s : ServerSession D Bytes Error Socket)
      → Posted s.out
      → Posted (on_read K ssl r s).out
  unfolding on_read do_read
  on_read-out (inr ec) s p = fail-out ssl ec _ s p
  on_read-out (inl bytes) s p = p

  pub Reach-queue : {s : ServerSession D Bytes Error Socket} → Reach K T ssl s → Posted s.out
  unfolding close closing
  Reach-queue (ran socket) = on_run-out ssl (created socket) ([], Queue.opened)
  Reach-queue (shaken {s} ec r w) = on_handshake-out ec (ended s) (Reach-queue r)
  Reach-queue (read {s} b r w) = on_read-out b (ended s) (Reach-queue r)
  Reach-queue (written {s} {q} d r e) =
      let (ds, h) = Reach-queue r in (ds ++ d ∷ [], Queue.posted d h e)
  Reach-queue (wrote {s} {q} d r f e) = let (ds, h) = Reach-queue r in (ds, Queue.wrote d h f e)
  Reach-queue (broke {s} {q} d ec r f e) =
      let (ds, h) = Reach-queue r in fail-out ssl ec _ (with_out q s) (ds, Queue.broke d ec h f e)
  Reach-queue (asked {s} r) = Reach-queue r
  Reach-queue (closed {s} {n} r e) = Reach-queue r
