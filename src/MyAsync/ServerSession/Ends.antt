-- ===== src/MyAsync/ServerSession/Ends.antt =====
-- On the ends of a session of a tcp server and the order of its callbacks.
use xerock.Base.{
  if_lem, ℕ, suc, ◌+◌, ◌≡◌, refl, ap, subst, Bool, true, false, ◌⊎◌, inl, inr, Option, none, some,
  List, [], ◌∷◌, length, ◌≤◌, arith, ◌||◌, ◌&&◌, Text,
}
use xerock.MyAsync.WriteQueue.{Session}
use xerock.MyAsync.ServerSession.Queue.{writing_keeps, completed_keeps, broken_adds, Reach-queue}
use xerock.MyAsync.WriteQueue.Failures.{failures_few}
use xerock.MyAsync.ServerSession.{
  Kinds, Stream, Callback, called_open, called_read, called_error, called_close, Pending, nothing,
  shaking, reading, ServerSession, created, call, with_out, ended, on_run, on_handshake, on_read,
  do_accept, do_read, fail, close, closing, Reach, ran, shaken, read, written, wrote, broke, asked,
  closed,
}

module _ {Bytes Error : Type 0} where
  abbrev pub opens : List (Callback Bytes Error) → ℕ
  opens [] = 0
  opens (called_open ∷ cs) = suc (opens cs)
  opens (called_read b ∷ cs) = opens cs
  opens (called_error ec what ∷ cs) = opens cs
  opens (called_close ec ∷ cs) = opens cs

  abbrev pub closes : List (Callback Bytes Error) → ℕ
  closes [] = 0
  closes (called_open ∷ cs) = closes cs
  closes (called_read b ∷ cs) = closes cs
  closes (called_error ec what ∷ cs) = closes cs
  closes (called_close ec ∷ cs) = suc (closes cs)

  -- on_open comes once and before every read_handler; the last call stands first.
  abbrev pub Ordered : List (Callback Bytes Error) → Type 0
  Ordered [] = Unit
  Ordered (called_open ∷ cs) = (opens cs ≡ 0) × Ordered cs
  Ordered (called_read b ∷ cs) = (opens cs ≡ 1) × Ordered cs
  Ordered (called_error ec what ∷ cs) = Ordered cs
  Ordered (called_close ec ∷ cs) = Ordered cs

abbrev pub waiting : Pending → ℕ
waiting nothing = 0
waiting shaking = 1
waiting reading = 1

abbrev Follows : Pending → ℕ → Type 0
Follows nothing n = Unit
Follows shaking n = n ≡ 0
Follows reading n = n ≡ 1

module _ {D Bytes Error Socket : Type 0} where
  -- Each on_close has used up the outstanding read or handshake, or a failure of the write queue.
  record Counted (s : ServerSession D Bytes Error Socket) : Type 0 where
    balance : closes s.calls + waiting s.pending ≡ suc (length s.out.failures)
    follows : Follows s.pending (opens s.calls)
    ordered : Ordered s.calls

  -- Behind an error that is not reported yet.
  record Uncounted (s : ServerSession D Bytes Error Socket) : Type 0 where
    balance' : closes s.calls + waiting s.pending ≡ length s.out.failures
    follows' : Follows s.pending (opens s.calls)
    ordered' : Ordered s.calls

module _ {D Bytes Error Socket : Type 0} (K : Kinds Error) (T : Stream Socket Error)
    (ssl : Bool) where
  fail-Counted :
      (with_ssl : Bool) (ec : Error) (what : Text) (s : ServerSession D Bytes Error Socket)
      → Uncounted s
      → Counted (fail K with_ssl ec what s)
  unfolding fail close
  fail-Counted with_ssl ec what s u =
      let b : suc (closes s.calls) + waiting s.pending ≡ suc (length s.out.failures) =
        omega (arith, u.balance') in
      let quiet : Counted (call (called_close ec) s) = record {
        balance = b;
        follows = u.follows';
        ordered = u.ordered';
      } in
      let told : Counted (close (call (called_close ec) (call (called_error ec what) s))) = record {
        balance = b;
        follows = u.follows';
        ordered = u.ordered';
      } in
      if_lem Counted (K.is_aborted ec || K.is_eof ec) quiet
        (if_lem Counted (with_ssl && K.is_truncated ec) quiet told)

  do_accept-Counted :
      (s : ServerSession D Bytes Error Socket)
      → closes s.calls ≡ length s.out.failures
      → opens s.calls ≡ 0
      → Ordered s.calls
      → Counted (do_accept s)
  unfolding do_accept do_read
  do_accept-Counted s c n o = record {
    balance = omega (arith, c);
    follows = ap suc n;
    ordered = (n, o);
  }

  -- The handler of an operation that ended starts from here.
  ended-Uncounted :
      (s : ServerSession D Bytes Error Socket)
      → waiting s.pending ≡ 1
      → Counted s
      → Uncounted (ended s)
  ended-Uncounted s w c = record {
    balance' = ground (arith, w, c.balance);
    follows' = tt;
    ordered' = c.ordered;
  }

  kept-Counted :
      (s : ServerSession D Bytes Error Socket) (q : Session D Error)
      → s.out.failures ≡ q.failures
      → Counted s
      → Counted (with_out q s)
  kept-Counted s q e c = record {
    balance = ground (arith, c.balance, e);
    follows = c.follows;
    ordered = c.ordered;
  }

  ran-Counted :
      (with_ssl : Bool) (socket : Socket)
      → Counted {D = D} {Bytes = Bytes} {Error = Error} (on_run with_ssl (created socket))
  unfolding on_run
  ran-Counted true socket = record { balance = refl; follows = refl; ordered = tt }
  ran-Counted false socket = do_accept-Counted (created socket) refl refl tt

  on_handshake-Counted :
      (ec : Option Error) (s : ServerSession D Bytes Error Socket)
      → s.pending ≡ shaking
      → Counted s
      → Counted (on_handshake K ec (ended s))
  unfolding on_handshake
  on_handshake-Counted (some ec) s w c =
      fail-Counted true ec _ (ended s) (ended-Uncounted s (ap waiting w) c)
  on_handshake-Counted none s w c =
      do_accept-Counted (ended s) (ground (arith, (ended-Uncounted s (ap waiting w) c).balance'))
        (subst (λ p. Follows p (opens s.calls)) w c.follows) c.ordered

  on_read-Counted :
      (r : Bytes ⊎ Error) (s : ServerSession D Bytes Error Socket)
      → s.pending ≡ reading
      → Counted s
      → Counted (on_read K ssl r (ended s))
  unfolding on_read do_read
  on_read-Counted (inr ec) s w c =
      fail-Counted ssl ec _ (ended s) (ended-Uncounted s (ap waiting w) c)
  on_read-Counted (inl bytes) s w c =
      let opened : opens s.calls ≡ 1 = subst (λ p. Follows p (opens s.calls)) w c.follows in
      let running : waiting s.pending ≡ 1 = ap waiting w in
      record {
        balance = ground (arith, c.balance, running);
        follows = opened;
        ordered = (opened, c.ordered);
      }

  Reach-Counted : {s : ServerSession D Bytes Error Socket} → Reach K T ssl s → Counted s
  unfolding close closing
  Reach-Counted (ran socket) = ran-Counted ssl socket
  Reach-Counted (shaken {s} ec r w) = on_handshake-Counted ec s w (Reach-Counted r)
  Reach-Counted (read {s} b r w) = on_read-Counted b s w (Reach-Counted r)
  Reach-Counted (written {s} {q} d r e) =
      kept-Counted s q (writing_keeps s.out.queue s.out.in_flight s.out.sent s.out.failures d q e)
        (Reach-Counted r)
  Reach-Counted (wrote {s} {q} d r f e) =
      kept-Counted s q (completed_keeps s.out.queue d s.out.in_flight s.out.sent s.out.failures q e)
        (Reach-Counted r)
  Reach-Counted (broke {s} {q} d ec r f e) =
      let c = Reach-Counted r in
      fail-Counted ssl ec _ (with_out q s) (record {
        balance' = ground (arith, c.balance, broken_adds ec s.out q e);
        follows' = c.follows;
        ordered' = c.ordered;
      })
  Reach-Counted (asked {s} r) =
      let c = Reach-Counted r in
      record { balance = c.balance; follows = c.follows; ordered = c.ordered }
  Reach-Counted (closed {s} {n} r e) =
      let c = Reach-Counted r in
      record { balance = c.balance; follows = c.follows; ordered = c.ordered }

  -- In a session of a tcp server that has run, the calls of on_close so far and the handshake or
  -- read that is outstanding are together one more than the failures of the write queue, and
  -- on_close is called at most twice.
  pub Reach-closes :
      {s : ServerSession D Bytes Error Socket}
      → Reach K T ssl s
      → (closes s.calls + waiting s.pending ≡ suc (length s.out.failures)) × (closes s.calls ≤ 2)
  Reach-closes {s} r =
      let c = Reach-Counted r in
      let few : length s.out.failures ≤ 1 = failures_few ((Reach-queue K T ssl r).1) in
      (c.balance, ground (arith, c.balance, few))

  -- In a session of a tcp server that has run, on_open is called at most once, and the read handler
  -- only behind it.
  pub Reach-Ordered : {s : ServerSession D Bytes Error Socket} → Reach K T ssl s → Ordered s.calls
  Reach-Ordered r = (Reach-Counted r).ordered
