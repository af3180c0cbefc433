-- ===== src/MyAsync/WebsocketSession/Ends.antt =====
-- On the calls of the callbacks of a session of a user.
use xerock.Base.{
  ℕ, suc, ◌+◌, ◌≡◌, refl, ap, subst, Bool, true, false, ◌⊎◌, inl, inr, Option, none, some, List, [],
  ◌∷◌, length, ◌≤◌, arith, if_cases, ◌||◌, Text,
}
use xerock.MyAsync.WriteQueue.{Session}
use xerock.MyAsync.WriteQueue.Failures.{failures_few}
use xerock.MyAsync.ServerSession.{Callback, called_open, called_read, called_error, called_close}
use xerock.MyAsync.ServerSession.Ends.{opens, Ordered}
use xerock.MyAsync.ServerSession.Queue.{writing_keeps, completed_keeps, broken_adds}
use xerock.MyAsync.WebsocketSession.{
  Endings, Stage, idle, shaking, accepting, reading, WebsocketSession, created, ended, with_out,
  on_run, run_request, on_handshake, on_accept, on_read, do_read, fail, set_text, write, close,
  closed, Lives, ran, upgraded, shaken, accepted, read, given, set, written, wrote, broke, asked,
  ended_close,
}
use xerock.MyAsync.WebsocketSession.Sent.{Lives-Taken}

module _ {Bytes Error : Type 0} where
  -- The calls of on_close_f and on_error_f.
  abbrev pub reports : List (Callback Bytes Error) → ℕ
  reports [] = 0
  reports (called_open ∷ cs) = reports cs
  reports (called_read b ∷ cs) = reports cs
  reports (called_error ec what ∷ cs) = suc (reports cs)
  reports (called_close ec ∷ cs) = suc (reports cs)

  -- on_close_f is told of an operation that was aborted and of a session that the peer closed, and
  -- on_error_f of the other errors.
  abbrev pub Sorted : Endings Error → List (Callback Bytes Error) → Type 0
  Sorted E [] = Unit
  Sorted E (called_open ∷ cs) = Sorted E cs
  Sorted E (called_read b ∷ cs) = Sorted E cs
  Sorted E (called_error ec what ∷ cs) = (E.is_aborted ec || E.is_closed ec ≡ false) × Sorted E cs
  Sorted E (called_close ec ∷ cs) = (E.is_aborted ec || E.is_closed ec ≡ true) × Sorted E cs

abbrev pub waits : Stage → ℕ
waits idle = 0
waits shaking = 1
waits accepting = 1
waits reading = 1

abbrev Follows : Stage → ℕ → Type 0
Follows idle n = Unit
Follows shaking n = n ≡ 0
Follows accepting n = n ≡ 0
Follows reading n = n ≡ 1

module _ {D Bytes Error : Type 0} (E : Endings Error) where
  -- Each report has used up the outstanding operation, or a failure of the write queue; with n
  -- failures that are not reported yet.
  record Counted (n : ℕ) (s : WebsocketSession D Bytes Error) : Type 0 where
    balance : reports s.calls + waits s.stage + n ≡ suc (length s.out.failures)
    follows : Follows s.stage (opens s.calls)
    ordered : Ordered s.calls
    sorted : Sorted E s.calls

  fail-Counted :
      (ec : Error) (what : Text) (s : WebsocketSession D Bytes Error)
      → Counted 1 s
      → Counted 0 (fail E ec what s)
  unfolding fail
  fail-Counted ec what s c =
      if_cases (Counted 0) (E.is_aborted ec || E.is_closed ec)
        (λ h. record {
          balance = omega (arith, c.balance);
          follows = c.follows;
          ordered = c.ordered;
          sorted = (h, c.sorted);
        })
        (λ h. record {
          balance = omega (arith, c.balance);
          follows = c.follows;
          ordered = c.ordered;
          sorted = (h, c.sorted);
        })

  -- The handler of an operation that ended starts from here.
  ended-Counted :
      (s : WebsocketSession D Bytes Error) → waits s.stage ≡ 1 → Counted 0 s → Counted 1 (ended s)
  ended-Counted s w c = record {
    balance = ground (arith, w, c.balance);
    follows = tt;
    ordered = c.ordered;
    sorted = c.sorted;
  }

  on_run-Counted :
      (ssl : Bool) → Counted 0 (on_run {D = D} {Bytes = Bytes} {Error = Error} ssl created)
  unfolding on_run
  on_run-Counted true = record { balance = refl; follows = refl; ordered = tt; sorted = tt }
  on_run-Counted false = record { balance = refl; follows = refl; ordered = tt; sorted = tt }

  on_handshake-Counted :
      (ec : Option Error) (s : WebsocketSession D Bytes Error)
      → s.stage ≡ shaking
      → Counted 0 s
      → Counted 0 (on_handshake E ec (ended s))
  unfolding on_handshake
  on_handshake-Counted (some ec) s w c =
      fail-Counted ec _ (ended s) (ended-Counted s (ap waits w) c)
  on_handshake-Counted none s w c =
      let running : waits s.stage ≡ 1 = ap waits w in
      record {
        balance = ground (arith, c.balance, running);
        follows = subst (λ p. Follows p (opens s.calls)) w c.follows;
        ordered = c.ordered;
        sorted = c.sorted;
      }

  on_accept-Counted :
      (ec : Option Error) (s : WebsocketSession D Bytes Error)
      → s.stage ≡ accepting
      → Counted 0 s
      → Counted 0 (on_accept E ec (ended s))
  unfolding on_accept do_read
  on_accept-Counted (some ec) s w c = fail-Counted ec _ (ended s) (ended-Counted s (ap waits w) c)
  on_accept-Counted none s w c =
      let running : waits s.stage ≡ 1 = ap waits w in
      let unopened : opens s.calls ≡ 0 = subst (λ p. Follows p (opens s.calls)) w c.follows in
      record {
        balance = ground (arith, c.balance, running);
        follows = ap suc unopened;
        ordered = (unopened, c.ordered);
        sorted = c.sorted;
      }

  on_read-Counted :
      (r : Bytes ⊎ Error) (s : WebsocketSession D Bytes Error)
      → s.stage ≡ reading
      → Counted 0 s
      → Counted 0 (on_read E r (ended s))
  unfolding on_read do_read
  on_read-Counted (inr ec) s w c = fail-Counted ec _ (ended s) (ended-Counted s (ap waits w) c)
  on_read-Counted (inl bytes) s w c =
      let running : waits s.stage ≡ 1 = ap waits w in
      let opened : opens s.calls ≡ 1 = subst (λ p. Follows p (opens s.calls)) w c.follows in
      record {
        balance = ground (arith, c.balance, running);
        follows = opened;
        ordered = (opened, c.ordered);
        sorted = c.sorted;
      }

  -- What leaves the calls and the stage as they are, and adds no failure.
  kept-Counted :
      (s : WebsocketSession D Bytes Error) (q : Session D Error) (posts : List D) (is_text : Bool)
      (closings : ℕ)
      → s.out.failures ≡ q.failures
      → Counted 0 s
      → Counted 0 (record s { out = q; posts = posts; is_text = is_text; closings = closings })
  kept-Counted s q posts is_text closings e c = record {
    balance = ground (arith, c.balance, e);
    follows = c.follows;
    ordered = c.ordered;
    sorted = c.sorted;
  }

  Lives-Counted : {ds : List D} {s : WebsocketSession D Bytes Error} → Lives E ds s → Counted 0 s
  unfolding write set_text close closed run_request on_run
  Lives-Counted (ran ssl) = on_run-Counted ssl
  Lives-Counted upgraded = on_run-Counted false
  Lives-Counted (shaken {ds} {s} ec l w) = on_handshake-Counted ec s w (Lives-Counted l)
  Lives-Counted (accepted {ds} {s} ec l w) = on_accept-Counted ec s w (Lives-Counted l)
  Lives-Counted (read {ds} {s} r l w) = on_read-Counted r s w (Lives-Counted l)
  Lives-Counted (given {ds} {s} d l) = kept-Counted s s.out _ _ _ refl (Lives-Counted l)
  Lives-Counted (set {ds} {s} b l) = kept-Counted s s.out _ _ _ refl (Lives-Counted l)
  Lives-Counted (written {ds} {rest} {s} {q} d l w e) =
      kept-Counted s q rest _ _
        (writing_keeps s.out.queue s.out.in_flight s.out.sent s.out.failures d q e)
        (Lives-Counted l)
  Lives-Counted (wrote {ds} {s} {q} d l f e) =
      kept-Counted s q _ _ _
        (completed_keeps s.out.queue d s.out.in_flight s.out.sent s.out.failures q e)
        (Lives-Counted l)
  Lives-Counted (broke {ds} {s} {q} d ec l f e) =
      let c = Lives-Counted l in
      fail-Counted ec _ (with_out q s) (record {
        balance = ground (arith, c.balance, broken_adds ec s.out q e);
        follows = c.follows;
        ordered = c.ordered;
        sorted = c.sorted;
      })
  Lives-Counted (asked {ds} {s} l) = kept-Counted s s.out _ _ _ refl (Lives-Counted l)
  Lives-Counted (ended_close {ds} {s} {n} l e) = kept-Counted s s.out _ _ _ refl (Lives-Counted l)

  -- In a session of a user that has run, the calls of on_close_f and on_error_f so far and the
  -- handshake or read that is outstanding are together one more than the failures of the write
  -- queue, and there are at most two such calls; on_close_f is called exactly for the errors that
  -- say that the operation was aborted or that the session is closed.
  pub Lives-reports :
      {ds : List D} {s : WebsocketSession D Bytes Error}
      → Lives E ds s
      → (reports s.calls + waits s.stage ≡ suc (length s.out.failures))
        × (reports s.calls ≤ 2)
        × Sorted E s.calls
  Lives-reports {ds} {s} l =
      let c = Lives-Counted l in
      let few : length s.out.failures ≤ 1 = failures_few ((Lives-Taken E l).1) in
      (ground (arith, c.balance), ground (arith, c.balance, few), c.sorted)

  -- In a session of a user that has run, on_open_f is called at most once, and on_message_f only
  -- behind it.
  pub Lives-Ordered :
      {ds : List D} {s : WebsocketSession D Bytes Error} → Lives E ds s → Ordered s.calls
  Lives-Ordered l = (Lives-Counted l).ordered
