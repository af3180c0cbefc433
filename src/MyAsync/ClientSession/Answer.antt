-- ===== src/MyAsync/ClientSession/Answer.antt =====
-- On the callback that is given to `open` of a client.
use xerock.Base.{
  if_lem, ℕ, suc, ◌+◌, ◌⊎◌, inl, inr, ◌≡◌, refl, ap, Bool, true, false, ◌||◌, ◌&&◌, Option, none,
  some, List, [], ◌∷◌, Text, arith,
}
use xerock.MyAsync.ServerSession.{Stream}
use xerock.MyAsync.ClientSession.{
  Kinds, Call, called_back, called_open, called_read, called_error, called_close, Pending, nothing,
  connecting, shaking, reading, ClientSession, call, with_out, ended, open_cb, do_read, close,
  closing, fail, on_handshake_cb, connected, opened_cb, on_read, Reach, asked_open, met, shaken,
  read, written, wrote, broke, asked, closed,
}

module _ {Bytes Error : Type 0} where
  abbrev pub answers : List (Call Bytes Error) → ℕ
  answers [] = 0
  answers (called_back e ∷ cs) = suc (answers cs)
  answers (called_open ∷ cs) = answers cs
  answers (called_read b ∷ cs) = answers cs
  answers (called_error ec what ∷ cs) = answers cs
  answers (called_close ec ∷ cs) = answers cs

  -- on_open comes only where the callback has been told of no error; the last call stands first.
  abbrev pub Announced : List (Call Bytes Error) → Type 0
  Announced [] = Unit
  Announced (called_back e ∷ cs) = (answers cs ≡ 0) × Announced cs
  Announced (called_open ∷ []) = ⊥
  Announced (called_open ∷ c ∷ cs) = (c ≡ called_back none) × Announced (c ∷ cs)
  Announced (called_read b ∷ cs) = (answers cs ≡ 1) × Announced cs
  Announced (called_error ec what ∷ cs) = Announced cs
  Announced (called_close ec ∷ cs) = Announced cs

-- The attempt to connect is not over.
abbrev pub unanswered : Pending → ℕ
unanswered nothing = 0
unanswered connecting = 1
unanswered shaking = 1
unanswered reading = 0

module _ {D Bytes Error Socket : Type 0} where
  record Answered (s : ClientSession D Bytes Error Socket) : Type 0 where
    once : answers s.calls + unanswered s.pending ≡ 1
    announced : Announced s.calls

module _ {D Bytes Error Socket : Type 0} (K : Kinds Error) (ssl : Bool) where
  fail-Answered :
      (ec : Error) (what : Text) (s : ClientSession D Bytes Error Socket)
      → Answered s
      → Answered (fail K ssl ec what s)
  unfolding fail close
  fail-Answered ec what s a =
      let quiet : Answered (call (called_close ec) s) = record {
        once = a.once;
        announced = a.announced;
      } in
      let told : Answered (call (called_error ec what) s) = record {
        once = a.once;
        announced = a.announced;
      } in
      let over : Answered (close (call (called_close ec) (call (called_error ec what) s))) =
        record { once = a.once; announced = a.announced } in
      if_lem Answered (K.is_aborted ec || K.is_eof ec) quiet (
        if_lem Answered (ssl && K.is_truncated ec) quiet
          (if_lem Answered (K.is_refused ec) told over))

  -- The end of the attempt, where the callback has not been called.
  back-Answered :
      (e : Option Error) (s : ClientSession D Bytes Error Socket)
      → answers s.calls ≡ 0
      → Announced s.calls
      → Answered (call (called_back e) (ended s))
  back-Answered e s z a = record { once = omega (arith, z); announced = (z, a) }

  unanswered_yet :
      (s : ClientSession D Bytes Error Socket)
      → unanswered s.pending ≡ 1
      → Answered s
      → answers s.calls ≡ 0
  unanswered_yet s p a = ground (arith, a.once, p)

  on_handshake_cb-Answered :
      (e : Option Error) (s : ClientSession D Bytes Error Socket)
      → unanswered s.pending ≡ 1
      → Answered s
      → Answered (on_handshake_cb K ssl e (ended s))
  unfolding on_handshake_cb do_read
  on_handshake_cb-Answered (some ec) s p a =
      fail-Answered ec _ _ (back-Answered (some ec) s (unanswered_yet s p a) a.announced)
  on_handshake_cb-Answered none s p a =
      let z : answers s.calls ≡ 0 = unanswered_yet s p a in
      record { once = omega (arith, z); announced = (refl, (z, a.announced)) }

  connected-Answered :
      (with_ssl : Bool) (s : ClientSession D Bytes Error Socket)
      → answers s.calls ≡ 0
      → Announced s.calls
      → Answered (connected with_ssl (ended s))
  unfolding connected do_read
  connected-Answered true s z a = record { once = omega (arith, z); announced = a }
  connected-Answered false s z a = record { once = omega (arith, z); announced = (refl, (z, a)) }

  opened_cb-Answered :
      (e : Option Error) (s : ClientSession D Bytes Error Socket)
      → unanswered s.pending ≡ 1
      → Answered s
      → Answered (opened_cb K ssl e (ended s))
  unfolding opened_cb
  opened_cb-Answered (some ec) s p a =
      fail-Answered ec _ _ (back-Answered (some ec) s (unanswered_yet s p a) a.announced)
  opened_cb-Answered none s p a = connected-Answered ssl s (unanswered_yet s p a) a.announced

  on_read-Answered :
      (r : Bytes ⊎ Error) (s : ClientSession D Bytes Error Socket)
      → unanswered s.pending ≡ 0
      → Answered s
      → Answered (on_read K ssl r (ended s))
  unfolding on_read do_read
  on_read-Answered (inr ec) s p a =
      fail-Answered ec _ (ended s)
        (record { once = ground (arith, a.once, p); announced = a.announced })
  on_read-Answered (inl bytes) s p a =
      let told : answers s.calls ≡ 1 = ground (arith, a.once, p) in
      record { once = omega (arith, told); announced = (told, a.announced) }

  Reach-Answered :
      {T : Stream Socket Error} {s : ClientSession D Bytes Error Socket}
      → Reach K ssl T s
      → Answered s
  unfolding open_cb close closing
  Reach-Answered (asked_open socket) = record { once = refl; announced = tt }
  Reach-Answered (met {s} ec r w) = opened_cb-Answered ec s (ap unanswered w) (Reach-Answered r)
  Reach-Answered (shaken {s} ec r w) =
      on_handshake_cb-Answered ec s (ap unanswered w) (Reach-Answered r)
  Reach-Answered (read {s} b r w) = on_read-Answered b s (ap unanswered w) (Reach-Answered r)
  Reach-Answered (written {s} {q} d r e) =
      let a = Reach-Answered r in record { once = a.once; announced = a.announced }
  Reach-Answered (wrote {s} {q} d r f e) =
      let a = Reach-Answered r in record { once = a.once; announced = a.announced }
  Reach-Answered (broke {s} {q} d ec r f e) =
      let a = Reach-Answered r in
      fail-Answered ec _ (with_out q s) (record { once = a.once; announced = a.announced })
  Reach-Answered (asked {s} r) =
      let a = Reach-Answered r in record { once = a.once; announced = a.announced }
  Reach-Answered (closed {s} {n} r e) =
      let a = Reach-Answered r in record { once = a.once; announced = a.announced }

  -- The callback given to `open` of a tcp client has been called once, or it has not been called and
  -- the connection or the handshake is outstanding; on_open is called directly behind a callback
  -- that was told of no error, and the read handler only behind the callback.
  pub Reach-answers :
      {T : Stream Socket Error} {s : ClientSession D Bytes Error Socket}
      → Reach K ssl T s
      → (answers s.calls + unanswered s.pending ≡ 1) × Announced s.calls
  Reach-answers r = let a = Reach-Answered r in (a.once, a.announced)
