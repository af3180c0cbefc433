-- ===== src/MyAsync/WebsocketSession/Sent.antt =====
-- On the messages that are given to a session of a user.
use xerock.Base.{
  ◌≡◌, refl, ap, sym, ◌∙◌, Bool, true, false, ◌⊎◌, inl, inr, Option, none, some, List, [], ◌∷◌,
  ◌++◌, append_assoc, if_lem, ◌||◌, Text,
}
use xerock.Base.Run.{done}
use xerock.MyAsync.WriteQueue as Queue
use xerock.MyAsync.WriteQueue.{Session, writing, completed, broken}
use xerock.MyAsync.WriteQueue.Order.{writing-IsValid, completed-IsValid, Reach-IsValid}
use xerock.MyAsync.WebsocketSession.{
  Endings, WebsocketSession, created, ended, with_out, on_run, run_request, on_handshake, on_accept,
  on_read, do_read, fail, set_text, write, close, closed, Lives, ran, upgraded, shaken, accepted,
  read, given, set, written, wrote, broke, asked, ended_close,
}

module _ {D Bytes Error : Type 0} (E : Endings Error) where
  -- The write queue was given a part of the messages, and the rest is posted.
  abbrev pub Taken : List D → WebsocketSession D Bytes Error → Type 0
  Taken ds s = (ts : List D) × Queue.Reach ts s.out × (ts ++ s.posts ≡ ds)

  fail-Taken :
      (ds : List D) (ec : Error) (what : Text) (s : WebsocketSession D Bytes Error)
      → Taken ds s
      → Taken ds (fail E ec what s)
  unfolding fail
  fail-Taken ds ec what s t = if_lem (Taken ds) (E.is_aborted ec || E.is_closed ec) t t

  on_run-Taken :
      (ssl : Bool) (s : WebsocketSession D Bytes Error) → Taken [] s → Taken [] (on_run ssl s)
  unfolding on_run
  on_run-Taken true s t = t
  on_run-Taken false s t = t

  on_handshake-Taken :
      (ds : List D) (ec : Option Error) (s : WebsocketSession D Bytes Error)
      → Taken ds s
      → Taken ds (on_handshake E ec (ended s))
  unfolding on_handshake
  on_handshake-Taken ds (some ec) s t = fail-Taken ds ec _ (ended s) t
  on_handshake-Taken ds none s t = t

  on_accept-Taken :
      (ds : List D) (ec : Option Error) (s : WebsocketSession D Bytes Error)
      → Taken ds s
      → Taken ds (on_accept E ec (ended s))
  unfolding on_accept do_read
  on_accept-Taken ds (some ec) s t = fail-Taken ds ec _ (ended s) t
  on_accept-Taken ds none s t = t

  on_read-Taken :
      (ds : List D) (r : Bytes ⊎ Error) (s : WebsocketSession D Bytes Error)
      → Taken ds s
      → Taken ds (on_read E r (ended s))
  unfolding on_read do_read
  on_read-Taken ds (inr ec) s t = fail-Taken ds ec _ (ended s) t
  on_read-Taken ds (inl bytes) s t = t

  pub Lives-Taken : {ds : List D} {s : WebsocketSession D Bytes Error} → Lives E ds s → Taken ds s
  unfolding write set_text close closed run_request
  Lives-Taken (ran ssl) = on_run-Taken ssl created ([], Queue.opened, refl)
  Lives-Taken upgraded = ([], Queue.opened, refl)
  Lives-Taken (shaken {ds} {s} ec l w) = on_handshake-Taken ds ec s (Lives-Taken l)
  Lives-Taken (accepted {ds} {s} ec l w) = on_accept-Taken ds ec s (Lives-Taken l)
  Lives-Taken (read {ds} {s} r l w) = on_read-Taken ds r s (Lives-Taken l)
  Lives-Taken (given {ds} {s} d l) =
      let (ts, r, e) = Lives-Taken l in
      (ts, r, sym (append_assoc ts s.posts (d ∷ [])) ∙ ap (λ xs. xs ++ d ∷ []) e)
  Lives-Taken (set {ds} {s} b l) = Lives-Taken l
  Lives-Taken (written {ds} {rest} {s} {q} d l w e) =
      let (ts, r, h) = Lives-Taken l in
      (
        ts ++ d ∷ [],
        Queue.posted d r e,
        append_assoc ts (d ∷ []) rest ∙ ap (λ xs. ts ++ xs) (sym w) ∙ h,
      )
  Lives-Taken (wrote {ds} {s} {q} d l f e) =
      let (ts, r, h) = Lives-Taken l in (ts, Queue.wrote d r f e, h)
  Lives-Taken (broke {ds} {s} {q} d ec l f e) =
      let (ts, r, h) = Lives-Taken l in
      fail-Taken ds ec _ (with_out q s) (ts, Queue.broke d ec r f e, h)
  Lives-Taken (asked {ds} {s} l) = Lives-Taken l
  Lives-Taken (ended_close {ds} {s} {n} l e) = Lives-Taken l

  -- In a session of a user that has run, the messages sent, then those in the write queue, then
  -- those for which `writing` is posted are the messages given to it, in their order; and no
  -- `writing` and no completion of the outstanding operation reads the front of an empty queue or
  -- starts a second operation.
  pub Lives_sends_in_order :
      {ds : List D} {s : WebsocketSession D Bytes Error}
      → Lives E ds s
      → ((s.out.sent ++ s.out.queue) ++ s.posts ≡ ds)
        × ((d : D) → (q : Session D Error) × (writing d s.out ≡ done q))
        × ((d : D)
            → s.out.in_flight ≡ some d
            → (q : Session D Error) × (completed d s.out ≡ done q))
  Lives_sends_in_order {ds} {s} l =
      let (ts, r, e) = Lives-Taken l in
      let v = Reach-IsValid r in
      (
        ap (λ xs. xs ++ s.posts) v.in_order ∙ e,
        λ d. let (q, h, k) = writing-IsValid ts s.out d v in (q, h),
        λ d f. let (q, h, k) = completed-IsValid ts s.out d v f in (q, h),
      )
