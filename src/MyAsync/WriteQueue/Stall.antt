-- ===== src/MyAsync/WriteQueue/Stall.antt =====
-- On the progress of the write queue.
use xerock.Base.{
  ℕ, zero, suc, ◌≡◌, refl, ap, subst, ◌∙◌, Option, none, some, List, [], ◌∷◌, ◌++◌, length,
  append-nil, append_assoc,
}
use xerock.Base.Run.{Run, done, ◌>>=◌}
use xerock.MyAsync.WriteQueue.{Session, writing, completed, broken, Reach}
use xerock.MyAsync.WriteQueue.Order.{session, Reach-IsValid, writing_waits, Consistent}

module _ {D Error : Type 0} where
  -- n completions without an error, each of the operation then outstanding.
  abbrev pub complete : ℕ → Session D Error → Run (Session D Error)
  complete zero s = done s
  complete (suc n) s = elim s.in_flight [ none ↦ done s | some d ↦ completed d s >>= complete n ]

  complete_at :
      (x : D) (queue sent : List D) (failures : List Error)
      → complete (suc (length queue)) (session (x ∷ queue) (some x) sent failures)
        ≡ done (session [] none (sent ++ x ∷ queue) failures)
  unfolding completed
  complete_at x [] sent failures = refl
  complete_at x (y ∷ queue) sent failures =
      complete_at y queue (sent ++ x ∷ []) failures
      ∙ ap (λ l. done (session [] none l failures)) (append_assoc sent (x ∷ []) (y ∷ queue))

  complete_from :
      (queue : List D) (flight : Option D) (sent : List D) (failures : List Error) (ds : List D)
      → Consistent queue flight failures
      → failures ≡ []
      → sent ++ queue ≡ ds
      → complete (length queue) (session queue flight sent failures) ≡ done (session [] none ds [])
  complete_from [] none sent failures ds c h e = rw (h, ← e, append-nil sent)
  complete_from [] (some d) sent failures ds c h e = absurd c
  complete_from (x ∷ queue) none sent [] ds c h e = absurd c
  complete_from (x ∷ queue) none sent (ec ∷ failures) ds c h e = cc
  complete_from (x ∷ queue) (some d) sent failures ds c h e =
      rw (c, h, ← e) (complete_at x queue sent [])

  -- In a session without a failure, as many completions as the queue is long write every message
  -- that was posted, in order, and leave the queue empty and nothing outstanding.
  pub complete_sends_all :
      {ds : List D} {s : Session D Error}
      → Reach ds s
      → s.failures ≡ []
      → complete (length s.queue) s ≡ done (session [] none ds [])
  complete_sends_all {ds} {s} r h =
      let v = Reach-IsValid r in
      complete_from s.queue s.in_flight s.sent s.failures ds v.consistent h v.in_order

  abbrev pub post_all : List D → Session D Error → Run (Session D Error)
  post_all [] s = done s
  post_all (d ∷ ds) s = writing d s >>= post_all ds

  post_all_at :
      (ds : List D) (x : D) (queue sent : List D) (failures : List Error)
      → post_all ds (session (x ∷ queue) none sent failures)
        ≡ done (session (x ∷ queue ++ ds) none sent failures)
  post_all_at [] x queue sent failures = rw (append-nil queue)
  post_all_at (d ∷ ds) x queue sent failures = rw (writing_waits x d queue none sent failures) (
      post_all_at ds x (queue ++ d ∷ []) sent failures
      ∙ ap (λ l. done (session (x ∷ l) none sent failures)) (append_assoc queue (d ∷ []) ds))

  post_all_from :
      (queue : List D) (d : D) (sent : List D) (before failures : List Error) (more : List D)
      → Consistent queue (some d) before
      → post_all more (session queue none sent failures)
        ≡ done (session (queue ++ more) none sent failures)
  post_all_from [] d sent before failures more c = absurd c
  post_all_from (x ∷ queue) d sent before failures more c = post_all_at more x queue sent failures

  -- Once the outstanding operation fails, whatever is posted afterwards is only queued: no
  -- operation is ever outstanding again, and nothing more is written.
  pub broken_stalls :
      {ds : List D} {s s' : Session D Error} (d : D) (ec : Error) (more : List D)
      → Reach ds s
      → s.in_flight ≡ some d
      → broken ec s ≡ done s'
      → post_all more s'
        ≡ done (record s' { queue = s.queue ++ more; in_flight = none; sent = s.sent })
  unfolding broken
  broken_stalls {ds} {s} {s'} d ec more r f e =
      let v = Reach-IsValid r in
      let c = subst (λ o. Consistent s.queue o s.failures) f v.consistent in
      let same : session s.queue none s.sent (s.failures ++ ec ∷ []) ≡ s' = cc e in
      subst
        (λ t.
          post_all more t
          ≡ done (record t { queue = s.queue ++ more; in_flight = none; sent = s.sent }))
        same (post_all_from s.queue d s.sent s.failures (s.failures ++ ec ∷ []) more c)
