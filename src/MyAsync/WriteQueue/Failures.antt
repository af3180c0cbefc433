-- ===== src/MyAsync/WriteQueue/Failures.antt =====
-- On the failures of the write queue.
use xerock.Base.{◌≡◌, subst, Option, none, some, List, [], ◌∷◌, ◌++◌, length, ◌≤◌, arith}
use xerock.Base.Run.{done}
use xerock.MyAsync.WriteQueue.{
  Session, writing, completed, broken, Reach, opened, posted, wrote, broke,
}
use xerock.MyAsync.WriteQueue.Order.{session, Reach-IsValid, writing_waits, Consistent}

module _ {D Error : Type 0} where
  -- A failure leaves a message in the queue and nothing outstanding.
  abbrev pub Stalled : List D → Option D → List Error → Type 0
  Stalled queue flight [] = Unit
  Stalled [] flight (ec ∷ ecs) = ⊥
  Stalled (d ∷ queue) (some e) (ec ∷ ecs) = ⊥
  Stalled (d ∷ queue) none (ec ∷ []) = Unit
  Stalled (d ∷ queue) none (ec ∷ x ∷ ecs) = ⊥

  abbrev Of : Session D Error → Type 0
  Of s = Stalled s.queue s.in_flight s.failures

  longer :
      (x : D) (queue more : List D) (flight : Option D) (failures : List Error)
      → Stalled (x ∷ queue) flight failures
      → Stalled (x ∷ more) flight failures
  longer x queue more flight [] h = tt
  longer x queue more (some e) (ec ∷ ecs) h = absurd h
  longer x queue more none (ec ∷ []) h = tt
  longer x queue more none (ec ∷ y ∷ ecs) h = absurd h

  writing_stalls :
      (queue : List D) (flight : Option D) (sent : List D) (failures : List Error) (d : D)
      (s' : Session D Error)
      → Stalled queue flight failures
      → writing d (session queue flight sent failures) ≡ done s'
      → Of s'
  unfolding writing
  writing_stalls [] none sent [] d s' h e =
      let same : session (d ∷ []) (some d) sent [] ≡ s' = cc e in subst Of same tt
  writing_stalls [] (some x) sent [] d s' h e = cc e
  writing_stalls [] flight sent (ec ∷ ecs) d s' h e = absurd h
  writing_stalls (x ∷ queue) flight sent failures d s' h e =
      let same : session (x ∷ queue ++ d ∷ []) flight sent failures ≡ s' =
        cc (writing_waits x d queue flight sent failures, e) in
      subst Of same (longer x queue (queue ++ d ∷ []) flight failures h)

  completed_stalls :
      (queue : List D) (d : D) (sent : List D) (failures : List Error) (s' : Session D Error)
      → Stalled queue (some d) failures
      → completed d (session queue (some d) sent failures) ≡ done s'
      → Of s'
  unfolding completed
  completed_stalls [] d sent failures s' h e = cc e
  completed_stalls (x ∷ queue) d sent (ec ∷ ecs) s' h e = absurd h
  completed_stalls (x ∷ []) d sent [] s' h e =
      let same : session [] none (sent ++ d ∷ []) [] ≡ s' = cc e in subst Of same tt
  completed_stalls (x ∷ y ∷ queue) d sent [] s' h e =
      let same : session (y ∷ queue) (some y) (sent ++ d ∷ []) [] ≡ s' = cc e in subst Of same tt

  broken_fails :
      (queue : List D) (d : D) (sent : List D) (failures : List Error) (ec : Error)
      (s' : Session D Error)
      → Stalled queue (some d) failures
      → Consistent queue (some d) failures
      → broken ec (session queue (some d) sent failures) ≡ done s'
      → Of s'
  unfolding broken
  broken_fails [] d sent failures ec s' h c e = absurd c
  broken_fails (x ∷ queue) d sent (x' ∷ ecs) ec s' h c e = absurd h
  broken_fails (x ∷ queue) d sent [] ec s' h c e =
      let same : session (x ∷ queue) none sent (ec ∷ []) ≡ s' = cc e in subst Of same tt

  pub Reach-Stalled : {ds : List D} {s : Session D Error} → Reach ds s → Of s
  unfolding completed broken
  Reach-Stalled opened = tt
  Reach-Stalled (posted {s = s} {s' = s'} d r e) =
      writing_stalls s.queue s.in_flight s.sent s.failures d s' (Reach-Stalled r) e
  Reach-Stalled (wrote {s = s} {s' = s'} d r f e) =
      let h : Stalled s.queue (some d) s.failures =
        subst (λ o. Stalled s.queue o s.failures) f (Reach-Stalled r) in
      completed_stalls s.queue d s.sent s.failures s' h e
  Reach-Stalled (broke {s = s} {s' = s'} d ec r f e) =
      let h : Stalled s.queue (some d) s.failures =
        subst (λ o. Stalled s.queue o s.failures) f (Reach-Stalled r) in
      let c : Consistent s.queue (some d) s.failures =
        subst (λ o. Consistent s.queue o s.failures) f (Reach-IsValid r).consistent in
      broken_fails s.queue d s.sent s.failures ec s' h c e

  few :
      (queue : List D) (flight : Option D) (failures : List Error)
      → Stalled queue flight failures
      → length failures ≤ 1
  few queue flight [] h = omega arith
  few [] flight (ec ∷ ecs) h = absurd h
  few (d ∷ queue) (some e) (ec ∷ ecs) h = absurd h
  few (d ∷ queue) none (ec ∷ []) h = omega arith
  few (d ∷ queue) none (ec ∷ x ∷ ecs) h = absurd h

  -- In a session at most one operation of the write queue fails.
  pub failures_few : {ds : List D} {s : Session D Error} → Reach ds s → length s.failures ≤ 1
  failures_few {s = s} r = few s.queue s.in_flight s.failures (Reach-Stalled r)
