-- ===== src/MyAsync/WriteQueue/Order.antt =====
-- On the messages of the write queue and their order.
use xerock.Base.{
  suc, ◌≡◌, ◌≢◌, refl, ap, sym, subst, ◌∙◌, ltb, true, Option, none, some, List, [], ◌∷◌, ◌++◌,
  arith, length, length-append, append_assoc, append-nil,
}
use xerock.Base.Run.{Run, done, abort}
use xerock.MyAsync.WriteQueue.{
  Session, writing, completed, broken, Reach, opened, posted, wrote, broke,
}

appended {ℓ} :
    {D : Type ℓ} (ds sent : List D) (x d : D) (queue : List D)
    → sent ++ x ∷ queue ≡ ds
    → sent ++ (x ∷ queue ++ d ∷ []) ≡ ds ++ d ∷ []
appended ds sent x d queue e =
    sym (append_assoc sent (x ∷ queue) (d ∷ [])) ∙ ap (λ l. l ++ d ∷ []) e

module _ {D Error : Type 0} where
  -- The outstanding operation is on the head of the queue; one is outstanding unless the queue is
  -- empty or an operation failed.
  abbrev pub Consistent : List D → Option D → List Error → Type 0
  Consistent [] none failures = Unit
  Consistent [] (some e) failures = ⊥
  Consistent (d ∷ queue) none [] = ⊥
  Consistent (d ∷ queue) none (ec ∷ failures) = Unit
  Consistent (d ∷ queue) (some e) failures = e ≡ d

  pub record IsValid (ds : List D) (s : Session D Error) : Type 0 where
    pub consistent : Consistent s.queue s.in_flight s.failures
    pub in_order : s.sent ++ s.queue ≡ ds

  abbrev pub Ends : List D → Run (Session D Error) → Type 0
  Ends ds m = (s : Session D Error) × (m ≡ done s) × IsValid ds s

  abbrev pub session : List D → Option D → List D → List Error → Session D Error
  session queue flight sent failures = record {
    queue = queue;
    in_flight = flight;
    sent = sent;
    failures = failures;
  }

  pub writing_waits :
      (x d : D) (queue : List D) (flight : Option D) (sent : List D) (failures : List Error)
      → writing d (session (x ∷ queue) flight sent failures)
        ≡ done (session (x ∷ queue ++ d ∷ []) flight sent failures)
  unfolding writing
  writing_waits x d queue flight sent failures =
      let long : ltb 1 (suc (length (queue ++ d ∷ []))) ≡ true =
        ground (arith, length-append queue (d ∷ [])) in
      rw long

  writing_at :
      (ds queue : List D) (flight : Option D) (sent : List D) (failures : List Error) (d : D)
      → IsValid ds (session queue flight sent failures)
      → Ends (ds ++ d ∷ []) (writing d (session queue flight sent failures))
  unfolding writing
  writing_at ds [] none sent failures d v = (
    session (d ∷ []) (some d) sent failures,
    refl,
    record {
      consistent = refl;
      in_order = ap (λ l. l ++ d ∷ []) (sym (append-nil sent) ∙ v.in_order);
    },
  )
  writing_at ds [] (some e) sent failures d v = absurd v.consistent
  writing_at ds (x ∷ queue) none sent [] d v = absurd v.consistent
  writing_at ds (x ∷ queue) none sent (ec ∷ failures) d v = (
    session (x ∷ queue ++ d ∷ []) none sent (ec ∷ failures),
    writing_waits x d queue none sent (ec ∷ failures),
    record { consistent = tt; in_order = appended ds sent x d queue v.in_order },
  )
  writing_at ds (x ∷ queue) (some e) sent failures d v = (
    session (x ∷ queue ++ d ∷ []) (some e) sent failures,
    writing_waits x d queue (some e) sent failures,
    record { consistent = v.consistent; in_order = appended ds sent x d queue v.in_order },
  )

  completed_at :
      (ds queue sent : List D) (failures : List Error) (d : D)
      → IsValid ds (session queue (some d) sent failures)
      → Ends ds (completed d (session queue (some d) sent failures))
  unfolding completed
  completed_at ds [] sent failures d v = absurd v.consistent
  completed_at ds (x ∷ []) sent failures d v = (
    session [] none (sent ++ d ∷ []) failures,
    refl,
    record { consistent = tt; in_order = append-nil (sent ++ d ∷ []) ∙ rw v.consistent v.in_order },
  )
  completed_at ds (x ∷ y ∷ queue) sent failures d v = (
    session (y ∷ queue) (some y) (sent ++ d ∷ []) failures,
    refl,
    record {
      consistent = refl;
      in_order = append_assoc sent (d ∷ []) (y ∷ queue) ∙ rw v.consistent v.in_order;
    },
  )

  broken_at :
      (queue : List D) (failures : List Error) (ec : Error)
      → Consistent queue none (failures ++ ec ∷ [])
  broken_at [] failures ec = tt
  broken_at (x ∷ queue) [] ec = tt
  broken_at (x ∷ queue) (e ∷ failures) ec = tt

  -- Every event that can happen ends without a fault, and keeps the invariant.
  pub writing-IsValid :
      (ds : List D) (s : Session D Error) (d : D) → IsValid ds s → Ends (ds ++ d ∷ []) (writing d s)
  writing-IsValid ds s d v = writing_at ds s.queue s.in_flight s.sent s.failures d v

  pub completed-IsValid :
      (ds : List D) (s : Session D Error) (d : D)
      → IsValid ds s
      → s.in_flight ≡ some d
      → Ends ds (completed d s)
  unfolding completed
  completed-IsValid ds s d v e = completed_at ds s.queue s.sent s.failures d (record {
    consistent = subst (λ f. Consistent s.queue f s.failures) e v.consistent;
    in_order = v.in_order;
  })

  pub broken-IsValid :
      (ds : List D) (s : Session D Error) (ec : Error) → IsValid ds s → Ends ds (broken ec s)
  unfolding broken
  broken-IsValid ds s ec v = (
    session s.queue none s.sent (s.failures ++ ec ∷ []),
    refl,
    record { consistent = broken_at s.queue s.failures ec; in_order = v.in_order },
  )

  keep :
      {ds : List D} {s : Session D Error} {m : Run (Session D Error)}
      → Ends ds m
      → m ≡ done s
      → IsValid ds s
  keep {ds} (s', e', v) e = subst (IsValid ds) (cc) v

  -- In a session with any history of posts and of completions, with or without an error, the
  -- outstanding operation is on the head of the queue, none is missing unless the queue is empty
  -- or an operation failed, and the messages written and those in the queue are, in order, the
  -- messages posted.
  pub Reach-IsValid : {ds : List D} {s : Session D Error} → Reach ds s → IsValid ds s
  Reach-IsValid opened = record { consistent = tt; in_order = refl }
  Reach-IsValid (posted d r e) = keep (writing-IsValid _ _ d (Reach-IsValid r)) e
  Reach-IsValid (wrote d r f e) = keep (completed-IsValid _ _ d (Reach-IsValid r) f) e
  Reach-IsValid (broke d ec r f e) = keep (broken-IsValid _ _ ec (Reach-IsValid r)) e

  -- In such a session no handler faults: a post, and the completion of the outstanding operation
  -- with or without an error, never read an empty queue or start a second operation.
  pub Reach_never_aborts :
      {ds : List D} {s : Session D Error}
      → Reach ds s
      → ((d : D) → writing d s ≢ abort)
        × ((d : D) → s.in_flight ≡ some d → completed d s ≢ abort)
        × ((ec : Error) → broken ec s ≢ abort)
  Reach_never_aborts r =
      let v = Reach-IsValid r in
      (
        (λ d h. cc ((writing-IsValid _ _ d v).1, h)),
        (λ d f h. cc ((completed-IsValid _ _ d v f).1, h)),
        (λ ec h. cc ((broken-IsValid _ _ ec v).1, h)),
      )
