-- ===== src/Apps/Monitor/Timer.antt =====
-- On the timer of the monitor.
use xerock.Base.{
  ℕ, ◌≡◌, refl, Bool, true, false, ◌⊎◌, inl, inr, List, [], ◌∷◌, ◌++◌, All, if_lem, if_cases, subst,
  sym,
}
use xerock.Base.Int.{ℤ}
use xerock.Apps.Monitor.Executor.{
  internal_error, Executor, Start, Expiry, Event, set, cancelled, expired, calculate, continuos,
  set_sample, init, cancel, do_wait, end_wait, step, run,
}

-- Nothing runs and no wait is outstanding, or the executor runs and one is.
abbrev pub IsSound : Executor → Type 0
IsSound s = ((s.is_running ≡ false) × (s.waits ≡ 0)) ⊎ ((s.is_running ≡ true) × (s.waits ≡ 1))

-- It is taken to run, and no wait will go on with it.
abbrev pub IsHung : Executor → Type 0
IsHung s = (s.is_running ≡ true) × (s.waits ≡ 0)

calculate-IsSound :
    (start : Start) (s : Executor) → s.is_running ≡ true → s.waits ≡ 0 → IsSound (calculate start s)
unfolding calculate
calculate-IsSound start s r w =
    if_lem IsSound start.info (if_lem IsSound start.uptime (inr (r, cc w)) (inl (refl, w)))
      (inl (refl, w))

init-IsSound : (start : Start) (s : Executor) → IsSound s → IsSound (init start s)
unfolding init
init-IsSound start s h = if_cases IsSound s.is_running (λ _. h) λ idle. begin h idle
  where
    begin :
        IsSound s
        → s.is_running ≡ false
        → IsSound (calculate start (record s { is_running = true }))
    begin (inl (r, w)) idle = calculate-IsSound start (record s { is_running = true }) refl w
    begin (inr (r, w)) idle = cc (r, idle)

-- Where the reading at the end of the wait does not fail.
do_wait-IsSound :
    (x : Expiry) (s : Executor)
    → (x.failed ≡ false → x.info ≡ true)
    → s.is_running ≡ true
    → s.waits ≡ 0
    → IsSound (do_wait x s)
unfolding do_wait
do_wait-IsSound x s fine r w =
    if_cases IsSound x.failed (λ _. inl (refl, w))
      λ on.
        if_cases IsSound x.info
          (λ _.
            if_lem IsSound x.has_users
              (if_lem IsSound s.keep_reading (calculate-IsSound x.start _ r w) (inl (refl, w)))
              (inl (refl, w)))
          λ bad. cc (fine on, bad)

-- The wait ends in a sound state, or it hangs.
do_wait-cases :
    (x : Expiry) (s : Executor)
    → s.is_running ≡ true
    → s.waits ≡ 0
    → IsSound (do_wait x s) ⊎ IsHung (do_wait x s)
unfolding do_wait
do_wait-cases x s r w = if_lem P x.failed (inl (inl (refl, w))) (
    if_lem P x.info
      (if_lem P x.has_users
        (if_lem P s.keep_reading (inl (calculate-IsSound x.start _ r w)) (inl (inl (refl, w))))
        (inl (inl (refl, w))))
      (inr (r, w)))
  where
    P : Executor → Type 0
    P q = IsSound q ⊎ IsHung q

-- A wait that is not there does not end.
end_wait-none : (x : Expiry) (n : ℕ) (s : Executor) → n ≡ 0 → end_wait x n s ≡ s
end_wait-none x n s w = rw (w) refl

end_wait-one :
    (x : Expiry) (n : ℕ) (s : Executor)
    → n ≡ 1
    → end_wait x n s ≡ do_wait x (record s { waits = 0 })
end_wait-one x n s w = rw (w) refl

cancel-IsSound : (s : Executor) → IsSound s → IsSound (cancel (continuos false s))
unfolding cancel continuos
cancel-IsSound s h = h

-- The readings at the end of a wait succeed.
abbrev pub IsRead : Event → Type 0
IsRead (set samp cont start) = Unit
IsRead cancelled = Unit
IsRead (expired x) = x.failed ≡ false → x.info ≡ true

step-IsSound : (e : Event) (s : Executor) → IsRead e → IsSound s → IsSound (step e s)
unfolding step continuos set_sample
step-IsSound (set samp cont start) s fine h = init-IsSound start _ h
step-IsSound cancelled s fine h = cancel-IsSound s h
step-IsSound (expired x) s fine (inl (r, w)) =
    subst IsSound (sym (end_wait-none x s.waits s w)) (inl (r, w))
step-IsSound (expired x) s fine (inr (r, w)) =
    subst IsSound (sym (end_wait-one x s.waits s w)) (do_wait-IsSound x _ fine r refl)

-- While the readings at the end of a wait succeed, whatever the readings at its start and the commands
-- are, the executor runs exactly while one wait is outstanding, and there are never two.
pub run-IsSound : (es : List Event) (s : Executor) → All IsRead es → IsSound s → IsSound (run es s)
run-IsSound [] s fine h = h
run-IsSound (e ∷ es) s (fine, rest) h = run-IsSound es (step e s) rest (step-IsSound e s fine h)

set-IsHung :
    (samp : ℤ) (cont : Bool) (start : Start) (s : Executor)
    → IsHung s
    → IsHung (init start (set_sample samp (continuos cont s)))
      × ((init start (set_sample samp (continuos cont s))).sent ≡ s.sent)
unfolding init set_sample continuos
set-IsHung samp cont start s (r, w) = rw (r) ((refl, w), refl)

step-IsHung : (e : Event) (s : Executor) → IsHung s → IsHung (step e s) × ((step e s).sent ≡ s.sent)
unfolding step continuos cancel
step-IsHung (set samp cont start) s h = set-IsHung samp cont start s h
step-IsHung cancelled s h = (h, refl)
step-IsHung (expired x) s (r, w) =
    subst (λ q. IsHung q × (q.sent ≡ s.sent)) (sym (end_wait-none x s.waits s w)) ((r, w), refl)

run-IsHung :
    (es : List Event) (s : Executor) → IsHung s → IsHung (run es s) × ((run es s).sent ≡ s.sent)
run-IsHung [] s h = (h, refl)
run-IsHung (e ∷ es) s h =
    let now = step-IsHung e s h in
    let later = run-IsHung es (step e s) now.0 in (later.0, cc (later.1, now.1))

do_wait-fails :
    (x : Expiry) (s : Executor)
    → s.is_running ≡ true
    → s.waits ≡ 0
    → x.failed ≡ false
    → x.info ≡ false
    → IsHung (do_wait x s) × ((do_wait x s).sent ≡ s.sent ++ internal_error ∷ [])
unfolding do_wait
do_wait-fails x s r w on bad = rw (on, bad) ((r, w), refl)

-- A wait of a running executor that ends without an error, and the reading behind it fails: the
-- failure is reported, and from there no command and no event makes the executor report again. It
-- is taken to run for ever.
pub expired-hangs :
    (x : Expiry) (es : List Event) (s : Executor)
    → s.is_running ≡ true
    → s.waits ≡ 1
    → x.failed ≡ false
    → x.info ≡ false
    → IsHung (run (expired x ∷ es) s)
      × ((run (expired x ∷ es) s).sent ≡ s.sent ++ internal_error ∷ [])
unfolding step
expired-hangs x es s r w on bad = after
  where
    first :
        IsHung (step (expired x) s) × ((step (expired x) s).sent ≡ s.sent ++ internal_error ∷ [])
    first =
        subst (λ q. IsHung q × (q.sent ≡ s.sent ++ internal_error ∷ []))
          (sym (end_wait-one x s.waits s w))
          (do_wait-fails x (record s { waits = 0 }) r refl on bad)

    after :
        IsHung (run (expired x ∷ es) s)
        × ((run (expired x ∷ es) s).sent ≡ s.sent ++ internal_error ∷ [])
    after =
        let later = run-IsHung es (step (expired x) s) first.0 in (later.0, cc (later.1, first.1))

step-cases : (e : Event) (s : Executor) → IsSound s → IsSound (step e s) ⊎ IsHung (step e s)
unfolding step continuos set_sample
step-cases (set samp cont start) s h = inl (init-IsSound start _ h)
step-cases cancelled s h = inl (cancel-IsSound s h)
step-cases (expired x) s (inl (r, w)) =
    inl (subst IsSound (sym (end_wait-none x s.waits s w)) (inl (r, w)))
step-cases (expired x) s (inr (r, w)) =
    subst (λ q. IsSound q ⊎ IsHung q) (sym (end_wait-one x s.waits s w))
      (do_wait-cases x (record s { waits = 0 }) r refl)

-- Whatever happens to a sound executor, it is sound or it hangs afterwards: two waits for the timer
-- are never outstanding at a time.
pub run-cases :
    (es : List Event) (s : Executor) → IsSound s → IsSound (run es s) ⊎ IsHung (run es s)
run-cases [] s h = inl h
run-cases (e ∷ es) s h = go (λ ok. run-cases es (step e s) ok) (step-cases e s h)
  where
    go :
        (IsSound (step e s) → IsSound (run (e ∷ es) s) ⊎ IsHung (run (e ∷ es) s))
        → IsSound (step e s) ⊎ IsHung (step e s)
        → IsSound (run (e ∷ es) s) ⊎ IsHung (run (e ∷ es) s)
    go rest (inl ok) = rest ok
    go rest (inr hung) = inr (run-IsHung es (step e s) hung).0
