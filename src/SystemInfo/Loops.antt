-- ===== src/SystemInfo/Loops.antt =====
-- On the loops over /proc/stat.
use xerock.Base.{
  ℕ, suc, ◌≤◌, ◌<◌, ◌≡◌, refl, true, false, Bool-cases, inl, inr, ◌⊎◌, some, none, Option, List, [],
  ◌∷◌, Text, length, codes, arith, text_eq,
}
use xerock.Base.Loop.{Hangs, halting, bounded, stuck-Hangs, Hangs-round, Progress}
use xerock.Istream.{
  Istream, over, good, failing, read_word, read_number, read_unsigned_long, to_unsigned_long,
  ignore,
}
use xerock.Istream.Progress.{weight, weight-ignore, weight-read_word-good, weight-read_number}
use xerock.SystemInfo.Hardware.{
  CpuTime, Cores, HardwareCpuUsage, is_cpu, get_cpu_time, check_name, check_round,
  check_get_cpu_time, add_core, read_round, read_cpu_time,
}

module _ (cpu_name : Text) (time : CpuTime) where
  abbrev Left : Istream → Type 0
  Left s = (r : Option CpuTime) × (check_round cpu_name time s ≡ inr r)

  check_name-cases :
      (name : Text) (s : Istream)
      → ((r : Option CpuTime) × (check_name cpu_name time (name, s) ≡ inr r))
        ⊎ (check_name cpu_name time (name, s) ≡ inl (ignore 10 s))
  unfolding check_name
  check_name-cases name s = elim (Bool-cases (is_cpu name)) [
    | inr h ↦ inl (none, rw h)
    | inl h ↦ elim (Bool-cases (text_eq name cpu_name)) [
      | inl h' ↦ inl (some (get_cpu_time time s).0, rw (h, h'))
      | inr h' ↦ inr (rw (h, h'))
    ]
  ]

  check_round-bad : (s : Istream) → good s ≡ false → Left s
  unfolding check_round check_name read_word
  check_round-bad s h = (none, rw h)

  check_round-less :
      (s : Istream)
      → Left s ⊎ ((s' : Istream) × (check_round cpu_name time s ≡ inl s') × (weight s' < weight s))
  unfolding check_round
  check_round-less s = elim (Bool-cases (good s)) [
    | inr h ↦ inl (check_round-bad s h)
    | inl h ↦ elim (check_name-cases (read_word [] s).0 (read_word [] s).1) [
      | inl left ↦ inl left
      | inr e ↦ inr (
        ignore 10 (read_word [] s).1,
        e,
        omega (arith, weight-ignore 10 (read_word [] s).1, weight-read_word-good [] s h),
      )
    ]
  ]

  -- The search for a processor in /proc/stat ends, whatever the file holds, within two rounds more
  -- than the file has characters.
  pub check_get_cpu_time-Ends :
      (stat : Text)
      → (r : Option CpuTime) × ((fuel : ℕ)
          → suc (suc (length stat)) ≤ fuel
          → check_get_cpu_time cpu_name fuel time stat ≡ some r)
  unfolding check_get_cpu_time
  check_get_cpu_time-Ends stat =
      bounded (check_round cpu_name time) weight check_round-less (over stat)

-- A name of a processor has been read, and nothing else can be.
abbrev Stuck : Cores → Type 0
Stuck c = (good c.stream ≡ false) × (is_cpu c.name ≡ true)

good-failing : (s : Istream) → good (failing s) ≡ false
good-failing s = elim (Bool-cases s.eof) [ inl e ↦ rw e | inr e ↦ rw e ]

good-next : (old : ℕ) (s : Istream) → good s ≡ false → good (read_unsigned_long old s).1 ≡ false
unfolding read_number
good-next old s h = rw h (good-failing s)

good-get_cpu_time : (t : CpuTime) (s : Istream) → good s ≡ false → good (get_cpu_time t s).1 ≡ false
unfolding get_cpu_time
good-get_cpu_time t s h = good-next _ _ (
    good-next _ _ (
      good-next _ _ (
        good-next _ _ (
          good-next _ _
            (good-next _ _ (good-next _ _ (good-next _ _ (good-next _ _ (good-next _ _ h)))))))))

weight-next : (old w : ℕ) (s : Istream) → weight s ≤ w → weight (read_unsigned_long old s).1 ≤ w
weight-next old w s h = omega (arith, h, weight-read_number to_unsigned_long old s)

weight-get_cpu_time : (t : CpuTime) (s : Istream) → weight (get_cpu_time t s).1 ≤ weight s
unfolding get_cpu_time
weight-get_cpu_time t s = weight-next _ _ _ (
    weight-next _ _ _ (
      weight-next _ _ _ (
        weight-next _ _ _ (
          weight-next _ _ _ (
            weight-next _ _ _ (
              weight-next _ _ _ (
                weight-next _ _ _
                  (weight-next _ _ _ (weight-next t.user (weight s) s (omega arith))))))))))

Stuck-round : (c : Cores) → Stuck c → (c' : Cores) × (read_round c ≡ inl c') × Stuck c'
unfolding read_round add_core read_word
Stuck-round c (h, n) =
    let r = get_cpu_time c.time (failing c.stream) in
    (
      record { name = c.name; time = r.0; cores = (c.name, r.0) ∷ c.cores; stream = r.1 },
      rw (h, n),
      (good-get_cpu_time c.time (failing c.stream) (good-failing c.stream), n),
    )

Stuck-Hangs : (c : Cores) → Stuck c → Hangs read_round c
Stuck-Hangs = stuck-Hangs read_round Stuck Stuck-round

bad_round : (c : Cores) → good c.stream ≡ false → Progress read_round (λ q. weight q.stream) Stuck c
unfolding read_round add_core read_word
bad_round c h = elim (Bool-cases (is_cpu c.name)) [
  | inl n ↦ let (c', e, stuck) = Stuck-round c (h, n) in inr (c', e, inl stuck)
  | inr n ↦ inl ((c.cores, failing c.stream), rw (h, n))
]

good_round : (c : Cores) → good c.stream ≡ true → Progress read_round (λ q. weight q.stream) Stuck c
unfolding read_round add_core
good_round c h =
    let w = read_word c.name c.stream in
    let r = get_cpu_time c.time w.1 in
    elim (Bool-cases (is_cpu w.0)) [
      | inr n ↦ inl ((c.cores, w.1), rw n)
      | inl n ↦ inr (
        record { name = w.0; time = r.0; cores = (w.0, r.0) ∷ c.cores; stream = r.1 },
        rw n,
        inr (
            omega (arith, weight-get_cpu_time c.time w.1, weight-read_word-good c.name c.stream h)),
      )
    ]

round-Progress : (c : Cores) → Progress read_round (λ q. weight q.stream) Stuck c
round-Progress c = elim (Bool-cases (good c.stream)) [
  | inr h ↦ bad_round c h
  | inl h ↦ good_round c h
]

-- It never ends where the file ends behind the name of a processor.
name_alone :
    (time : CpuTime) (cores : List (Text × CpuTime))
    → Hangs read_round
        (record { name = []; time = time; cores = cores; stream = over (codes "cpu") })
unfolding read_round add_core read_word
name_alone time cores =
    let at_end : Istream = record { rest = []; eof = true; failed = false } in
    Hangs-round read_round refl (Stuck-Hangs _ (good-get_cpu_time time at_end refl, refl))

-- The loop over the processors in /proc/stat ends within two rounds more than the file has
-- characters, or it never ends.
pub read_cpu_time-Ends :
    (time : CpuTime) (usage : HardwareCpuUsage) (stat : Text)
    → ((r : List (Text × CpuTime) × Istream) × ((fuel : ℕ)
          → suc (suc (length stat)) ≤ fuel
          → read_cpu_time fuel time usage (over stat) ≡ some r))
      ⊎ ((fuel : ℕ) → read_cpu_time fuel time usage (over stat) ≡ none)
unfolding read_cpu_time
read_cpu_time-Ends time usage stat =
    halting read_round (λ q. weight q.stream) Stuck Stuck-Hangs round-Progress
      (record { name = []; time = time; cores = usage.cores; stream = over stat })
