-- ===== src/SystemInfo/Peak.antt =====
-- On the loop over /proc/<pid>/status.
use xerock.Base.{
  ℕ, suc, ◌≤◌, ◌≡◌, refl, true, false, ◌||◌, Bool-cases, inl, inr, ◌⊎◌, some, none, List, [], ◌∷◌,
  ◌++◌, Text, length, codes, arith, if_lem, text_eq, All, ◌==◌,
}
use xerock.Base.Loop.{Hangs, halting, stuck-Hangs, Hangs-round, Progress}
use xerock.Istream.{Istream, over, good, failing, read_word, to_unsigned_long, ignore}
use xerock.Istream.Words.{IsWord, read_word-space, ignore-field}
use xerock.Istream.Progress.{weight, weight-ignore, weight-read_word-good, weight-read_number}
use xerock.SystemInfo.Process.{
  MemoryPeakUsage, Peaking, take_hwm, take_peak, again, peak_line, peak_round, memory_peak_usage,
}

-- A value is still missing, and nothing can be read.
abbrev Stuck : Peaking → Type 0
Stuck p = (good p.stream ≡ false) × ((p.flag_vm || p.flag_rss) ≡ true)

good-failing : (s : Istream) → good (failing s) ≡ false
good-failing s = elim (Bool-cases s.eof) [ inl e ↦ rw e | inr e ↦ rw e ]

good-ignore : (d : ℕ) (s : Istream) → good s ≡ false → good (ignore d s) ≡ false
unfolding ignore
good-ignore d s h = rw h (good-failing s)

Stuck-round : (p : Peaking) → Stuck p → (p' : Peaking) × (peak_round p ≡ inl p') × Stuck p'
unfolding peak_round peak_line take_hwm take_peak again read_word
Stuck-round p (h, f) = (
  record p { stream = ignore 10 (failing p.stream) },
  rw (h, f),
  (good-ignore 10 (failing p.stream) (good-failing p.stream), f),
)

Stuck-Hangs : (p : Peaking) → Stuck p → Hangs peak_round p
Stuck-Hangs = stuck-Hangs peak_round Stuck Stuck-round

abbrev Lighter : Peaking → Peaking → Type 0
Lighter p q = weight q.stream ≤ weight p.stream

take_hwm-Lighter : (input : Text) (p : Peaking) → Lighter p (take_hwm input p)
unfolding take_hwm
take_hwm-Lighter input p =
    if_lem (Lighter p) (text_eq input (codes "VmHWM:"))
      (weight-read_number to_unsigned_long p.peak.mem_peak p.stream) (omega arith)

take_peak-Lighter : (input : Text) (p : Peaking) → Lighter p (take_peak input p)
unfolding take_peak
take_peak-Lighter input p =
    if_lem (Lighter p) (text_eq input (codes "VmPeak:"))
      (weight-read_number to_unsigned_long p.peak.virtual_mem_peak p.stream) (omega arith)

weight-peak_line :
    (p : Peaking) (input : Text) (s : Istream) → weight (peak_line p (input, s)).stream ≤ weight s
unfolding peak_line
weight-peak_line p input s =
    let first = take_hwm input (record p { stream = s }) in
    omega (
      arith,
      take_hwm-Lighter input (record p { stream = s }),
      take_peak-Lighter input first,
      weight-ignore 10 (take_peak input first).stream,
    )

again-cases : (p : Peaking) → ((r : MemoryPeakUsage) × (again p ≡ inr r)) ⊎ (again p ≡ inl p)
unfolding again
again-cases p = elim (Bool-cases (p.flag_vm || p.flag_rss)) [
  | inl f ↦ inr (rw f)
  | inr f ↦ inl (p.peak, rw f)
]

bad_round :
    (p : Peaking) → good p.stream ≡ false → Progress peak_round (λ q. weight q.stream) Stuck p
unfolding peak_round peak_line take_hwm take_peak again read_word
bad_round p h = elim (Bool-cases (p.flag_vm || p.flag_rss)) [
  | inl f ↦ let (p', e, stuck) = Stuck-round p (h, f) in inr (p', e, inl stuck)
  | inr f ↦ inl (p.peak, rw (h, f))
]

round-Progress : (p : Peaking) → Progress peak_round (λ q. weight q.stream) Stuck p
unfolding peak_round
round-Progress p = elim (Bool-cases (good p.stream)) [
  | inr h ↦ bad_round p h
  | inl h ↦
      let w = read_word [] p.stream in
      let q = peak_line p w in
      elim (again-cases q) [
        | inl left ↦ inl left
        | inr e ↦ inr (
          q,
          e,
          inr (omega (arith, weight-peak_line p w.0 w.1, weight-read_word-good [] p.stream h)),
        )
      ]
]

abbrev start : Text → MemoryPeakUsage → Peaking
start status peak = record { peak = peak; flag_vm = true; flag_rss = true; stream = over status }

-- The loop over the status of a process ends within two rounds more than the file has characters, or
-- it never ends.
pub memory_peak_usage-Ends :
    (status : Text) (peak : MemoryPeakUsage)
    → ((r : MemoryPeakUsage) × ((fuel : ℕ)
          → suc (suc (length status)) ≤ fuel
          → memory_peak_usage fuel (some status) peak ≡ some (some r)))
      ⊎ ((fuel : ℕ) → memory_peak_usage fuel (some status) peak ≡ none)
unfolding memory_peak_usage
memory_peak_usage-Ends status peak =
    elim (halting peak_round (λ q. weight q.stream) Stuck Stuck-Hangs round-Progress
      (start status peak)) [
        | inl (r, ends) ↦ inl (r, λ fuel b. rw (ends fuel b))
        | inr hangs ↦ inr λ fuel. rw (hangs fuel)
      ]

-- Lines of a word, a tab and more text, as the system writes them.
abbrev pub status_text : List (Text × Text) → Text
status_text [] = []
status_text (l ∷ ls) = l.0 ++ 9 ∷ (l.1 ++ 10 ∷ status_text ls)

-- A line with another word than the two that the loop looks for.
abbrev pub IsOther : Text × Text → Type 0
IsOther l =
    IsWord l.0
    × (text_eq l.0 (codes "VmHWM:") ≡ false)
    × (text_eq l.0 (codes "VmPeak:") ≡ false)
    × All (λ c. (c == 10) ≡ false) l.1

other_round :
    (peak : MemoryPeakUsage) (l : Text × Text) (more : Text)
    → IsOther l
    → peak_round (start (l.0 ++ 9 ∷ (l.1 ++ 10 ∷ more)) peak) ≡ inl (start more peak)
unfolding peak_round peak_line take_hwm take_peak again
other_round peak l more (w, h, p, r) = rw (
  read_word-space 9 l.0 [] (l.1 ++ 10 ∷ more) refl w,
  h,
  p,
  ignore-field 10 (9 ∷ l.1) more (refl, r),
)

others_hang :
    (peak : MemoryPeakUsage) (ls : List (Text × Text))
    → All IsOther ls
    → Hangs peak_round (start (status_text ls) peak)
unfolding peak_round peak_line take_hwm take_peak again read_word ignore
others_hang peak [] h = Hangs-round peak_round refl (Stuck-Hangs _ (refl, refl))
others_hang peak (l ∷ ls) (h, hs) =
    Hangs-round peak_round (other_round peak l (status_text ls) h) (others_hang peak ls hs)

-- On a status without the lines VmHWM and VmPeak, as that of a kernel thread, the loop never ends.
pub memory_peak_usage-Hangs :
    (ls : List (Text × Text)) (peak : MemoryPeakUsage) (fuel : ℕ)
    → All IsOther ls
    → memory_peak_usage fuel (some (status_text ls)) peak ≡ none
unfolding memory_peak_usage
memory_peak_usage-Hangs ls peak fuel h = rw (others_hang peak ls h fuel)
