-- ===== src/SystemInfo/Stat.antt =====
-- On what is read from /proc/<pid>/stat.
use mathlib.Core.List.{cons-ne-nil}
use xerock.Base.{
  ℕ, ◌<◌, ◌^◌, ◌≡◌, ◌≢◌, refl, some, List, [], ◌∷◌, ◌++◌, Text, length, All, subst, sym,
}
use xerock.Istream.{over, read_word}
use xerock.Istream.Words.{IsWord, IsField, fields_text, read_word-space}
use xerock.Istream.Decimal.{show, show-Cons, show-dull, atol-show}
use xerock.SystemInfo.Hardware.{ignores}
use xerock.SystemInfo.Memory.{ignores-fields_text}
use xerock.SystemInfo.Process.{CpuUsage, cpu_usage}

show-IsWord : (n : ℕ) → IsWord (show n)
show-IsWord n =
    let (c, cs, e, h, hs) = show-Cons n in
    (subst (λ t. t ≢ []) (sym e) (cons-ne-nil c cs), show-dull n)

read_field :
    (n : ℕ) (old more : Text)
    → read_word old (over (show n ++ 32 ∷ more)) ≡ (show n, over (32 ∷ more))
read_field n old more = read_word-space 32 (show n) old more refl (show-IsWord n)

read_next :
    (n : ℕ) (old more : Text)
    → read_word old (over (32 ∷ (show n ++ 32 ∷ more))) ≡ (show n, over (32 ∷ more))
unfolding read_word
read_next n old more = read_field n old more

-- The line of /proc/<pid>/stat, where `before` are the fields before utime and `between` those
-- between cstime and starttime.
abbrev pub stat_text : List Text → CpuUsage → List Text → Text → Text
stat_text before u between more = fields_text 32 before (
    show u.utime
    ++ 32
      ∷ (show u.stime
          ++ 32
            ∷ (show u.cutime
                ++ 32
                  ∷ (show u.cstime
                      ++ 32 ∷ fields_text 32 between (show u.starttime ++ 32 ∷ more)))))

abbrev pub Fits : CpuUsage → Type 0
Fits u =
    (u.utime < 2 ^ 64)
    × (u.stime < 2 ^ 64)
    × (u.cutime < 2 ^ 64)
    × (u.cstime < 2 ^ 64)
    × (u.starttime < 2 ^ 64)

-- The times are read from the fields fourteen to seventeen and twenty-two, where the fields before
-- hold no space.
pub cpu_usage-Reads :
    (before between : List Text) (u : CpuUsage) (more : Text)
    → length before ≡ 13
    → length between ≡ 4
    → All (IsField 32) before
    → All (IsField 32) between
    → Fits u
    → cpu_usage (some (stat_text before u between more)) ≡ some u
unfolding cpu_usage
cpu_usage-Reads before between u more thirteen four hb hm (a, b, c, d, e) =
    let last = show u.starttime ++ 32 ∷ more in
    let four_fields = fields_text 32 between last in
    let ct = show u.cstime ++ 32 ∷ four_fields in
    let cu = show u.cutime ++ 32 ∷ ct in
    let st = show u.stime ++ 32 ∷ cu in
    let ut = show u.utime ++ 32 ∷ st in
    let skipped : ignores 13 32 (over (fields_text 32 before ut)) ≡ over ut =
      cc (ignores-fields_text 32 before ut hb, thirteen) in
    let skipped' : ignores 5 32 (over (32 ∷ four_fields)) ≡ over last =
      cc (ignores-fields_text 32 ([] ∷ between) last (tt, hm), four) in
    rw (
      skipped,
      read_field u.utime [] st,
      read_next u.stime (show u.utime) cu,
      read_next u.cutime (show u.stime) ct,
      read_next u.cstime (show u.cutime) four_fields,
      skipped',
      read_field u.starttime (show u.cstime) more,
      atol-show u.utime a,
      atol-show u.stime b,
      atol-show u.cutime c,
      atol-show u.cstime d,
      atol-show u.starttime e,
    )
