-- ===== src/SystemInfo/Memory.antt =====
-- On what is read from /proc/meminfo.
use xerock.Base.{
  ℕ, zero, suc, ◌<◌, ◌^◌, ◌≡◌, refl, some, List, [], ◌∷◌, ◌++◌, Text, length, All, ◌∙◌, ap,
}
use xerock.Istream.{over, read_number, read_unsigned_long}
use xerock.Istream.Words.{IsField, ignore-field, fields_text}
use xerock.Istream.Decimal.{show, read_unsigned_long-show}
use xerock.SystemInfo.Hardware.{
  HardwareMemoryUsage, ignores, read_memory_line, hardware_memory_usage,
}

-- Fields that are skipped.
pub ignores-fields_text :
    (d : ℕ) (fs : List Text) (more : Text)
    → All (IsField d) fs
    → ignores (length fs) d (over (fields_text d fs more)) ≡ over more
ignores-fields_text d [] more h = refl
ignores-fields_text d (f ∷ fs) more (h, hs) =
    ap (ignores (length fs) d) (ignore-field d f (fields_text d fs more) h)
    ∙ ignores-fields_text d fs more hs

abbrev pub spaces : ℕ → Text → Text
spaces zero t = t
spaces (suc n) t = 32 ∷ spaces n t

-- A line of /proc/meminfo: its label with the colon, how many spaces follow the first one, and the
-- number of kB.
pub record MemoryLine : Type 0 where
  pub label : Text
  pub padding : ℕ
  pub kb : ℕ

abbrev pub IsMemoryLine : MemoryLine → Type 0
IsMemoryLine l = IsField 32 l.label × (l.kb < 2 ^ 64)

abbrev pub memory_line : MemoryLine → Text → Text
memory_line l more = l.label ++ 32 ∷ spaces l.padding (show l.kb ++ 32 ∷ (107 ∷ 66 ∷ 10 ∷ more))

read_number-spaces :
    (n old : ℕ) (t : Text)
    → read_unsigned_long old (over (spaces n t)) ≡ read_unsigned_long old (over t)
unfolding read_number
read_number-spaces zero old t = refl
read_number-spaces (suc n) old t = read_number-spaces n old t

read_memory_line-memory_line :
    (l : MemoryLine) (old : ℕ) (more : Text)
    → IsMemoryLine l
    → read_memory_line old (over (memory_line l more)) ≡ (l.kb, over more)
unfolding read_memory_line
read_memory_line-memory_line l old more (h, b) =
    let tail = show l.kb ++ 32 ∷ (107 ∷ 66 ∷ 10 ∷ more) in
    rw (
      ignore-field 32 l.label (spaces l.padding tail) h,
      read_number-spaces l.padding old tail,
      read_unsigned_long-show 32 l.kb old (107 ∷ 66 ∷ 10 ∷ more) refl b,
      ignore-field 10 (32 ∷ 107 ∷ 66 ∷ []) more (refl, (refl, (refl, tt))),
    )

abbrev pub memory_lines : List MemoryLine → Text → Text
memory_lines [] more = more
memory_lines (l ∷ ls) more = memory_line l (memory_lines ls more)

-- The first six numbers of kB and those of the fifteenth and the sixteenth line are read from a
-- file with sixteen lines or more in the layout of the kernel, whatever the other lines hold.
pub hardware_memory_usage-Reads :
    (total free available buffer cached swap_cached swap_total swap_free : MemoryLine)
    (others : List Text) (more : Text) (old : HardwareMemoryUsage)
    → All IsMemoryLine
        (total ∷ free ∷ available ∷ buffer ∷ cached ∷ swap_cached ∷ swap_total ∷ swap_free ∷ [])
    → All (IsField 10) others
    → length others ≡ 8
    → hardware_memory_usage
        (some (
          memory_lines
            (total ∷ free ∷ available ∷ buffer ∷ cached ∷ swap_cached ∷ [])
            (fields_text 10 others (memory_lines (swap_total ∷ swap_free ∷ []) more))))
        old
      ≡ some (record {
        total = total.kb;
        free = free.kb;
        available = available.kb;
        buffer = buffer.kb;
        cached = cached.kb;
        swap_cached = swap_cached.kb;
        swap_total = swap_total.kb;
        swap_free = swap_free.kb;
      })
unfolding hardware_memory_usage
hardware_memory_usage-Reads t f a b c sc st sf others more old
      (ht, (hf, (ha, (hb, (hc, (hsc, (hst, (hsf, _)))))))) ho eight =
    let end = memory_lines (st ∷ sf ∷ []) more in
    let rest = fields_text 10 others end in
    let skipped : ignores 8 10 (over rest) ≡ over end =
      cc (ignores-fields_text 10 others end ho, eight) in
    rw (
      read_memory_line-memory_line t old.total (memory_lines (f ∷ a ∷ b ∷ c ∷ sc ∷ []) rest) ht,
      read_memory_line-memory_line f old.free (memory_lines (a ∷ b ∷ c ∷ sc ∷ []) rest) hf,
      read_memory_line-memory_line a old.available (memory_lines (b ∷ c ∷ sc ∷ []) rest) ha,
      read_memory_line-memory_line b old.buffer (memory_lines (c ∷ sc ∷ []) rest) hb,
      read_memory_line-memory_line c old.cached (memory_lines (sc ∷ []) rest) hc,
      read_memory_line-memory_line sc old.swap_cached rest hsc,
      skipped,
      read_memory_line-memory_line st old.swap_total (memory_lines (sf ∷ []) more) hst,
      read_memory_line-memory_line sf old.swap_free more hsf,
    )
