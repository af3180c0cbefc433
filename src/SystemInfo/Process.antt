-- ===== src/SystemInfo/Process.antt =====
-- proc_info_unix.cpp, with the records of system_types.hpp. The arithmetic on `double` is left out.
use mathlib.Core.Option
use xerock.Base.{
  ℕ, ◌+◌, ◌-◌, ◌%◌, ◌^◌, ◌==◌, Bool, true, false, ◌||◌, Option, none, some, List, [], ◌∷◌, ◌++◌,
  inl, inr, ◌⊎◌, Text, String, codes, text_eq, if◌then◌else◌, map,
}
use xerock.Base.Int.{ℤ}
use xerock.Base.Loop.{loop}
use xerock.Istream.{
  Istream, over, atol, read_word, read_unsigned_long, read_int, read_char, to_int, ignore,
  skip_space, sign, digits,
}
use xerock.Istream.Decimal.{show, show_int}
use xerock.SystemInfo.Hardware.{ignores}

pub record MemoryUsage : Type 0 where
  pub total : ℕ
  pub rss : ℕ
  pub shared : ℕ
  pub text : ℕ
  pub data_and_stack : ℕ

pub record CpuUsage : Type 0 where
  pub utime : ℕ
  pub stime : ℕ
  pub cutime : ℕ
  pub cstime : ℕ
  pub starttime : ℕ

pub record ProcessInfo : Type 0 where
  pub pid : ℕ
  pub ppid : ℤ
  pub usage : MemoryUsage
  pub cusage : CpuUsage
  pub cmd : List Text
  pub tpid : List ℤ
  pub tcusage : List CpuUsage

pub record MemoryPeakUsage : Type 0 where
  pub mem_peak : ℕ
  pub virtual_mem_peak : ℕ

unfoldable pub memory_usage : Option Text → Option MemoryUsage
memory_usage none = none
memory_usage (some statm) =
    let total = read_word [] (over statm) in
    let rss = read_word total.0 total.1 in
    let shared = read_word rss.0 rss.1 in
    let text = read_word shared.0 shared.1 in
    let lib = read_word text.0 text.1 in
    let last = read_word lib.0 lib.1 in
    some (record {
      total = atol total.0;
      rss = atol rss.0;
      shared = atol shared.0;
      text = atol text.0;
      data_and_stack = atol last.0;
    })

unfoldable pub cpu_usage : Option Text → Option CpuUsage
cpu_usage none = none
cpu_usage (some stat) =
    let utime = read_word [] (ignores 13 32 (over stat)) in
    let stime = read_word utime.0 utime.1 in
    let cutime = read_word stime.0 stime.1 in
    let cstime = read_word cutime.0 cutime.1 in
    let starttime = read_word cstime.0 (ignores 5 32 cstime.1) in
    some (record {
      utime = atol utime.0;
      stime = atol stime.0;
      cutime = atol cutime.0;
      cstime = atol cstime.0;
      starttime = atol starttime.0;
    })

-- The variables of the loop over /proc/<pid>/cmdline.
pub record Splitting : Type 0 where
  pub cmd : List Text
  pub arg : Text
  pub stream : Istream

-- Behind `in >> c`.
unfoldable pub split_char : Splitting → Option ℕ × Istream → Splitting ⊎ List Text
split_char p (none, s) = inr p.cmd
split_char p (some c, s) =
    if c == 0
    then inl (record { cmd = p.cmd ++ p.arg ∷ []; arg = []; stream = s })
    else inl (record { cmd = p.cmd; arg = p.arg ++ c ∷ []; stream = s })

unfoldable pub split_round : Splitting → Splitting ⊎ List Text
unfolding split_char
split_round p = split_char p (read_char p.stream)

unfoldable pub read_cmdline : ℕ → List Text → Text → Option (List Text)
unfolding split_round
read_cmdline fuel cmd cmdline =
    loop fuel split_round (record { cmd = cmd; arg = []; stream = over cmdline })

unfoldable pub read_ppid : ℤ → Text → ℤ
read_ppid old stat = (read_int old (ignores 3 32 (over stat))).0

-- The variables of the loop over /proc/<pid>/status.
pub record Peaking : Type 0 where
  pub peak : MemoryPeakUsage
  pub flag_vm : Bool
  pub flag_rss : Bool
  pub stream : Istream

unfoldable pub take_hwm : Text → Peaking → Peaking
take_hwm input p =
    let r = read_unsigned_long p.peak.mem_peak p.stream in
    if text_eq input (codes "VmHWM:")
    then record p {
      peak = record { mem_peak = r.0; virtual_mem_peak = p.peak.virtual_mem_peak };
      flag_rss = false;
      stream = r.1;
    }
    else p

unfoldable pub take_peak : Text → Peaking → Peaking
take_peak input p =
    let r = read_unsigned_long p.peak.virtual_mem_peak p.stream in
    if text_eq input (codes "VmPeak:")
    then record p {
      peak = record { mem_peak = p.peak.mem_peak; virtual_mem_peak = r.0 };
      flag_vm = false;
      stream = r.1;
    }
    else p

-- The test of the loop: `in.eofbit` is a constant that is not zero.
unfoldable pub again : Peaking → Peaking ⊎ MemoryPeakUsage
again p = if p.flag_vm || p.flag_rss then inl p else inr p.peak

-- Behind the reading of a word.
unfoldable pub peak_line : Peaking → Text × Istream → Peaking
unfolding take_hwm take_peak
peak_line p (input, s) =
    let taken = take_peak input (take_hwm input (record p { stream = s })) in
    record taken { stream = ignore 10 taken.stream }

unfoldable pub peak_round : Peaking → Peaking ⊎ MemoryPeakUsage
unfolding again peak_line
peak_round p = again (peak_line p (read_word [] p.stream))

-- The outer none means that the fuel ran out, the inner one that the file cannot be opened.
unfoldable pub memory_peak_usage :
    ℕ → Option Text → MemoryPeakUsage → Option (Option MemoryPeakUsage)
unfolding peak_round
memory_peak_usage fuel none peak = some none
memory_peak_usage fuel (some status) peak = Option.map some (
    loop fuel peak_round
      (record { peak = peak; flag_vm = true; flag_rss = true; stream = over status }))

-- Differences and sums of `unsigned long` numbers.
abbrev pub minus64 : ℕ → ℕ → ℕ
minus64 a b = (a + 2 ^ 64 - b) % 2 ^ 64

-- The time that the process has used between the two readings.
unfoldable pub cpu_usage_between : CpuUsage → CpuUsage → Bool → ℕ
cpu_usage_between start end_ use_child_time =
    let own = (minus64 end_.utime start.utime + minus64 end_.stime start.stime) % 2 ^ 64 in
    let children = (minus64 end_.cutime start.cutime + minus64 end_.cstime start.cstime) % 2 ^ 64 in
    if use_child_time then (own + children) % 2 ^ 64 else own

unfoldable pub cpu_usage_of : CpuUsage → Bool → ℕ
cpu_usage_of usage use_child_time =
    let own = (usage.utime + usage.stime) % 2 ^ 64 in
    let children = (usage.cutime + usage.cstime) % 2 ^ 64 in
    if use_child_time then (own + children) % 2 ^ 64 else own

-- `std::atoi` of the name of a directory.
abbrev atoi : Text → ℤ
atoi t = let behind = sign (skip_space t) in (to_int behind.0 (digits behind.1).0).0

abbrev or_else {ℓ} : {A : Type ℓ} → A → Option A → A
or_else a none = a
or_else a (some b) = b

-- What can be opened, and what the directories hold; `unset` is a record that nothing has set.
module _ (files : Text → Option Text) (entries : Text → List Text) (unset : CpuUsage) where
  abbrev below : Text → String → Text
  below base name = base ++ (codes "/" ++ codes name)

  abbrev task_usage : Text → ℤ → CpuUsage
  task_usage base p =
      or_else unset
        (cpu_usage (files (below (below base "task" ++ (codes "/" ++ show_int p)) "stat")))

  unfoldable pub with_stat : Text → ProcessInfo → List Text → Text → ProcessInfo
  unfolding read_ppid memory_usage cpu_usage
  with_stat base info cmd stat =
      let tpid = info.tpid ++ map atoi (entries (below base "task")) in
      record {
        pid = info.pid;
        ppid = read_ppid info.ppid stat;
        usage = or_else info.usage (memory_usage (files (below base "statm")));
        cusage = or_else info.cusage (cpu_usage (files (below base "stat")));
        cmd = cmd;
        tpid = tpid;
        tcusage = info.tcusage ++ map (task_usage base) tpid;
      }

  -- The outer none means that the fuel ran out, the inner one is `return false`.
  unfoldable pub get_process_info : ℕ → Text → ProcessInfo → Option (Option ProcessInfo)
  unfolding with_stat read_cmdline
  get_process_info fuel base info =
      opened (files (below base "cmdline")) (files (below base "stat"))
    where
      opened : Option Text → Option Text → Option (Option ProcessInfo)
      opened none stat = some none
      opened (some cmdline) none = Option.map (λ cmd. none) (read_cmdline fuel info.cmd cmdline)
      opened (some cmdline) (some stat) =
          Option.map (λ cmd. some (with_stat base info cmd stat))
            (read_cmdline fuel info.cmd cmdline)

  unfoldable pub process_info_of : (Text → Bool) → ℕ → ℕ → ProcessInfo → Option (Option ProcessInfo)
  unfolding get_process_info
  process_info_of exists fuel pid info =
      let path = codes "/proc/" ++ show pid in
      if exists path then get_process_info fuel path info else some none

  -- Of the daemon itself, whose number is the first argument.
  unfoldable pub process_info : ℕ → ℕ → ProcessInfo → Option (Option ProcessInfo)
  unfolding get_process_info
  process_info own_pid fuel info =
      get_process_info fuel (codes "/proc/" ++ show own_pid) (record info { pid = own_pid })
