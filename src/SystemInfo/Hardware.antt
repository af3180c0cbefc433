-- ===== src/SystemInfo/Hardware.antt =====
-- hardware_info_unix.cpp, with the records of system_types.hpp. The arithmetic on `double` is left out.
use mathlib.Core.Option
use xerock.Base.{
  ℕ, zero, suc, ◌+◌, ◌%◌, ◌^◌, ◌==◌, Bool, false, ◌&&◌, Option, none, some, List, [], ◌∷◌, inl, inr,
  ◌⊎◌, Text, text_eq, if◌then◌else◌,
}
use xerock.Base.Loop.{loop}
use xerock.Istream.{Istream, over, read_word, read_unsigned_long, ignore}

pub record HardwareMemoryUsage : Type 0 where
  pub total : ℕ
  pub free : ℕ
  pub available : ℕ
  pub buffer : ℕ
  pub cached : ℕ
  pub swap_cached : ℕ
  pub swap_total : ℕ
  pub swap_free : ℕ

pub record CpuTime : Type 0 where
  pub user : ℕ
  pub nice : ℕ
  pub system : ℕ
  pub idle : ℕ
  pub iowait : ℕ
  pub irq : ℕ
  pub soft_irq : ℕ
  pub steal : ℕ
  pub guest : ℕ
  pub guest_nice : ℕ

-- The map of the cores is kept as an association list, the newest first.
pub record HardwareCpuUsage : Type 0 where
  pub cores : List (Text × CpuTime)
  pub processes : ℕ
  pub process_running : ℕ
  pub process_blocked : ℕ

-- Some calls of `in.ignore(max, d)`.
abbrev pub ignores : ℕ → ℕ → Istream → Istream
ignores zero d s = s
ignores (suc n) d s = ignores n d (ignore d s)

-- The three calls that read a line of /proc/meminfo.
unfoldable pub read_memory_line : ℕ → Istream → ℕ × Istream
read_memory_line old s = let r = read_unsigned_long old (ignore 32 s) in (r.0, ignore 10 r.1)

unfoldable pub hardware_memory_usage :
    Option Text → HardwareMemoryUsage → Option HardwareMemoryUsage
hardware_memory_usage none usage = none
hardware_memory_usage (some meminfo) usage =
    let total = read_memory_line usage.total (over meminfo) in
    let free = read_memory_line usage.free total.1 in
    let available = read_memory_line usage.available free.1 in
    let buffer = read_memory_line usage.buffer available.1 in
    let cached = read_memory_line usage.cached buffer.1 in
    let swap_cached = read_memory_line usage.swap_cached cached.1 in
    let swap_total = read_memory_line usage.swap_total (ignores 8 10 swap_cached.1) in
    let swap_free = read_memory_line usage.swap_free swap_total.1 in
    some (record {
      total = total.0;
      free = free.0;
      available = available.0;
      buffer = buffer.0;
      cached = cached.0;
      swap_cached = swap_cached.0;
      swap_total = swap_total.0;
      swap_free = swap_free.0;
    })

-- The sum of `unsigned long` numbers.
unfoldable pub total_cpu_time : CpuTime → ℕ
total_cpu_time t =
    (t.user + t.nice + t.system + t.idle + t.iowait + t.irq + t.soft_irq + t.steal + t.guest
      + t.guest_nice)
    % 2 ^ 64

unfoldable pub get_cpu_time : CpuTime → Istream → CpuTime × Istream
get_cpu_time t s =
    let user = read_unsigned_long t.user s in
    let nice = read_unsigned_long t.nice user.1 in
    let system = read_unsigned_long t.system nice.1 in
    let idle = read_unsigned_long t.idle system.1 in
    let iowait = read_unsigned_long t.iowait idle.1 in
    let irq = read_unsigned_long t.irq iowait.1 in
    let soft_irq = read_unsigned_long t.soft_irq irq.1 in
    let steal = read_unsigned_long t.steal soft_irq.1 in
    let guest = read_unsigned_long t.guest steal.1 in
    let guest_nice = read_unsigned_long t.guest_nice guest.1 in
    (
      record {
        user = user.0;
        nice = nice.0;
        system = system.0;
        idle = idle.0;
        iowait = iowait.0;
        irq = irq.0;
        soft_irq = soft_irq.0;
        steal = steal.0;
        guest = guest.0;
        guest_nice = guest_nice.0;
      },
      guest_nice.1,
    )

-- `name.find("cpu") == 0`.
abbrev pub is_cpu : Text → Bool
is_cpu (a ∷ b ∷ c ∷ rest) = (a == 99) && ((b == 112) && (c == 117))
is_cpu (a ∷ b ∷ []) = false
is_cpu (a ∷ []) = false
is_cpu [] = false

module _ (cpu_name : Text) where
  -- Behind the reading of a name: none is `return false`.
  unfoldable pub check_name : CpuTime → Text × Istream → Istream ⊎ Option CpuTime
  unfolding get_cpu_time
  check_name time (name, s) =
      if is_cpu name
      then (if text_eq name cpu_name then inr (some (get_cpu_time time s).0) else inl (ignore 10 s))
      else inr none

  unfoldable pub check_round : CpuTime → Istream → Istream ⊎ Option CpuTime
  unfolding check_name
  check_round time s = check_name time (read_word [] s)

  -- The loop on fuel, where the file has been opened.
  unfoldable pub check_get_cpu_time : ℕ → CpuTime → Text → Option (Option CpuTime)
  unfolding check_round
  check_get_cpu_time fuel time stat = loop fuel (check_round time) (over stat)

-- The variables of the loop in `read_cpu_time`; the name and the times are kept over its rounds.
pub record Cores : Type 0 where
  pub name : Text
  pub time : CpuTime
  pub cores : List (Text × CpuTime)
  pub stream : Istream

-- Behind the reading of a name.
unfoldable pub add_core : Cores → Text × Istream → Cores ⊎ (List (Text × CpuTime) × Istream)
unfolding get_cpu_time
add_core c (name, s) =
    let r = get_cpu_time c.time s in
    if is_cpu name
    then inl (record { name = name; time = r.0; cores = (name, r.0) ∷ c.cores; stream = r.1 })
    else inr (c.cores, s)

unfoldable pub read_round : Cores → Cores ⊎ (List (Text × CpuTime) × Istream)
unfolding add_core
read_round c = add_core c (read_word c.name c.stream)

unfoldable pub read_cpu_time :
    ℕ → CpuTime → HardwareCpuUsage → Istream → Option (List (Text × CpuTime) × Istream)
unfolding read_round
read_cpu_time fuel time usage s =
    loop fuel read_round (record { name = []; time = time; cores = usage.cores; stream = s })

-- Behind the lines of the cores.
unfoldable pub read_processes :
    HardwareCpuUsage → List (Text × CpuTime) × Istream → HardwareCpuUsage
read_processes usage (cores, s) =
    let processes = read_unsigned_long usage.processes (ignore 32 (ignores 3 10 s)) in
    let running = read_unsigned_long usage.process_running (ignore 32 processes.1) in
    let blocked = read_unsigned_long usage.process_blocked (ignore 32 running.1) in
    record {
      cores = cores;
      processes = processes.0;
      process_running = running.0;
      process_blocked = blocked.0;
    }

-- The outer none means that the fuel ran out, the inner one that the file cannot be opened.
unfoldable pub hardware_cpu_usage :
    ℕ → CpuTime → Option Text → HardwareCpuUsage → Option (Option HardwareCpuUsage)
unfolding read_cpu_time read_processes
hardware_cpu_usage fuel time none usage = some none
hardware_cpu_usage fuel time (some stat) usage =
    Option.map (λ r. some (read_processes usage r)) (read_cpu_time fuel time usage (over stat))
