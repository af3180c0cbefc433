-- ===== src/SystemInfo/Examples.antt =====
-- Tests and instances for the files of /proc.
use mathlib.Core.List.{cons-ne-nil}
use xerock.Base.{ℕ, ◌≡◌, refl, none, some, List, [], ◌∷◌, ◌++◌, map, Text, codes, arith}
use xerock.Base.Loop.{loop}
use xerock.Istream.{read_word, read_number, ignore}
use xerock.Istream.Words.{fields_text}
use xerock.Istream.Decimal.{show}
use xerock.SystemInfo.Hardware.{
  CpuTime, HardwareCpuUsage, HardwareMemoryUsage, check_get_cpu_time, check_round, check_name,
  get_cpu_time, hardware_memory_usage,
}
use xerock.SystemInfo.Process.{
  MemoryPeakUsage, CpuUsage, memory_peak_usage, read_cmdline, cpu_usage,
}
use xerock.SystemInfo.Peak.{memory_peak_usage-Hangs, status_text}
use xerock.SystemInfo.Cmdline.{read_cmdline-cmdline_text, cmdline_text, drop_spaces}
use xerock.SystemInfo.Memory.{MemoryLine, memory_lines, hardware_memory_usage-Reads}
use xerock.SystemInfo.Stat.{stat_text}

abbrev zeros : CpuTime
zeros = record {
  user = 0;
  nice = 0;
  system = 0;
  idle = 0;
  iowait = 0;
  irq = 0;
  soft_irq = 0;
  steal = 0;
  guest = 0;
  guest_nice = 0;
}

abbrev one_core : Text
one_core = codes "cpu0 1 2 3 4 5 6 7 8 9 10\nintr 5\n"

core_found :
    check_get_cpu_time (codes "cpu0") 2 zeros one_core
    ≡ some (
        some (record {
          user = 1;
          nice = 2;
          system = 3;
          idle = 4;
          iowait = 5;
          irq = 6;
          soft_irq = 7;
          steal = 8;
          guest = 9;
          guest_nice = 10;
        }))
unfolding check_get_cpu_time check_round check_name get_cpu_time read_word read_number ignore loop
core_found = refl

abbrev no_usage : HardwareCpuUsage
no_usage = record { cores = []; processes = 0; process_running = 0; process_blocked = 0 }

abbrev no_peak : MemoryPeakUsage
no_peak = record { mem_peak = 0; virtual_mem_peak = 0 }

abbrev small_status : Text
small_status = codes "VmPeak: 12 kB\nVmHWM: 7 kB\n"

-- The first lines of the status of a kernel thread.
abbrev kernel_thread : List (Text × Text)
kernel_thread = (codes "Name:", codes "kthreadd") ∷ (codes "Pid:", codes "2") ∷ []

memory_peak_usage-Hangs_example :
    memory_peak_usage 1000 (some (status_text kernel_thread)) no_peak ≡ none
memory_peak_usage-Hangs_example = memory_peak_usage-Hangs kernel_thread no_peak 1000 (
  ((cons-ne-nil _ _, ground arith), refl, refl, ground arith),
  (((cons-ne-nil _ _, ground arith), refl, refl, ground arith), tt),
)

abbrev spaced : List Text
spaced = codes "cat" ∷ codes "a b" ∷ []

read_cmdline-cmdline_text_example :
    read_cmdline 9 [] (cmdline_text spaced) ≡ some ([] ++ map drop_spaces spaced)
read_cmdline-cmdline_text_example =
    read_cmdline-cmdline_text [] spaced 9 (ground arith) (omega arith)

-- The space within the second argument is lost.
space_lost : map drop_spaces spaced ≡ codes "cat" ∷ codes "ab" ∷ []
space_lost = refl

abbrev line_of : ℕ → MemoryLine
line_of n = record { label = codes "Label:"; padding = 2; kb = n }

abbrev ignored : List Text
ignored = [] ∷ [] ∷ [] ∷ [] ∷ [] ∷ [] ∷ [] ∷ [] ∷ []

abbrev no_memory : HardwareMemoryUsage
no_memory = record {
  total = 0;
  free = 0;
  available = 0;
  buffer = 0;
  cached = 0;
  swap_cached = 0;
  swap_total = 0;
  swap_free = 0;
}

hardware_memory_usage-Reads_example :
    hardware_memory_usage
      (some (
        memory_lines
          (line_of 1 ∷ line_of 2 ∷ line_of 3 ∷ line_of 4 ∷ line_of 5 ∷ line_of 6 ∷ [])
          (fields_text 10 ignored (memory_lines (line_of 7 ∷ line_of 8 ∷ []) []))))
      no_memory
    ≡ some (record {
      total = 1;
      free = 2;
      available = 3;
      buffer = 4;
      cached = 5;
      swap_cached = 6;
      swap_total = 7;
      swap_free = 8;
    })
hardware_memory_usage-Reads_example =
    hardware_memory_usage-Reads (line_of 1) (line_of 2) (line_of 3) (line_of 4) (line_of 5)
      (line_of 6) (line_of 7) (line_of 8) ignored [] no_memory (ground arith) (ground arith) refl

abbrev times : CpuUsage
times = record { utime = 10; stime = 20; cutime = 30; cstime = 40; starttime = 12345 }

abbrev thirteen_fields : List Text
thirteen_fields =
    codes "42"
    ∷ codes "(xerock)"
    ∷ codes "S"
    ∷ codes "0"
    ∷ codes "0"
    ∷ codes "0"
    ∷ codes "0"
    ∷ codes "0"
    ∷ codes "0"
    ∷ codes "0"
    ∷ codes "0"
    ∷ codes "0"
    ∷ codes "0"
    ∷ []

abbrev four_fields : List Text
four_fields = codes "20" ∷ codes "0" ∷ codes "1" ∷ codes "0" ∷ []

-- A space in the name of the program moves the fields.
field_moved :
    cpu_usage (
      some (
        stat_text
          (codes "42"
            ∷ codes "(a b)"
            ∷ codes "S"
            ∷ codes "0"
            ∷ codes "0"
            ∷ codes "0"
            ∷ codes "0"
            ∷ codes "0"
            ∷ codes "0"
            ∷ codes "0"
            ∷ codes "0"
            ∷ codes "0"
            ∷ codes "0"
            ∷ [])
          times
          four_fields
          []))
    ≡ some (record { utime = 0; stime = 10; cutime = 20; cstime = 30; starttime = 0 })
unfolding cpu_usage read_word ignore show
field_moved = refl
