-- ===== src/SystemInfo.antt =====
-- src/libs/system_info/src/: what the monitor reads from the files of /proc. A file is the text that it
-- holds; which files can be opened is an argument.
pub mod Hardware
pub mod Process
pub mod Loops
pub mod Peak
pub mod Cmdline
pub mod Memory
pub mod Stat
mod Examples
