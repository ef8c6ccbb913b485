-- ===== src/VmRunner.antt =====
-- src/core/vmrunner.cpp: the QEMU of a VM, from its command line to its end.
pub mod CommandLine
pub mod Shell
pub mod Quoting
pub mod Mounts
pub mod LogTail
pub mod Machine
pub mod Signals
pub mod Start
pub mod Steps
pub mod Cleaning
pub mod Sound
pub mod Invariant
pub mod Timers
pub mod Signalled
pub mod Started
pub mod Soundness
pub mod Ended
pub mod Ending
