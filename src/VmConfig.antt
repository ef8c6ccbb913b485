-- ===== src/VmConfig.antt =====
-- src/core/vmconfig.cpp: the settings that the pages show, read from the command line and written
-- back into it. One module for each group of settings.
pub mod Name
pub mod Naming
pub mod Sizes
pub mod SizeText
pub mod Smp
pub mod Features
pub mod Memory
pub mod SharedMemory
pub mod MemoryLine
pub mod Cpus
pub mod Shares
pub mod ShareLines
pub mod ShareText
pub mod Files
pub mod Passthrough
