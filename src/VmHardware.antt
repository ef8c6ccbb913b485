-- ===== src/VmHardware.antt =====
-- src/core/vmhardware.cpp: machine, accelerator, graphics, disks and boot of a VM, read from the
-- command line and written back into it. One module for each group of settings.
pub mod Lines
pub mod Places
pub mod Machine
pub mod Disks
pub mod DiskEdits
pub mod Graphics
pub mod Card
pub mod Window
pub mod Boot
pub mod FirstDevice
pub mod Bios
pub mod FlashLines
pub mod Firmware
pub mod MachineType
pub mod Ids
pub mod AddedDisk
pub mod Drivers
pub mod CardText
pub mod CardKind
pub mod LastLine
pub mod BootMenu
pub mod Accel
pub mod Accelerator
