-- ===== src/Tests/Hardware.antt =====
-- The hardware of a VM: concrete files.
use qemu_gui_manager.VmHardware.FlashLines.{IsFirmwareLine, use_bios-LeavesOut, LeavesOut}
use qemu_gui_manager.Prelude.{ℕ, ◌≡◌, refl, ◌≢◌, true, none, some, [], ◌∷◌, get_elem?}
use qemu_gui_manager.VmHardware.DiskEdits.{add_disk, add_cdrom, remove_disk}
use qemu_gui_manager.Text.{Text, codes, text_eq, has_char}
use qemu_gui_manager.OptionValue.{split_from}
use qemu_gui_manager.ArgsFile.{ArgsFile, kind_eq, named_line, canonical_name, indexes_from, option}
use qemu_gui_manager.VmHardware.Machine.{
  machine_type, set_machine_type, accel, first_with, set_accel, set_accel_property,
}
use qemu_gui_manager.VmHardware.MachineType.{machine_type-set_machine_type}
use qemu_gui_manager.VmHardware.Accelerator.{accel-set_accel}
use qemu_gui_manager.VmHardware.Disks.{disks, disk_format, Bus, sata}
use qemu_gui_manager.VmHardware.AddedDisk.{new_disk, remove_disk-add_disk}
use qemu_gui_manager.VmHardware.Ids.{disk_edits-end}
use qemu_gui_manager.VmHardware.Boot.{
  firmware_kind, use_bios, boot_menu, set_boot_menu, first_boot_device, FirmwareKind, bios,
  BootDevice, cdrom,
}
use qemu_gui_manager.VmHardware.Firmware.{firmware_kind-use_bios}
use qemu_gui_manager.VmHardware.BootMenu.{boot_menu-set_boot_menu_on}
use qemu_gui_manager.VmHardware.FirstDevice.{set_first_boot_device}

abbrev hardware : ArgsFile
hardware =
    named_line option (codes "name") (codes "guest=box")
    ∷ named_line option (codes "machine") (codes "q35,accel=kvm")
    ∷ named_line option (codes "drive") (codes "if=pflash,file=code.fd,readonly=on")
    ∷ named_line option (codes "device") (codes "virtio-vga-gl,venus=on")
    ∷ named_line option (codes "boot") (codes "order=d")
    ∷ []

reads_machine : (machine_type hardware ≡ codes "q35") × (accel hardware ≡ codes "kvm")
unfolding machine_type accel
reads_machine = (refl, refl)

adds_disk :
    add_disk (codes "/vm/a.qcow2") Bus.virtio (named_line option (codes "m") (codes "4G") ∷ [])
    ≡ some (
        named_line option (codes "m") (codes "4G")
        ∷ named_line option
            (codes "drive")
            (codes "file=/vm/a.qcow2,format=qcow2,if=virtio,discard=unmap")
        ∷ [])
unfolding add_disk disk_format
adds_disk = refl

-- An accelerator that -machine gives moves to -accel with its first property.
moves_accel :
    set_accel_property
      (codes "honor-guest-pat")
      (codes "on")
      (named_line option (codes "machine") (codes "q35,accel=kvm") ∷ [])
    ≡ named_line option (codes "machine") (codes "q35")
      ∷ named_line option (codes "accel") (codes "kvm,honor-guest-pat=on")
      ∷ []
unfolding set_accel_property
moves_accel = refl

chooses_disk : first_boot_device hardware ≡ cdrom
unfolding first_boot_device
chooses_disk = refl

machine_type-set_machine_type_example :
    machine_type (set_machine_type (codes "pc") hardware) ≡ codes "pc"
unfolding has_char kind_eq text_eq canonical_name split_from
machine_type-set_machine_type_example =
    machine_type-set_machine_type (codes "pc") hardware (λ e. cc) refl refl
      ((refl, refl, (refl, (λ e. cc), tt)), tt)

accel-set_accel_example : accel (set_accel (codes "tcg") hardware) ≡ codes "tcg"
unfolding has_char kind_eq text_eq canonical_name split_from indexes_from first_with
accel-set_accel_example =
    accel-set_accel (codes "tcg") hardware (λ e. cc) refl refl tt
      ((refl, refl, (refl, (λ e. cc), tt)), tt) ((λ e. refl), tt)

remove_disk-add_disk_example :
    (out : ArgsFile) × (i : ℕ) × (n : ℕ) × (add_disk (codes "/vm/a.qcow2") sata hardware ≡ some out)
    × (get_elem? (disks out) n ≡ some (new_disk i (codes "/vm/a.qcow2") sata))
    × (remove_disk (new_disk i (codes "/vm/a.qcow2") sata) out ≡ hardware)
remove_disk-add_disk_example = remove_disk-add_disk (codes "/vm/a.qcow2") sata hardware refl

disk_edits-end_example :
    ((file : Text) (bus : Bus) → add_disk file bus hardware ≢ none)
    × ((iso : Text) → add_cdrom iso hardware ≢ none)
    × ((device : BootDevice) → set_first_boot_device device hardware ≢ none)
disk_edits-end_example = disk_edits-end hardware

use_bios-LeavesOut_example : LeavesOut IsFirmwareLine hardware (use_bios hardware)
use_bios-LeavesOut_example = use_bios-LeavesOut hardware

firmware_kind-use_bios_example :
    (firmware_kind [] hardware ≡ FirmwareKind.custom
      → firmware_kind [] (use_bios hardware) ≡ FirmwareKind.custom)
    × (firmware_kind [] hardware ≢ FirmwareKind.custom
        → firmware_kind [] (use_bios hardware) ≡ bios)
firmware_kind-use_bios_example = firmware_kind-use_bios [] hardware

boot_menu-set_boot_menu_on_example : boot_menu (set_boot_menu true hardware) ≡ true
unfolding kind_eq text_eq canonical_name split_from
boot_menu-set_boot_menu_on_example = boot_menu-set_boot_menu_on hardware ((refl, refl, tt), tt)
