-- ===== src/VmHardware/Disks.antt =====
-- src/core/vmhardware.cpp: hard disks and CD/DVD drives.
use qemu_gui_manager.Prelude.{
  ℕ, suc, Bool, true, false, not, ◌||◌, Option, none, some, List, [], ◌∷◌, if◌then◌else◌, last,
}
use qemu_gui_manager.Text.{
  Text, codes, is_empty, text_eq, one_of, split, to_lower, file_name, ends_with,
}
use qemu_gui_manager.Numbers.{to_int, ℤ, negsuc}
use qemu_gui_manager.OptionValue.{OptionValue, parse, implied, has, get}
use qemu_gui_manager.ArgsFile.{ArgsFile, kind_eq, indexes_from, indexes_of, value_at, option, Line}

pub data Bus : Type 0 where
  virtio sata scsi nvme usb other : Bus

-- `line` is always the index of a line; `device_line` is `none` for -1.
pub record Disk : Type 0 where
  pub line : ℕ
  pub device_line : Option ℕ
  pub file : Text
  pub cdrom : Bool
  pub bus : Bus
  pub format : Text
  pub bootindex : ℤ
  pub editable : Bool

-- kHardDisks
abbrev pub hard_disks : List Text
hard_disks = codes "hda" ∷ codes "hdb" ∷ codes "hdc" ∷ codes "hdd" ∷ []

-- kDiskDevices
abbrev pub disk_devices : List (Text × Bus)
disk_devices =
    (codes "virtio-blk-pci", virtio)
    ∷ (codes "virtio-blk", virtio)
    ∷ (codes "virtio-blk-pci-non-transitional", virtio)
    ∷ (codes "ide-hd", sata)
    ∷ (codes "ide-cd", sata)
    ∷ (codes "ide-drive", sata)
    ∷ (codes "scsi-hd", scsi)
    ∷ (codes "scsi-cd", scsi)
    ∷ (codes "scsi-block", scsi)
    ∷ (codes "nvme", nvme)
    ∷ (codes "usb-storage", usb)
    ∷ []

-- kDiskDevices.value(driver, Disk::Other)
unfoldable pub bus_of : Text → List (Text × Bus) → Bus
unfolding text_eq
bus_of driver [] = other
bus_of driver ((d, b) ∷ more) = if text_eq d driver then b else bus_of driver more

-- One round of the loop over the -device lines of an if=none drive.
abbrev pub attach : ℕ → OptionValue → Disk → Disk
attach j dev d = record d {
  device_line = some j;
  bus = bus_of (implied dev) disk_devices;
  cdrom = d.cdrom || ends_with (implied dev) (codes "-cd");
  editable = true;
  bootindex =
      if has (codes "bootindex") dev then to_int (get (codes "bootindex") [] dev) else d.bootindex;
}

unfoldable pub attach_devices : ArgsFile → Text → List ℕ → Disk → Disk
unfolding value_at get text_eq bus_of implied ends_with has to_int
attach_devices args id [] d = d
attach_devices args id (j ∷ js) d =
    let dev = value_at args j in
    attach_devices args id js
      (if is_empty id || not (text_eq (get (codes "drive") [] dev) id) then d else attach j dev d)

abbrev pub plain_disk : ℕ → Text → Bool → Bus → Disk
plain_disk i file cdrom bus = record {
  line = i;
  device_line = none;
  file = file;
  cdrom = cdrom;
  bus = bus;
  format = [];
  bootindex = negsuc 0;
  editable = true;
}

-- The interfaces whose drives are no disks.
abbrev pub no_disks : List Text
no_disks = codes "pflash" ∷ codes "mtd" ∷ codes "sd" ∷ codes "floppy" ∷ []

abbrev pub iface : OptionValue → Text
iface v = get (codes "if") (codes "ide") v

abbrev pub iface_bus : Text → Bus
iface_bus f =
    if text_eq f (codes "virtio")
    then virtio
    else if text_eq f (codes "ide")
    then sata
    else if text_eq f (codes "scsi")
    then scsi
    else other

-- A -drive that is a disk.
unfoldable pub drive_disk : ArgsFile → ℕ → OptionValue → Disk
unfolding get text_eq attach_devices indexes_from
drive_disk args i v =
    let d =
      record (plain_disk i (get (codes "file") [] v)
        (text_eq (get (codes "media") [] v) (codes "cdrom")) (iface_bus (iface v))) {
          format = get (codes "format") [] v;
        } in
    if text_eq (iface v) (codes "none")
    then attach_devices args (get (codes "id") [] v) (indexes_of (codes "device") option args)
        (record d { editable = false })
    else d

-- The body of the loop of `disks`, for an option.
unfoldable pub disk_of : ArgsFile → ℕ → Line → Option Disk
unfolding text_eq one_of parse get has drive_disk
disk_of args i l =
    let v = parse l.value in
    if text_eq l.name (codes "drive")
    then if one_of (iface v) no_disks then none else some (drive_disk args i v)
    else if one_of l.name hard_disks
    then some (plain_disk i l.value false sata)
    else if text_eq l.name (codes "cdrom")
    then some (plain_disk i l.value true sata)
    else if text_eq l.name (codes "blockdev")
    then if has (codes "filename") v
      then some
          (record (plain_disk i (get (codes "filename") [] v) false other) { editable = false })
      else none
    else none

abbrev pub with_disk : Option Disk → List Disk → List Disk
with_disk none ds = ds
with_disk (some d) ds = d ∷ ds

unfoldable pub disks_from : ArgsFile → ℕ → ArgsFile → List Disk
unfolding kind_eq disk_of
disks_from args i [] = []
disks_from args i (l ∷ ls) =
    let rest = disks_from args (suc i) ls in
    if kind_eq l.kind option then with_disk (disk_of args i l) rest else rest

unfoldable pub disks : ArgsFile → List Disk
unfolding disks_from
disks args = disks_from args 0 args

-- QFileInfo(path).suffix(): what is behind the last dot of the file's name.
unfoldable pub suffix : Text → Text
unfolding file_name split
suffix path = elim (split b'.' (file_name path)) [
  | [] ↦ []
  | w ∷ ws ↦ elim (last ws) [ none ↦ [] | some s ↦ s ]
]

unfoldable pub disk_format : Text → Text
unfolding suffix to_lower one_of text_eq
disk_format path =
    let s = to_lower (suffix path) in
    if one_of s (codes "qcow2" ∷ codes "vdi" ∷ codes "vmdk" ∷ codes "vhdx" ∷ [])
    then s
    else if text_eq s (codes "vhd")
    then codes "vpc"
    else if one_of s (codes "img" ∷ codes "raw" ∷ codes "iso" ∷ [])
    then codes "raw"
    else []
