-- ===== src/VmHardware/DiskEdits.antt =====
-- src/core/vmhardware.cpp: disks and drives added, changed and removed.
use qemu_gui_manager.Prelude.{
  ℕ, suc, Bool, true, false, ◌&&◌, Option, none, some, List, [], ◌∷◌, ◌++◌, ltb, if◌then◌else◌,
  length, get_elem?, remove_at, modify_at,
}
use qemu_gui_manager.Text.{Text, codes, is_empty, text_eq, starts_with}
use qemu_gui_manager.Numbers.{number}
use qemu_gui_manager.OptionValue.{parse, implied, has, get, escape}
use qemu_gui_manager.ArgsFile.{ArgsFile, kind_eq, indexes_from, indexes_of, value_at, option, Line}
use qemu_gui_manager.Fresh.{first_free}
use qemu_gui_manager.VmHardware.Lines.{last_index, later, set_key, insert_line}
use qemu_gui_manager.VmHardware.Machine.{machine_type}
use qemu_gui_manager.VmHardware.Disks.{
  disks, disk_format, Bus, virtio, sata, scsi, nvme, usb, other, Disk,
}

-- The ids in use, of every option.
unfoldable pub used_ids : ArgsFile → List Text
unfolding kind_eq parse get
used_ids [] = []
used_ids (l ∷ ls) =
    let v = parse l.value in
    let rest = used_ids ls in
    if kind_eq l.kind option
    then get (codes "id") [] v ∷ get (codes "node-name") [] v ∷ rest
    else rest

-- uniqueId: the fuel is one more than the ids in use.
unfoldable pub unique_id : ArgsFile → Text → Option Text
unfolding first_free used_ids number
unique_id args prefix =
    first_free (suc (length (used_ids args))) (λ n. prefix ++ number n) (used_ids args) 0

-- The loop of `diskAnchor`.
abbrev pub last_line : Option ℕ → List Disk → Option ℕ
last_line at [] = at
last_line at (d ∷ ds) = last_line (later at (later (some d.line) d.device_line)) ds

unfoldable pub disk_anchor : ArgsFile → Option ℕ
unfolding disks last_index
disk_anchor args = elim (last_line none (disks args)) [
  | none ↦ last_index (codes "drive") args
  | some i ↦ some i
]

-- The first virtio-scsi controller with an id: its line and its bus.
unfoldable pub scsi_bus : ArgsFile → List ℕ → Option (ℕ × Text)
unfolding value_at implied starts_with has get
scsi_bus args [] = none
scsi_bus args (i ∷ is) =
    let v = value_at args i in
    if starts_with (implied v) (codes "virtio-scsi") && has (codes "id") v
    then some (i, get (codes "id") [] v ++ codes ".0")
    else scsi_bus args is

-- The drive and its device, once the bus is known.
unfoldable pub insert_scsi_drive : Option ℕ → Text → Text → Bool → ArgsFile → Option ArgsFile
unfolding unique_id insert_line
insert_scsi_drive at bus drive cdrom args =
    elim (unique_id args (if cdrom then codes "cd" else codes "disk")) [
      | none ↦ none
      | some id ↦
          let (file, i) =
            insert_line at (codes "drive") (drive ++ (codes ",if=none,id=" ++ id)) args in
          let device =
            (if cdrom then codes "scsi-cd" else codes "scsi-hd")
            ++ (codes ",drive=" ++ (id ++ (codes ",bus=" ++ bus))) in
          some (insert_line (some i) (codes "device") device file).0
    ]

-- insertScsi; `none` only where the fuel of an id runs out. The bus of an empty id is `.0`, which is
-- not empty either.
unfoldable pub insert_scsi : Text → Bool → ArgsFile → Option ArgsFile
unfolding disk_anchor scsi_bus indexes_from unique_id insert_line insert_scsi_drive
insert_scsi drive cdrom args =
    let at = disk_anchor args in
    elim (scsi_bus args (indexes_of (codes "device") option args)) [
      | some (i, bus) ↦ insert_scsi_drive (later at (some i)) bus drive cdrom args
      | none ↦ elim (unique_id args (codes "scsi")) [
        | none ↦ none
        | some id ↦
            let (file, i) =
              insert_line at (codes "device") (codes "virtio-scsi-pci,id=" ++ id) args in
            insert_scsi_drive (some i) (id ++ codes ".0") drive cdrom file
      ]
    ]

abbrev pub bus_is : Bus → Bus → Bool
bus_is virtio virtio = true
bus_is sata sata = true
bus_is scsi scsi = true
bus_is nvme nvme = true
bus_is usb usb = true
bus_is other other = true
bus_is _ _ = false

-- The value of a new -drive, before its interface.
unfoldable pub disk_value : Text → Text
unfolding escape disk_format
disk_value file =
    let value = codes "file=" ++ escape file in
    if is_empty (disk_format file) then value else value ++ (codes ",format=" ++ disk_format file)

unfoldable pub add_disk : Text → Bus → ArgsFile → Option ArgsFile
unfolding disk_value insert_scsi insert_line disk_anchor
add_disk file bus args =
    let value = disk_value file in
    if bus_is bus scsi
    then insert_scsi (value ++ codes ",discard=unmap") false args
    else let drive =
        value
        ++ ((if bus_is bus sata then codes ",if=ide" else codes ",if=virtio")
            ++ codes ",discard=unmap") in
      some (insert_line (disk_anchor args) (codes "drive") drive args).0

unfoldable pub add_cdrom : Text → ArgsFile → Option ArgsFile
unfolding escape machine_type starts_with insert_scsi insert_line disk_anchor
add_cdrom iso args =
    let file = if is_empty iso then [] else codes "file=" ++ (escape iso ++ codes ",") in
    let value = file ++ codes "media=cdrom,readonly=on" in
    if starts_with (machine_type args) (codes "virt")
    then insert_scsi value true args
    else some (insert_line (disk_anchor args) (codes "drive") value args).0

-- The line of the drive and that of its device, the later one first.
unfoldable pub remove_disk : Disk → ArgsFile → ArgsFile
remove_disk d args = elim d.device_line [
  | none ↦ remove_at d.line args
  | some j ↦
      if ltb d.line j
      then remove_at d.line (remove_at j args)
      else remove_at j (remove_at d.line args)
]

-- The line of an empty -cdrom, as a drive.
abbrev pub set_cdrom : Text → Line → Line
set_cdrom iso l =
    if is_empty iso
    then record l { name = codes "drive"; value = codes "index=2,media=cdrom,readonly=on" }
    else record l { value = iso }

unfoldable pub set_disc : Disk → Text → ArgsFile → ArgsFile
unfolding text_eq set_key
set_disc drive iso args = elim (get_elem? args drive.line) [
  | none ↦ args
  | some l ↦
      if text_eq l.name (codes "cdrom")
      then modify_at drive.line (set_cdrom iso) args
      else set_key drive.line (codes "file") iso args
]
