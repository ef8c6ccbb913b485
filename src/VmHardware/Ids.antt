-- ===== src/VmHardware/Ids.antt =====
-- src/core/vmhardware.cpp: the ids of new drives, and the edits with a new id.
use qemu_gui_manager.Prelude.{
  ℕ, suc, ◌≡◌, ◌≢◌, inl, inr, Bool, true, false, Option, none, some, List, [], ◌∷◌, ◌++◌, arith,
  if◌then◌else◌, Option-cases, length, get_elem?,
}
use qemu_gui_manager.VmHardware.DiskEdits.{
  used_ids, unique_id, disk_anchor, scsi_bus, insert_scsi_drive, insert_scsi, disk_value, add_disk,
  add_cdrom,
}
use qemu_gui_manager.Text.{Text, codes, is_empty, one_of}
use qemu_gui_manager.Numbers.{number}
use qemu_gui_manager.Numbers.Decimal.{number-injective}
use qemu_gui_manager.Fresh.{first_free_total, first_free-is_free}
use qemu_gui_manager.OptionValue.{escape}
use qemu_gui_manager.ArgsFile.{ArgsFile, indexes_of, option}
use qemu_gui_manager.VmHardware.Lines.{later, insert_line}
use qemu_gui_manager.VmHardware.Disks.{disks, Bus, Disk}
use qemu_gui_manager.VmHardware.Boot.{BootDevice, default, disk, cdrom, network}
use qemu_gui_manager.VmHardware.FirstDevice.{
  split_value, split_drive, clear_boot, boot_disk, set_first_boot_device, no_id,
}

append-cancel : (t a b : Text) → t ++ a ≡ t ++ b → a ≡ b
append-cancel [] a b e = e
append-cancel (c ∷ t) a b e = append-cancel t a b (cc (e))

-- An id that no line uses, as an id or a node name, is always found.
pub unique_id-is_free :
    (args : ArgsFile) (prefix : Text)
    → (n : ℕ) × (unique_id args prefix ≡ some (prefix ++ number n))
      × (one_of (prefix ++ number n) (used_ids args) ≡ false)
unfolding unique_id
unique_id-is_free args prefix =
    let used = used_ids args in
    let candidate : ℕ → Text = λ n. prefix ++ number n in
    let (n, e) =
      first_free_total candidate
        (λ a b q. number-injective a b (append-cancel prefix (number a) (number b) q))
        (suc (length used)) used 0 (omega arith) in
    (n, e, first_free-is_free candidate (suc (length used)) used 0 e)

insert_scsi_drive-total :
    (at : Option ℕ) (bus drive : Text) (is_cd : Bool) (args : ArgsFile)
    → insert_scsi_drive at bus drive is_cd args ≢ none
unfolding insert_scsi_drive
insert_scsi_drive-total at bus drive is_cd args =
    let (n, e, free) = unique_id-is_free args (if is_cd then codes "cd" else codes "disk") in
    rw (e, insert_scsi_drive) (λ q. cc)

insert_scsi-total :
    (drive : Text) (is_cd : Bool) (args : ArgsFile) → insert_scsi drive is_cd args ≢ none
unfolding insert_scsi
insert_scsi-total drive is_cd args =
    elim (Option-cases (scsi_bus args (indexes_of (codes "device") option args))) [
      | inr (r, e) ↦
          rw (e, insert_scsi)
            (insert_scsi_drive-total (later (disk_anchor args) (some r.0)) r.1 drive is_cd args)
      | inl e ↦
          let (n, f, free) = unique_id-is_free args (codes "scsi") in
          let id = codes "scsi" ++ number n in
          let made =
            insert_line (disk_anchor args) (codes "device") (codes "virtio-scsi-pci,id=" ++ id)
              args in
          rw (e, f, insert_scsi)
            (insert_scsi_drive-total (some made.1) (id ++ codes ".0") drive is_cd made.0)
    ]

add_disk-ends : (file : Text) (bus : Bus) (args : ArgsFile) → add_disk file bus args ≢ none
unfolding add_disk
add_disk-ends file bus args =
    ground (arith, insert_scsi-total (disk_value file ++ codes ",discard=unmap") false args)

add_cdrom-ends : (iso : Text) (args : ArgsFile) → add_cdrom iso args ≢ none
unfolding add_cdrom
add_cdrom-ends iso args = ground (
  arith,
  insert_scsi-total
      ((if is_empty iso then [] else codes "file=" ++ (escape iso ++ codes ","))
        ++ codes "media=cdrom,readonly=on")
      true args,
)

split_drive-has_id : (d : Disk) (args : ArgsFile) → split_drive d args ≢ no_id
unfolding split_drive
split_drive-has_id d args = elim (Option-cases (get_elem? args d.line)) [
  | inl e ↦ rw (e, split_drive) (λ q. cc)
  | inr (l, e) ↦ elim (Option-cases (split_value d.cdrom l)) [
    | inl f ↦ rw (e, f, split_drive) (λ q. cc)
    | inr (v, f) ↦
        let (n, g, free) = unique_id-is_free args (if d.cdrom then codes "cd" else codes "disk") in
        rw (e, f, g, split_drive) (λ q. cc)
  ]
]

boot_disk-ends :
    (wanted : Bool) (ds : List Disk) (args : ArgsFile) → boot_disk wanted ds args ≢ none
unfolding boot_disk
boot_disk-ends wanted [] args = λ q. cc
boot_disk-ends wanted (d ∷ ds) args =
    ground (arith, split_drive-has_id d args, boot_disk-ends wanted ds args)

set_first_boot_device-ends :
    (device : BootDevice) (args : ArgsFile) → set_first_boot_device device args ≢ none
unfolding set_first_boot_device
set_first_boot_device-ends default args = λ q. cc
set_first_boot_device-ends network args = λ q. cc
set_first_boot_device-ends disk args =
    boot_disk-ends false (disks (clear_boot args)) (clear_boot args)
set_first_boot_device-ends cdrom args =
    boot_disk-ends true (disks (clear_boot args)) (clear_boot args)

-- The edits that look for a new id all end, for every file: a disk or a CD/DVD drive is added on
-- any bus, and any boot device is chosen.
pub disk_edits-end :
    (args : ArgsFile)
    → ((file : Text) (bus : Bus) → add_disk file bus args ≢ none)
      × ((iso : Text) → add_cdrom iso args ≢ none)
      × ((device : BootDevice) → set_first_boot_device device args ≢ none)
disk_edits-end args = (
  λ file bus. add_disk-ends file bus args,
  λ iso. add_cdrom-ends iso args,
  λ device. set_first_boot_device-ends device args,
)
