-- ===== src/VmHardware/FirstDevice.antt =====
-- src/core/vmhardware.cpp: the choice of the first boot device.
use qemu_gui_manager.Prelude.{
  ℕ, suc, Bool, true, false, not, ◌||◌, Option, none, some, List, [], ◌∷◌, ◌++◌, bool_eq,
  if◌then◌else◌, get_elem?, insert_at, modify_at,
}
use qemu_gui_manager.VmHardware.DiskEdits.{unique_id}
use qemu_gui_manager.Text.{Text, codes, is_empty, text_eq, one_of}
use qemu_gui_manager.OptionValue.{
  OptionValue, parse, implied, has, get, set, set_flag, remove, to_string,
}
use qemu_gui_manager.ArgsFile.{ArgsFile, named_line, value_at, set_value_at, option, Line}
use qemu_gui_manager.VmHardware.Lines.{last_index, set_key}
use qemu_gui_manager.VmHardware.Disks.{hard_disks, iface, disks, Disk}
use qemu_gui_manager.VmHardware.Boot.{
  boot, write_or_remove, nic_lines, is_set, bootindex_key, BootDevice, default, disk, cdrom,
  network,
}

-- What `splitDrive` does: no id within the fuel, -1, or the file and the device's line.
pub data Split : Type 0 where
  no_id unsplit : Split
  split_at : ArgsFile → ℕ → Split

abbrev pub remove_keys : List Text → OptionValue → OptionValue
remove_keys [] v = v
remove_keys (k ∷ ks) v = remove_keys ks (remove k v)

-- The driver of the new -device and the value of the -drive, before its id.
unfoldable pub split_value : Bool → Line → Option (Text × OptionValue)
unfolding text_eq parse get remove one_of set
split_value is_cdrom l =
    let v = parse l.value in
    let bare = remove_keys (codes "if" ∷ codes "index" ∷ codes "bus" ∷ codes "unit" ∷ []) v in
    if text_eq l.name (codes "drive")
    then if text_eq (iface v) (codes "virtio")
      then some (codes "virtio-blk-pci", bare)
      else if text_eq (iface v) (codes "ide")
      then some (if is_cdrom then codes "ide-cd" else codes "ide-hd", bare)
      else none
    else if one_of l.name hard_disks
    then some (codes "ide-hd", set (codes "file") l.value [])
    else if text_eq l.name (codes "cdrom")
    then some (codes "ide-cd", set (codes "media") (codes "cdrom") (set (codes "file") l.value []))
    else none

-- The two lines of the drive.
abbrev pub split_lines : ℕ → Text → Text → OptionValue → ArgsFile → ArgsFile
split_lines i driver id drive args =
    let v = set (codes "id") id (set (codes "if") (codes "none") drive) in
    insert_at (suc i) (named_line option (codes "device") (driver ++ (codes ",drive=" ++ id)))
      (modify_at i (λ l. record l { name = codes "drive"; value = to_string v }) args)

unfoldable pub split_drive : Disk → ArgsFile → Split
unfolding split_value unique_id set to_string
split_drive d args = elim (get_elem? args d.line) [
  | none ↦ unsplit
  | some l ↦ elim (split_value d.cdrom l) [
    | none ↦ unsplit
    | some (driver, drive) ↦ elim (unique_id args (if d.cdrom then codes "cd" else codes "disk")) [
      | none ↦ no_id
      | some id ↦ split_at (split_lines d.line driver id drive args) (suc d.line)
    ]
  ]
]

-- The loops that take bootindex away.
unfoldable pub clear_disks : List Disk → ArgsFile → ArgsFile
unfolding set_key
clear_disks [] args = args
clear_disks (d ∷ ds) args =
    let cleared : ArgsFile = elim d.device_line [
      | none ↦ args
      | some j ↦ if is_set d.bootindex then set_key j bootindex_key [] args else args
    ] in
    clear_disks ds cleared

unfoldable pub clear_nics : List ℕ → ArgsFile → ArgsFile
unfolding value_at has set_key
clear_nics [] args = args
clear_nics (i ∷ is) args =
    clear_nics is
      (if has bootindex_key (value_at args i) then set_key i bootindex_key [] args else args)

-- The loop over the items behind an implied order.
unfoldable pub keyed_items : OptionValue → OptionValue → OptionValue
unfolding set set_flag
keyed_items [] rest = rest
keyed_items (i ∷ is) rest = keyed_items is (
    if is_empty i.key
    then rest
    else if i.bare
    then set_flag i.key true rest
    else set i.key i.value rest)

unfoldable pub without_order : OptionValue → OptionValue
unfolding remove implied keyed_items
without_order v =
    let bare = remove (codes "order") v in
    if is_empty (implied v) then bare else keyed_items bare []

unfoldable pub clear_order : ArgsFile → ArgsFile
unfolding last_index value_at without_order set_value_at
clear_order args = elim (last_index boot args) [
  | none ↦ args
  | some i ↦ write_or_remove i (without_order (value_at args i)) args
]

-- Everything that decides the first device is taken away.
unfoldable pub clear_boot : ArgsFile → ArgsFile
unfolding disks clear_disks nic_lines clear_nics clear_order
clear_boot args =
    let file = clear_disks (disks args) args in clear_order (clear_nics (nic_lines file) file)

-- The loop that looks for the disk or drive; `none` only where the fuel of an id runs out.
unfoldable pub boot_disk : Bool → List Disk → ArgsFile → Option (ArgsFile × Bool)
unfolding split_drive set_key
boot_disk wanted [] args = some (args, false)
boot_disk wanted (d ∷ ds) args =
    let rest = boot_disk wanted ds args in
    if not (bool_eq d.cdrom wanted) || not d.editable then rest else elim d.device_line [
      | some j ↦ some (set_key j bootindex_key (codes "1") args, true)
      | none ↦ elim (split_drive d args) [
        | no_id ↦ none
        | unsplit ↦ rest
        | split_at file j ↦ some (set_key j bootindex_key (codes "1") file, true)
      ]
    ]

unfoldable pub boot_nic : List ℕ → ArgsFile → ArgsFile × Bool
unfolding set_key
boot_nic [] args = (args, false)
boot_nic (i ∷ is) args = (set_key i bootindex_key (codes "1") args, true)

unfoldable pub set_first_boot_device : BootDevice → ArgsFile → Option (ArgsFile × Bool)
unfolding clear_boot nic_lines boot_nic disks boot_disk
set_first_boot_device device args =
    let cleared = clear_boot args in
    elim device [
      | default ↦ some (cleared, true)
      | network ↦ some (boot_nic (nic_lines cleared) cleared)
      | disk ↦ boot_disk false (disks cleared) cleared
      | cdrom ↦ boot_disk true (disks cleared) cleared
    ]
