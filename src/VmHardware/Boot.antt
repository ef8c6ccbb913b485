-- ===== src/VmHardware/Boot.antt =====
-- src/core/vmhardware.cpp: the firmware, the boot menu and the first boot device.
use qemu_gui_manager.Prelude.{
  ℕ, zero, suc, ◌-◌, ◌^◌, Bool, true, false, not, ◌&&◌, ◌||◌, none, some, List, [], ◌∷◌, map, ltb,
  ◌==◌, if◌then◌else◌, length, get_elem?, remove_at,
}
use qemu_gui_manager.Text.{
  Text, codes, is_empty, text_eq, one_of, starts_with_char, to_lower, contains, file_name,
}
use qemu_gui_manager.Numbers.{to_int, ℤ, pos, negsuc}
use qemu_gui_manager.OptionValue.{OptionValue, parse, implied, has, get, flag, set, remove}
use qemu_gui_manager.ArgsFile.{
  ArgsFile, kind_eq, indexes_from, indexes_of, line_index, text_at, value_at, set_value_at, option,
  Line,
}
use qemu_gui_manager.VmHardware.Lines.{last_index, insert_after}
use qemu_gui_manager.VmHardware.Disks.{disks, Disk}
use qemu_gui_manager.VmHardware.Machine.{machine, accel_key, has_line}

pub data FirmwareKind : Type 0 where
  bios uefi uefi_secure_boot custom : FirmwareKind

-- What is used of a Firmware of src/core/firmware.h.
pub record Firmware : Type 0 where
  pub code : Text
  pub features : List Text

abbrev pub unit_zero : OptionValue → Bool
unit_zero v = text_eq (get (codes "unit") [] v) (codes "0") || flag (codes "readonly") false v

abbrev pub is_pflash : OptionValue → Bool
is_pflash v = text_eq (get (codes "if") [] v) (codes "pflash")

unfoldable pub is_secure_flash : OptionValue → Bool
unfolding text_eq get has
is_secure_flash global =
    (text_eq (get (codes "driver") [] global) (codes "cfi.pflash01")
      && text_eq (get (codes "property") [] global) (codes "secure"))
    || has (codes "cfi.pflash01.secure") global

unfoldable pub any_with : Text → ArgsFile → List ℕ → Bool
unfolding value_at has
any_with k args [] = false
any_with k args (i ∷ is) = has k (value_at args i) || any_with k args is

-- The two loops of `firmwareKind` over the pflash drives: whether there is one, and the code.
unfoldable pub drive_code : ArgsFile → List ℕ → Bool × Text → Bool × Text
unfolding value_at get text_eq flag file_name
drive_code args [] found = found
drive_code args (i ∷ is) found =
    let v = value_at args i in
    let name =
      if is_empty found.1 || unit_zero v then file_name (get (codes "file") [] v) else found.1 in
    drive_code args is (if is_pflash v then (true, name) else found)

unfoldable pub pflash_code : ArgsFile → List ℕ → Bool × Text → Bool × Text
unfolding text_at file_name
pflash_code args [] found = found
pflash_code args (i ∷ is) found =
    pflash_code args is (true, if is_empty found.1 then file_name (text_at args i) else found.1)

abbrev pub secure_if : Bool → FirmwareKind
secure_if secure = if secure then uefi_secure_boot else uefi

-- What Qt::CaseInsensitive compares: the letters folded, also the long s.
abbrev pub fold_case : Text → Text
fold_case t = map (λ c. if c == 0x17f then b's' else c) (to_lower t)

-- The loop over the firmware descriptors.
unfoldable pub kind_of_code : List Firmware → Text → FirmwareKind
unfolding file_name text_eq one_of contains to_lower
kind_of_code [] code = secure_if (contains (fold_case code) (codes "secboot"))
kind_of_code (fw ∷ fws) code =
    if text_eq (file_name fw.code) code
    then secure_if (one_of (codes "secure-boot") fw.features)
    else kind_of_code fws code

-- firmwareKind, by what FirmwareDb::list gives.
unfoldable pub firmware_kind : List Firmware → ArgsFile → FirmwareKind
unfolding line_index any_with indexes_from drive_code pflash_code kind_of_code
firmware_kind fws args =
    let drives = drive_code args (indexes_of (codes "drive") option args) (false, []) in
    let (pflash, code) = pflash_code args (indexes_of (codes "pflash") option args) drives in
    if has_line (codes "bios") args
      || any_with (codes "pflash0") args (indexes_of machine option args)
    then custom
    else if not pflash
    then bios
    else kind_of_code fws code

-- The lines of the firmware.
unfoldable pub is_flash : Line → Bool
unfolding kind_eq text_eq parse get is_secure_flash
is_flash l =
    kind_eq l.kind option
    && ((text_eq l.name (codes "drive") && is_pflash (parse l.value))
        || text_eq l.name (codes "pflash")
        || (text_eq l.name (codes "global") && is_secure_flash (parse l.value)))

-- The loop of `useBios` from the last line down; `n` lines are left to look at.
unfoldable pub use_bios_below : ℕ → ArgsFile → ArgsFile
unfolding is_flash
use_bios_below zero args = args
use_bios_below (suc n) args = elim (get_elem? args n) [
  | none ↦ use_bios_below n args
  | some l ↦ use_bios_below n (if is_flash l then remove_at n args else args)
]

unfoldable pub use_bios : ArgsFile → ArgsFile
unfolding use_bios_below
use_bios args = use_bios_below (length args) args

abbrev pub boot : Text
boot = codes "boot"

unfoldable pub boot_menu : ArgsFile → Bool
unfolding last_index value_at flag
boot_menu args = elim (last_index boot args) [
  | none ↦ false
  | some i ↦ flag (codes "menu") false (value_at args i)
]

-- The line goes where nothing is left of its value.
abbrev pub write_or_remove : ℕ → OptionValue → ArgsFile → ArgsFile
write_or_remove i v args = if is_empty v then remove_at i args else set_value_at i v args

unfoldable pub set_boot_menu : Bool → ArgsFile → ArgsFile
unfolding last_index insert_after value_at set remove set_value_at
set_boot_menu on args = elim (last_index boot args) [
  | none ↦
      if on
      then (insert_after (accel_key ∷ machine ∷ []) boot (codes "menu=on") true args).0
      else args
  | some i ↦
      let v = value_at args i in
      write_or_remove i (if on then set (codes "menu") (codes "on") v else remove (codes "menu") v)
        args
]

unfoldable pub nics_of : ArgsFile → List ℕ → List ℕ
unfolding value_at has
nics_of args [] = []
nics_of args (i ∷ is) =
    let rest = nics_of args is in if has (codes "netdev") (value_at args i) then i ∷ rest else rest

unfoldable pub nic_lines : ArgsFile → List ℕ
unfolding nics_of indexes_from
nic_lines args = nics_of args (indexes_of (codes "device") option args)

pub data BootDevice : Type 0 where
  default disk cdrom network : BootDevice

-- a < b
abbrev pub lt_ℤ : ℤ → ℤ → Bool
lt_ℤ (pos a) (pos b) = ltb a b
lt_ℤ (pos a) (negsuc b) = false
lt_ℤ (negsuc a) (pos b) = true
lt_ℤ (negsuc a) (negsuc b) = ltb b a

abbrev pub is_set : ℤ → Bool
is_set (pos a) = true
is_set (negsuc a) = false

abbrev pub disk_or_cdrom : Bool → BootDevice
disk_or_cdrom true = cdrom
disk_or_cdrom false = disk

-- The loops of `firstBootDevice`; the pair is `best` and `device`.
unfoldable pub best_disk : List Disk → ℤ × BootDevice → ℤ × BootDevice
best_disk [] best = best
best_disk (d ∷ ds) best = best_disk ds (
    if is_set d.bootindex && lt_ℤ d.bootindex best.0
    then (d.bootindex, disk_or_cdrom d.cdrom)
    else best)

abbrev pub bootindex_key : Text
bootindex_key = codes "bootindex"

unfoldable pub best_nic : ArgsFile → List ℕ → ℤ × BootDevice → ℤ × BootDevice
unfolding value_at has get to_int
best_nic args [] best = best
best_nic args (i ∷ is) best =
    let v = value_at args i in
    let index = to_int (get bootindex_key [] v) in
    best_nic args is (if has bootindex_key v && lt_ℤ index best.0 then (index, network) else best)

unfoldable pub by_order : Text → BootDevice
by_order order =
    if starts_with_char order b'c'
    then disk
    else if starts_with_char order b'd'
    then cdrom
    else if starts_with_char order b'n'
    then network
    else default

unfoldable pub boot_order : ArgsFile → BootDevice
unfolding last_index value_at has get implied by_order
boot_order args = elim (last_index boot args) [
  | none ↦ default
  | some i ↦
      let v = value_at args i in
      by_order (if has (codes "order") v then get (codes "order") [] v else implied v)
]

abbrev pub device_or : BootDevice → BootDevice → BootDevice
device_or default d = d
device_or disk d = disk
device_or cdrom d = cdrom
device_or network d = network

unfoldable pub first_boot_device : ArgsFile → BootDevice
unfolding disks best_disk nic_lines best_nic boot_order
first_boot_device args =
    let best =
      best_nic args (nic_lines args) (best_disk (disks args) (pos (2 ^ 31 - 1), default)) in
    device_or best.1 (boot_order args)
