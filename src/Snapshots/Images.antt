-- ===== src/Snapshots/Images.antt =====
-- src/core/snapshots.cpp: the files that a VM writes to, and the snapshots in them.
use qemu_gui_manager.Prelude.{
  ℕ, ◌+◌, ◌*◌, ◌/◌, Bool, true, false, not, ◌&&◌, ◌||◌, Option, none, some, List, [], ◌∷◌, ◌++◌,
  ltb, if◌then◌else◌, get_elem?,
}
use qemu_gui_manager.Text.{Text, codes, is_empty, text_eq, one_of}
use qemu_gui_manager.OptionValue.{OptionValue, get, flag}
use qemu_gui_manager.ArgsFile.{ArgsFile, indexes_from, indexes_of, text_at, value_at, option}
use qemu_gui_manager.VmHardware.Disks.{disks, disk_format, Disk}
use qemu_gui_manager.VmHardware.Boot.{is_pflash}

-- VmSnapshots::Drive
pub record Drive : Type 0 where
  pub file : Text
  pub format : Text
  pub pflash : Bool

abbrev pub can_snapshot : Drive → Bool
can_snapshot d = text_eq d.format (codes "qcow2")

abbrev pub or_else : Text → Text → Text
or_else t fallback = if is_empty t then fallback else t

-- The name and the value of a disk's line.
abbrev pub is_unwritten : OptionValue → Bool
is_unwritten v =
    flag (codes "readonly") false v
    || flag (codes "read-only") false v
    || flag (codes "snapshot") false v

abbrev is_drive_line : ArgsFile → ℕ → Bool
is_drive_line args i = elim (get_elem? args i) [
  | none ↦ false
  | some l ↦ text_eq l.name (codes "drive") || text_eq l.name (codes "blockdev")
]

-- Whether a disk is a drive that is written to.
unfoldable pub is_written_disk : ArgsFile → Disk → Bool
unfolding text_eq value_at flag
is_written_disk args d =
    not (d.cdrom || is_empty d.file)
    && not (is_drive_line args d.line && is_unwritten (value_at args d.line))

-- The loops of `drives`; `absolute` is QDir(dir).absoluteFilePath.
unfoldable pub disk_drives : (Text → Text) → ArgsFile → List Disk → List Drive
unfolding is_written_disk disk_format
disk_drives absolute args [] = []
disk_drives absolute args (d ∷ ds) =
    let rest = disk_drives absolute args ds in
    if is_written_disk args d
    then record {
      file = absolute d.file;
      format = or_else d.format (disk_format d.file);
      pflash = false;
    }
      ∷ rest
    else rest

unfoldable pub flash_drives : (Text → Text) → ArgsFile → List ℕ → List Drive
unfolding value_at get text_eq flag disk_format
flash_drives absolute args [] = []
flash_drives absolute args (i ∷ is) =
    let v = value_at args i in
    let file = get (codes "file") [] v in
    let rest = flash_drives absolute args is in
    if not (is_pflash v) || is_empty file || flag (codes "readonly") false v
    then rest
    else record {
      file = absolute file;
      format = get (codes "format") (disk_format file) v;
      pflash = true;
    }
      ∷ rest

abbrev pub pflash_lines : (Text → Text) → ArgsFile → List ℕ → List Drive
pflash_lines absolute args [] = []
pflash_lines absolute args (i ∷ is) =
    record { file = absolute (text_at args i); format = codes "raw"; pflash = true }
    ∷ pflash_lines absolute args is

unfoldable pub drives : (Text → Text) → ArgsFile → List Drive
unfolding disk_drives disks flash_drives indexes_from text_at
drives absolute args =
    disk_drives absolute args (disks args)
    ++ (flash_drives absolute args (indexes_of (codes "drive") option args)
        ++ pflash_lines absolute args (indexes_of (codes "pflash") option args))

-- What is read of one snapshot in the JSON of an image.
pub record Entry : Type 0 where
  pub name : Text
  pub date_sec : ℕ
  pub date_nsec : ℕ
  pub clock_sec : ℕ
  pub clock_nsec : ℕ
  pub state_size : ℕ

-- VmSnapshots::Snapshot; the date in milliseconds since 1970
pub record Snapshot : Type 0 where
  pub name : Text
  pub date : ℕ
  pub clock_ms : ℕ
  pub state_bytes : ℕ
  pub files : List Text

abbrev pub millis : ℕ → ℕ → ℕ
millis sec nsec = sec * 1000 + nsec / 1000000

abbrev pub snapshot_of : Text → Entry → Snapshot
snapshot_of file e = record {
  name = e.name;
  date = millis e.date_sec e.date_nsec;
  clock_ms = millis e.clock_sec e.clock_nsec;
  state_bytes = e.state_size;
  files = file ∷ [];
}

abbrev pub larger : ℕ → ℕ → ℕ
larger a b = if ltb a b then b else a

-- The same snapshot in another file.
abbrev pub join_snapshot : Text → Entry → Snapshot → Snapshot
join_snapshot file e s = record s {
  files = if one_of file s.files then s.files else s.files ++ (file ∷ []);
  date = larger s.date (millis e.date_sec e.date_nsec);
  clock_ms = larger s.clock_ms (millis e.clock_sec e.clock_nsec);
  state_bytes = larger s.state_bytes e.state_size;
}

-- One round of the inner loop of `merge`: `byName` gives the place of a name in the list.
unfoldable pub merge_entry : Text → Entry → List Snapshot → List Snapshot
unfolding text_eq one_of
merge_entry file e [] = snapshot_of file e ∷ []
merge_entry file e (s ∷ ss) =
    if text_eq s.name e.name then join_snapshot file e s ∷ ss else s ∷ merge_entry file e ss

unfoldable pub merge_entries : Text → List Entry → List Snapshot → List Snapshot
unfolding merge_entry
merge_entries file [] ss = ss
merge_entries file (e ∷ es) ss = merge_entries file es (merge_entry file e ss)

unfoldable pub merge_images : List (Text × List Entry) → List Snapshot → List Snapshot
unfolding merge_entries
merge_images [] ss = ss
merge_images ((file, es) ∷ more) ss = merge_images more (merge_entries file es ss)

-- std::stable_sort by the date: an element goes before those that are later.
unfoldable pub insert_by_date : Snapshot → List Snapshot → List Snapshot
insert_by_date s [] = s ∷ []
insert_by_date s (t ∷ ts) = if ltb t.date s.date then t ∷ insert_by_date s ts else s ∷ t ∷ ts

unfoldable pub sort_by_date : List Snapshot → List Snapshot
unfolding insert_by_date
sort_by_date [] = []
sort_by_date (s ∷ ss) = insert_by_date s (sort_by_date ss)

unfoldable pub merge : List (Text × List Entry) → List Snapshot
unfolding merge_images sort_by_date
merge images = sort_by_date (merge_images images [])

-- What is read of one block device in the answer to query-block; `inserted` is `none` where the
-- object is empty.
pub record Inserted : Type 0 where
  pub read_only : Bool
  pub file : Text
  pub driver : Text
  pub node_name : Text
  pub snapshots : List Entry

pub record Block : Type 0 where
  pub device : Text
  pub inserted : Option Inserted

abbrev block_image : Option Inserted → List (Text × List Entry)
block_image none = []
block_image (some i) = if i.read_only then [] else (i.file, i.snapshots) ∷ []

unfoldable pub images : List Block → List (Text × List Entry)
images [] = []
images (b ∷ bs) = block_image b.inserted ++ images bs

-- The device of one action of the transaction; all of them have the name.
abbrev block_action : Text → Option Inserted → List Text
block_action device none = []
block_action device (some i) =
    if i.read_only || not (text_eq i.driver (codes "qcow2"))
    then []
    else or_else device i.node_name ∷ []

unfoldable pub disk_actions : List Block → List Text
unfolding text_eq
disk_actions [] = []
disk_actions (b ∷ bs) = block_action b.device b.inserted ++ disk_actions bs
