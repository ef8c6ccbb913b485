-- ===== src/Cloner.antt =====
-- src/core/vmcloner.cpp: the arguments of a clone and the files that are copied for it.
pub mod Copies
use qemu_gui_manager.Prelude.{
  ℕ, suc, ◌/◌, ◌%◌, Bool, false, not, ◌&&◌, ◌||◌, Option, none, some, List, [], ◌∷◌, ◌++◌, ◌==◌,
  if◌then◌else◌, length, get_elem?, last,
}
use qemu_gui_manager.Text.{Text, codes, text_eq, one_of, has_char, starts_with, file_name}
use qemu_gui_manager.Numbers.{digits, number, hex_digit}
use qemu_gui_manager.OptionValue.{OptionValue, parse, has, get, flag, set, to_string}
use qemu_gui_manager.ArgsFile.{ArgsFile, kind_eq, option, Line}
use qemu_gui_manager.Fresh.{first_free}
use qemu_gui_manager.VmConfig.Name.{name, set_name}
use qemu_gui_manager.VmConfig.Files.{files, set_file, FileRef}
use qemu_gui_manager.VmHardware.Disks.{suffix}
use qemu_gui_manager.OptionValue

-- Whether the VM writes a file, by the line that names it.
abbrev written_options : List Text
written_options =
    codes "hda"
    ∷ codes "hdb"
    ∷ codes "hdc"
    ∷ codes "hdd"
    ∷ codes "fda"
    ∷ codes "fdb"
    ∷ codes "pflash"
    ∷ codes "mtdblock"
    ∷ codes "sd"
    ∷ []

abbrev drive_writes : OptionValue → Bool
drive_writes v =
    text_eq (get (codes "if") [] v) (codes "pflash")
    || (not (text_eq (get (codes "media") [] v) (codes "cdrom"))
        && not (flag (codes "readonly") false v))

unfoldable pub line_writes : Line → Bool
unfolding OptionValue.parse text_eq get flag one_of
line_writes l =
    if text_eq l.name (codes "drive")
    then drive_writes (OptionValue.parse l.value)
    else if text_eq l.name (codes "blockdev")
    then not (flag (codes "read-only") false (OptionValue.parse l.value))
    else one_of l.name written_options

unfoldable pub writes : ArgsFile → FileRef → Bool
unfolding line_writes
writes args file = elim (get_elem? args file.line) [ none ↦ false | some l ↦ line_writes l ]

-- The two hexadecimal digits of a byte
abbrev pub hex_byte : ℕ → Text
hex_byte n = hex_digit (n / 16) ∷ hex_digit (n % 16) ∷ []

unfoldable pub new_mac : ℕ × ℕ × ℕ → Text
unfolding hex_digit
new_mac (a, b, c) =
    codes "52:54:00:" ++ (hex_byte a ++ (codes ":" ++ (hex_byte b ++ (codes ":" ++ hex_byte c))))

-- What QDir and QFileInfo do for the folders of the source and the clone: `source` is
-- cleanPath(source.absoluteFilePath(path)), `inside` source.relativeFilePath, `target`
-- target.filePath. `uuid` and `bytes` are what is drawn at random for a line.
pub record Folders : Type 0 where
  pub source : Text → Text
  pub inside : Text → Text
  pub target : Text → Text
  pub is_relative : Text → Bool
  pub exists : Text → Bool
  pub uuid : ℕ → Text
  pub bytes : ℕ → ℕ × ℕ × ℕ

-- completeBaseName(): what is before the last dot
unfoldable pub complete_base : Text → Text
unfolding has_char
complete_base [] = []
complete_base (c ∷ cs) =
    let rest = complete_base cs in if c == b'.' && not (has_char b'.' cs) then [] else c ∷ rest

abbrev pub numbered : Text → ℕ → Text
numbered name n = complete_base name ++ (codes "-" ++ (number n ++ (codes "." ++ suffix name)))

-- The loop that numbers a copy until its name is not taken.
unfoldable pub free_copy : Text → Text → List Text → Option Text
unfolding one_of first_free number complete_base suffix
free_copy copy name taken =
    if one_of copy taken then first_free (suc (length taken)) (numbered name) taken 2 else some copy

pub record Clone : Type 0 where
  pub args : ArgsFile
  pub taken : List Text
  pub copies : List (Text × Text)

abbrev pub first_copy : Folders → Text → Text
first_copy d path =
    if starts_with (d.inside path) (codes "..") then file_name path else d.inside path

abbrev pub put_copy : Folders → FileRef → Text → Clone → Text → Clone
put_copy d file path c copy = record {
  args = set_file file copy c.args;
  taken = c.taken ++ (copy ∷ []);
  copies = if d.exists path then c.copies ++ ((path, d.target copy) ∷ []) else c.copies;
}

-- One round of the loop over the files.
unfoldable pub copy_file : Folders → ArgsFile → FileRef → Clone → Option Clone
unfolding writes set_file starts_with file_name free_copy
copy_file d args file c =
    let path = d.source file.path in
    if not (writes args file)
    then some (if d.is_relative file.path then record c { args = set_file file path c.args } else c)
    else elim (free_copy (first_copy d path) (file_name path) c.taken) [
      | none ↦ none
      | some copy ↦ some (put_copy d file path c copy)
    ]

unfoldable pub copy_files : Folders → ArgsFile → List FileRef → Clone → Option Clone
unfolding copy_file
copy_files d args [] c = some c
copy_files d args (f ∷ fs) c = elim (copy_file d args f c) [
  | none ↦ none
  | some next ↦ copy_files d args fs next
]

-- The loop over the lines: a new uuid, and a new MAC address.
abbrev mac_key : OptionValue → Text
mac_key v = if has (codes "mac") v then codes "mac" else codes "macaddr"

abbrev has_mac : Text → OptionValue → Bool
has_mac name v =
    (text_eq name (codes "device") && has (codes "mac") v)
    || ((text_eq name (codes "net") || text_eq name (codes "nic")) && has (codes "macaddr") v)

unfoldable pub renew_line : Folders → ℕ → Line → Line
unfolding kind_eq text_eq OptionValue.parse has new_mac set to_string
renew_line d i l =
    let v = OptionValue.parse l.value in
    if not (kind_eq l.kind option)
    then l
    else if text_eq l.name (codes "uuid")
    then record l { value = d.uuid i }
    else if has_mac l.name v
    then record l { value = to_string (set (mac_key v) (new_mac (d.bytes i)) v) }
    else l

unfoldable pub renew_lines : Folders → ℕ → ArgsFile → ArgsFile
unfolding renew_line
renew_lines d i [] = []
renew_lines d i (l ∷ ls) = renew_line d i l ∷ renew_lines d (suc i) ls

-- plan: the arguments of the clone, and the copies; `none` only where the fuel runs out
unfoldable pub plan : Folders → ArgsFile → Text → Option (ArgsFile × List (Text × Text))
unfolding set_name files copy_files renew_lines
plan d args name =
    elim (copy_files d args (files args)
      (record { args = set_name name args; taken = []; copies = [] })) [
        | none ↦ none
        | some c ↦ some (renew_lines d 0 c.args, c.copies)
      ]
