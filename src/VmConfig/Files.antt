-- ===== src/VmConfig/Files.antt =====
-- src/core/vmconfig.cpp: the files that the arguments read.
use qemu_gui_manager.Prelude.{ℕ, suc, Bool, not, ◌&&◌, ◌||◌, List, [], ◌∷◌, ◌++◌, if◌then◌else◌}
use qemu_gui_manager.Text.{Text, codes, is_empty, text_eq, one_of, starts_with, contains}
use qemu_gui_manager.OptionValue.{OptionValue, parse, get, set}
use qemu_gui_manager.ArgsFile.{ArgsFile, kind_eq, value_at, set_text_at, set_value_at, option, Line}
use qemu_gui_manager.OptionValue

-- kFileOptions
abbrev file_options : List Text
file_options =
    codes "hda"
    ∷ codes "hdb"
    ∷ codes "hdc"
    ∷ codes "hdd"
    ∷ codes "cdrom"
    ∷ codes "fda"
    ∷ codes "fdb"
    ∷ codes "bios"
    ∷ codes "kernel"
    ∷ codes "initrd"
    ∷ codes "dtb"
    ∷ codes "pflash"
    ∷ codes "mtdblock"
    ∷ codes "sd"
    ∷ codes "L"
    ∷ codes "readconfig"
    ∷ []

-- kFileKeys
abbrev file_keys : List Text
file_keys = codes "file" ∷ codes "filename" ∷ codes "path" ∷ codes "mem-path" ∷ codes "script" ∷ []

-- kNoFiles
abbrev no_files : List Text
no_files =
    codes "chardev"
    ∷ codes "qmp"
    ∷ codes "monitor"
    ∷ codes "mon"
    ∷ codes "serial"
    ∷ codes "parallel"
    ∷ codes "debugcon"
    ∷ codes "audiodev"
    ∷ codes "trace"
    ∷ codes "D"
    ∷ codes "pidfile"
    ∷ []

pub record FileRef : Type 0 where
  pub line : ℕ
  pub key : Text
  pub path : Text

-- The values that are no file to read.
unfoldable pub is_no_path : Text → Text → Text → Bool
unfolding text_eq contains starts_with
is_no_path option_name key path =
    is_empty path
    || text_eq path (codes "no")
    || contains path (codes "://")
    || starts_with path (codes "json:")
    || (text_eq option_name (codes "object") && not (text_eq key (codes "mem-path")))

key_files : ℕ → Text → OptionValue → List Text → List FileRef
unfolding is_no_path get
key_files i option_name v [] = []
key_files i option_name v (k ∷ ks) =
    let rest = key_files i option_name v ks in
    let path = get k [] v in
    if is_no_path option_name k path then rest else record { line = i; key = k; path = path } ∷ rest

unfoldable pub line_files : ℕ → Line → List FileRef
unfolding kind_eq one_of key_files OptionValue.parse
line_files i l =
    if not (kind_eq l.kind option) || is_empty l.value || one_of l.name no_files
    then []
    else if one_of l.name file_options
    then record { line = i; key = []; path = l.value } ∷ []
    else key_files i l.name (OptionValue.parse l.value) file_keys

files_from : ℕ → ArgsFile → List FileRef
unfolding line_files
files_from i [] = []
files_from i (l ∷ ls) = line_files i l ++ files_from (suc i) ls

unfoldable pub files : ArgsFile → List FileRef
unfolding files_from
files args = files_from 0 args

unfoldable pub set_file : FileRef → Text → ArgsFile → ArgsFile
unfolding set_text_at set_value_at value_at set
set_file file path args =
    if is_empty file.key
    then set_text_at file.line path args
    else set_value_at file.line (set file.key path (value_at args file.line)) args
