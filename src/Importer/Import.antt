-- ===== src/Importer/Import.antt =====
-- src/core/importer.cpp: importScript, which makes a VM of the QEMU command of a script.
use qemu_gui_manager.Prelude.{
  Bool, true, false, not, ◌&&◌, ◌||◌, Option, none, some, List, [], ◌∷◌, ◌++◌, ◌==◌, if◌then◌else◌,
  drop,
}
use qemu_gui_manager.Text.{
  Text, codes, is_empty, text_eq, one_of, has_char, starts_with, starts_with_char, join, file_name,
}
use qemu_gui_manager.Numbers.{Conversions}
use qemu_gui_manager.ArgsFile.{ArgsFile, comment_line, named_line, option, Line}
use qemu_gui_manager.VmConfig.Name.{name, set_qemu_binary}
use qemu_gui_manager.VmConfig.Files.{files, set_file, FileRef}
use qemu_gui_manager.VmHardware.Machine.{accel, accel_property, set_accel_property}
use qemu_gui_manager.VmHardware.Graphics.{graphics}
use qemu_gui_manager.Importer.Words.{Environment}
use qemu_gui_manager.Importer.Script.{split_commands}

-- Importer::Result
pub record Result : Type 0 where
  pub args : ArgsFile
  pub notes : List Text
  pub missing : List Text

-- What QDir and QFileInfo do: cleanPath(base.absoluteFilePath(path)) for a base and a path,
-- isAbsolutePath, and exists; `takes_value` is the function of the caller, if there is one.
pub record Paths : Type 0 where
  pub absolute : Text → Text → Text
  pub is_absolute : Text → Bool
  pub exists : Text → Bool
  pub takes_value : Option (Text → Bool)

-- `$` also matches before a newline at the end.
unfoldable pub chop_newline : Text → Text
chop_newline [] = []
chop_newline (c ∷ []) = if c == b'\n' then [] else c ∷ []
chop_newline (c ∷ d ∷ cs) = c ∷ chop_newline (d ∷ cs)

-- `^(qemu-system-.+|qemu-kvm)$`, of the file's name
unfoldable pub is_qemu : Text → Bool
unfolding file_name chop_newline starts_with text_eq has_char
is_qemu word =
    let t = chop_newline (file_name word) in
    (starts_with t (codes "qemu-system-")
      && not (is_empty (drop 12 t))
      && not (has_char b'\n' (drop 12 t)))
    || text_eq t (codes "qemu-kvm")

-- The words before the program and from it on; none from it on without one.
unfoldable pub at_program : List Text → List Text × List Text
unfolding is_qemu
at_program [] = ([], [])
at_program (w ∷ ws) =
    let (before, from) = at_program ws in if is_qemu w then ([], w ∷ ws) else (w ∷ before, from)

-- What the loop over the commands keeps.
pub record Found : Type 0 where
  pub base : Text
  pub argv : List Text
  pub others : List Text
  pub notes : List Text

abbrev is_cd : List Text → Option Text
is_cd (c ∷ dir ∷ []) = if text_eq c (codes "cd") then some dir else none
is_cd _ = none

abbrev entered : Paths → List Text → Text → Text
entered p command base = elim (is_cd command) [ none ↦ base | some dir ↦ p.absolute base dir ]

abbrev pub other_command : List Text → Found → Found
other_command command f = record f { others = f.others ++ (join b' ' command ∷ []) }

abbrev wrapper_notes : List Text → List Text
wrapper_notes [] = []
wrapper_notes (w ∷ ws) =
    (codes "Not applied: "
      ++ (join b' ' (w ∷ ws) ++ codes " (environment variables and wrappers around QEMU)"))
    ∷ []

-- Before QEMU is found, for the words before the program and from it on.
abbrev pub look_for : Paths → List Text → List Text × List Text → Found → Found
look_for p command (before, []) f =
    other_command command (record f { base = entered p command f.base })
look_for p command (before, w ∷ ws) f = record f {
  argv = w ∷ ws;
  notes = f.notes ++ wrapper_notes before;
}

unfoldable pub find_qemu : Paths → List (List Text) → Found → Found
unfolding at_program text_eq join
find_qemu p [] f = f
find_qemu p (c ∷ cs) f =
    find_qemu p cs (if is_empty f.argv then look_for p c (at_program c) f else other_command c f)

-- The loop over the arguments: the lines, and the notes.
abbrev pub left_out : Text → Bool
left_out name = text_eq name (codes "daemonize") || text_eq name (codes "pidfile")

abbrev pub put_line : Text → Text → List Line × List Text → List Line × List Text
put_line name value (lines, notes) =
    if left_out name
    then (
      lines,
      (codes "-"
            ++ (name ++ codes " was left out: the manager runs QEMU in the background itself."))
          ∷ notes,
    )
    else (named_line option name value ∷ lines, notes)

abbrev pub option_name : Text → Text
option_name arg = drop (if starts_with arg (codes "--") then 2 else 1) arg

abbrev is_option : Text → Bool
is_option [] = false
is_option (c ∷ []) = false
is_option (c ∷ d ∷ cs) = c == b'-'

abbrev pub has_value : Paths → Text → Text → Bool
has_value p name next = elim p.takes_value [
  | some takes ↦ takes name
  | none ↦ not (starts_with_char next b'-')
]

unfoldable pub argument_lines : Paths → List Text → List Line × List Text
unfolding text_eq starts_with
argument_lines p [] = ([], [])
argument_lines p (arg ∷ []) =
    if is_option arg
    then put_line (option_name arg) [] ([], [])
    else put_line (codes "hda") arg ([], [])
argument_lines p (arg ∷ next ∷ more) = elim (is_option arg) [
  | false ↦ put_line (codes "hda") arg (argument_lines p (next ∷ more))
  | true ↦ elim (has_value p (option_name arg) next) [
    | true ↦ put_line (option_name arg) next (argument_lines p more)
    | false ↦ put_line (option_name arg) [] (argument_lines p (next ∷ more))
  ]
]

abbrev other_lines : List Text → List Line
other_lines [] = []
other_lines (t ∷ ts) = comment_line (codes "#   " ++ t) ∷ other_lines ts

abbrev other_comments : List Text → List Line
other_comments [] = []
other_comments (t ∷ ts) = comment_line (codes "# The script also ran:") ∷ other_lines (t ∷ ts)

-- honor-guest-pat, for native context
unfoldable pub with_guest_pat : Conversions → ArgsFile × List Text → ArgsFile × List Text
unfolding graphics accel starts_with accel_property set_accel_property
with_guest_pat q (args, notes) =
    if (graphics q args).native_context
      && starts_with (accel args) (codes "kvm")
      && is_empty (accel_property (codes "honor-guest-pat") args)
    then (
      set_accel_property (codes "honor-guest-pat") (codes "on") args,
      notes ++ (codes "honor-guest-pat=on was added to -accel, for DRM native context." ∷ []),
    )
    else (args, notes)

-- The loop over the files.
unfoldable pub place_files : Paths → Text → List FileRef → Result → Result
unfolding set_file one_of
place_files p base [] r = r
place_files p base (f ∷ fs) r =
    let path = p.absolute base f.path in
    place_files p base fs (
      if p.is_absolute f.path
      then r
      else if p.exists path
      then record r { args = set_file f path r.args }
      else if one_of f.path r.missing
      then r
      else record r { missing = r.missing ++ (f.path ∷ []) })

abbrev pub with_binary : Paths → Text → Text → ArgsFile → ArgsFile
with_binary p base program args =
    if has_char b'/' program then set_qemu_binary (p.absolute base program) args else args

-- importScript behind the search, for the words of the QEMU command
unfoldable pub import_found : Conversions → Paths → Found → Option Result
unfolding has_char set_qemu_binary argument_lines with_guest_pat files place_files
import_found q p f = elim f.argv [
  | [] ↦ none
  | program ∷ arguments ↦
      let first = with_binary p f.base program (other_comments f.others) in
      let (lines, left) = argument_lines p arguments in
      let (args, notes) = with_guest_pat q (first ++ lines, f.notes ++ left) in
      some (place_files p f.base (files args) (record { args = args; notes = notes; missing = [] }))
]

unfoldable pub import_script : Conversions → Environment → Paths → Text → Text → Option Result
unfolding split_commands find_qemu import_found
import_script q env p base script =
    let (commands, notes) = split_commands env script in
    import_found q p
      (find_qemu p commands (record { base = base; argv = []; others = []; notes = notes }))
