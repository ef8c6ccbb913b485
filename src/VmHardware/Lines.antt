-- ===== src/VmHardware/Lines.antt =====
-- src/core/vmhardware.cpp: where a new line goes, and one key of a line.
use qemu_gui_manager.Prelude.{
  ℕ, suc, Bool, Option, none, some, List, [], ◌∷◌, ◌++◌, ltb, if◌then◌else◌, length, last,
  insert_at,
}
use qemu_gui_manager.Text.{Text, is_empty}
use qemu_gui_manager.OptionValue.{OptionValue, set, remove}
use qemu_gui_manager.ArgsFile.{
  ArgsFile, named_line, indexes_from, indexes_of, value_at, set_value_at, option,
}
use qemu_gui_manager.VmConfig.Name.{first_option}

-- lastIndex, `none` for -1
unfoldable pub last_index : Text → ArgsFile → Option ℕ
unfolding indexes_from
last_index n args = last (indexes_of n option args)

-- qMax of two indexes, `none` for -1
abbrev pub later : Option ℕ → Option ℕ → Option ℕ
later none j = j
later (some i) none = some i
later (some i) (some j) = some (if ltb i j then j else i)

-- The loop of `insertAfter` over the options.
unfoldable pub last_of : Option ℕ → List Text → ArgsFile → Option ℕ
unfolding last_index
last_of at [] args = at
last_of at (n ∷ ns) args = last_of (later at (last_index n args)) ns args

-- Where `insertAfter` puts the line: behind the options, else behind the comments at the top, where
-- `top` says so, else at the end.
unfoldable pub insert_place : List Text → Bool → ArgsFile → ℕ
unfolding last_of first_option
insert_place after top args = elim (last_of none after args) [
  | some i ↦ suc i
  | none ↦ if top then first_option args else length args
]

-- insertAfter: the file and the line's index.
unfoldable pub insert_after : List Text → Text → Text → Bool → ArgsFile → ArgsFile × ℕ
unfolding insert_place
insert_after after n v top args =
    let at = insert_place after top args in (insert_at at (named_line option n v) args, at)

-- setKey
abbrev pub with_key : Text → Text → OptionValue → OptionValue
with_key k x v = if is_empty x then remove k v else set k x v

unfoldable pub set_key : ℕ → Text → Text → ArgsFile → ArgsFile
unfolding value_at set_value_at set remove
set_key i k x args = set_value_at i (with_key k x (value_at args i)) args

-- insertLine: behind a line, `none` for -1; the file and the new line's index.
unfoldable pub insert_line : Option ℕ → Text → Text → ArgsFile → ArgsFile × ℕ
insert_line none n v args = (args ++ (named_line option n v ∷ []), length args)
insert_line (some i) n v args =
    if ltb i (length args)
    then (insert_at (suc i) (named_line option n v) args, suc i)
    else (args ++ (named_line option n v ∷ []), length args)
