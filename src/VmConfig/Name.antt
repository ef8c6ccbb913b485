-- ===== src/VmConfig/Name.antt =====
-- src/core/vmconfig.cpp: the name of the VM and the #qemu directive.
use qemu_gui_manager.Prelude.{
  ℕ, suc, ◌&&◌, none, some, [], ◌∷◌, ◌++◌, if◌then◌else◌, drop, insert_at, remove_at,
}
use qemu_gui_manager.Text.{Text, codes, is_empty, starts_with}
use qemu_gui_manager.OptionValue.{OptionValue, implied, set_implied, has, get, set, escape}
use qemu_gui_manager.ArgsFile.{
  ArgsFile, kind_eq, named_line, line_index, text_at, value_at, set_text_at, set_value_at, comment,
  option, directive,
}

abbrev pub name_key : Text
name_key = codes "name"

abbrev pub guest_key : Text
guest_key = codes "guest"

-- `v.implied().isEmpty() ? v.get(key) : v.implied()`
unfoldable pub implied_or : Text → OptionValue → Text
unfolding implied get
implied_or k v = if is_empty (implied v) then get k [] v else implied v

-- The edit that goes with it: the key where it gives the value, else the implied value.
unfoldable pub set_implied_or : Text → Text → OptionValue → OptionValue
unfolding implied has set set_implied
set_implied_or k x v = if is_empty (implied v) && has k v then set k x v else set_implied x v

unfoldable pub name : ArgsFile → Text
unfolding line_index value_at implied_or
name args = elim (line_index name_key option args) [
  | none ↦ []
  | some i ↦ implied_or guest_key (value_at args i)
]

-- The index of the first option, behind the comments at the top.
unfoldable pub first_option : ArgsFile → ℕ
unfolding kind_eq
first_option [] = 0
first_option (l ∷ ls) = if kind_eq l.kind option then 0 else suc (first_option ls)

unfoldable pub set_name : Text → ArgsFile → ArgsFile
unfolding line_index value_at set_value_at set_implied_or first_option escape
set_name x args = elim (line_index name_key option args) [
  | none ↦ insert_at (first_option args) (named_line option name_key (escape x)) args
  | some i ↦ set_value_at i (set_implied_or guest_key x (value_at args i)) args
]

abbrev pub qemu_key : Text
qemu_key = codes "qemu"

-- The home directory is what QDir::homePath() gives.
unfoldable pub qemu_binary : Text → ArgsFile → Text
unfolding line_index text_at starts_with
qemu_binary home args =
    let path : Text = elim (line_index qemu_key directive args) [
      | none ↦ []
      | some i ↦ text_at args i
    ] in
    if starts_with path (codes "~/") then home ++ drop 1 path else path

-- The number of comments at the top.
unfoldable pub leading_comments : ArgsFile → ℕ
unfolding kind_eq
leading_comments [] = 0
leading_comments (l ∷ ls) = if kind_eq l.kind comment then suc (leading_comments ls) else 0

unfoldable pub set_qemu_binary : Text → ArgsFile → ArgsFile
unfolding line_index set_text_at leading_comments
set_qemu_binary path args =
    let found = line_index qemu_key directive args in
    let top = leading_comments args in
    if is_empty path then elim found [ none ↦ args | some i ↦ remove_at i args ] else elim found [
      | none ↦ set_text_at top path (insert_at top (named_line directive qemu_key []) args)
      | some i ↦ set_text_at i path args
    ]
