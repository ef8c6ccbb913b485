-- ===== src/VmHardware/Machine.antt =====
-- src/core/vmhardware.cpp: the machine type and the accelerator.
use qemu_gui_manager.VmConfig.Name.{implied_or, set_implied_or}
use qemu_gui_manager.Prelude.{
  ℕ, suc, Bool, true, not, ◌&&◌, ◌||◌, Option, none, some, List, [], ◌∷◌, if◌then◌else◌, get_first,
  insert_at, is_none,
}
use qemu_gui_manager.Text.{Text, codes, is_empty, text_eq, split}
use qemu_gui_manager.OptionValue.{OptionValue, implied, has, get, set, remove}
use qemu_gui_manager.ArgsFile.{
  ArgsFile, named_line, indexes_from, indexes_of, line_index, value_at, set_value_at, remove_all,
  option,
}
use qemu_gui_manager.VmHardware.Lines.{insert_after, set_key}

abbrev pub machine : Text
machine = codes "machine"

abbrev pub type_key : Text
type_key = codes "type"

-- `!v.implied().isEmpty() || v.has("type")`
abbrev pub is_typed : OptionValue → Bool
is_typed v = not (is_empty (implied v)) || has type_key v

-- The type that one -machine gives, else the type before it.
abbrev pub type_or : OptionValue → Text → Text
type_or v type =
    if not (is_empty (implied v))
    then implied v
    else if has type_key v
    then get type_key [] v
    else type

-- The loop of `machineType`.
unfoldable pub last_type : ArgsFile → Text → List ℕ → Text
unfolding value_at implied has get
last_type args type [] = type
last_type args type (i ∷ is) = last_type args (type_or (value_at args i) type) is

unfoldable pub machine_type : ArgsFile → Text
unfolding last_type indexes_from
machine_type args = last_type args [] (indexes_of machine option args)

-- The loop of `setMachineType`: the last -machine with a type.
unfoldable pub typed_line : ArgsFile → Option ℕ → List ℕ → Option ℕ
unfolding value_at implied has
typed_line args target [] = target
typed_line args target (i ∷ is) =
    typed_line args (if is_typed (value_at args i) then some i else target) is

abbrev pub first_of : Option ℕ → List ℕ → Option ℕ
first_of none is = get_first is
first_of (some i) is = some i

unfoldable pub set_machine_type : Text → ArgsFile → ArgsFile
unfolding typed_line indexes_from value_at set_value_at set_implied_or insert_after
set_machine_type type args =
    let machines = indexes_of machine option args in
    elim (first_of (typed_line args none machines) machines) [
      | none ↦
          if is_empty type
          then args
          else (insert_after (codes "name" ∷ []) machine type true args).0
      | some i ↦ set_value_at i (set_implied_or type_key type (value_at args i)) args
    ]

abbrev pub accel_key : Text
accel_key = codes "accel"

abbrev pub enable_kvm : Text
enable_kvm = codes "enable-kvm"

-- The loop of `accel` over the -machine lines.
unfoldable pub last_accel : ArgsFile → Text → List ℕ → Text
unfolding value_at has get
last_accel args value [] = value
last_accel args value (i ∷ is) =
    let v = value_at args i in
    last_accel args (if has accel_key v then get accel_key [] v else value) is

abbrev pub has_line : Text → ArgsFile → Bool
has_line n args = not (is_none (line_index n option args))

-- `accel` without an -accel.
unfoldable pub accel_of_machine : ArgsFile → Text
unfolding last_accel indexes_from line_index
accel_of_machine args =
    let value = last_accel args [] (indexes_of machine option args) in
    if is_empty value && has_line enable_kvm args then codes "kvm" else value

unfoldable pub accel : ArgsFile → Text
unfolding line_index value_at implied_or accel_of_machine
accel args = elim (line_index accel_key option args) [
  | none ↦ accel_of_machine args
  | some a ↦ implied_or accel_key (value_at args a)
]

-- The first -machine with an accel=.
unfoldable pub first_with : Text → ArgsFile → List ℕ → Option ℕ
unfolding value_at has
first_with k args [] = none
first_with k args (i ∷ is) = if has k (value_at args i) then some i else first_with k args is

-- The end of `setAccel`, for a file with neither -accel nor accel=.
unfoldable pub add_accel : Text → ArgsFile → ArgsFile
unfolding insert_after
add_accel x args =
    if is_empty x
    then args
    else (insert_after (codes "name" ∷ machine ∷ []) accel_key x true args).0

unfoldable pub set_accel : Text → ArgsFile → ArgsFile
unfolding line_index value_at set_value_at set_implied_or first_with indexes_from set text_eq
    remove_all add_accel
set_accel x args = elim (line_index accel_key option args) [
  | some a ↦ set_value_at a (set_implied_or accel_key x (value_at args a)) args
  | none ↦ elim (first_with accel_key args (indexes_of machine option args)) [
    | some i ↦ set_value_at i (set accel_key x (value_at args i)) args
    | none ↦
        if has_line enable_kvm args
        then if text_eq x (codes "kvm")
          then args
          else add_accel x (remove_all enable_kvm option args)
        else add_accel x args
  ]
]

unfoldable pub accel_property : Text → ArgsFile → Text
unfolding line_index value_at get
accel_property k args = elim (line_index accel_key option args) [
  | none ↦ []
  | some a ↦ get k [] (value_at args a)
]

-- accel(args).split(':', Qt::SkipEmptyParts)
abbrev pub filled : List Text → List Text
filled [] = []
filled (t ∷ ts) = let rest = filled ts in if is_empty t then rest else t ∷ rest

unfoldable pub accels : ArgsFile → List Text
unfolding accel split
accels args = filled (split b':' (accel args))

-- The loop that takes accel= from the -machine lines.
unfoldable pub without_accel : List ℕ → ArgsFile → ArgsFile
unfolding value_at has remove set_value_at
without_accel [] args = args
without_accel (i ∷ is) args =
    let v = value_at args i in
    without_accel is (if has accel_key v then set_value_at i (remove accel_key v) args else args)

-- One line behind the other.
unfoldable pub insert_accels : ℕ → List Text → ArgsFile → ArgsFile
insert_accels at [] args = args
insert_accels at (a ∷ more) args =
    insert_accels (suc at) more (insert_at (suc at) (named_line option accel_key a) args)

-- -accel takes over from -machine accel= and -enable-kvm.
unfoldable pub take_over : Text → List Text → ArgsFile → ArgsFile
unfolding without_accel indexes_from remove_all insert_after insert_accels
take_over a rest args =
    let bare = remove_all enable_kvm option (without_accel (indexes_of machine option args) args) in
    let (file, at) = insert_after (codes "name" ∷ machine ∷ []) accel_key a true bare in
    insert_accels at rest file

-- `setKey(args, args.indexOf("accel"), key, value)`
unfoldable pub set_accel_key : Text → Text → ArgsFile → ArgsFile
unfolding line_index set_key
set_accel_key k x args = elim (line_index accel_key option args) [
  | none ↦ args
  | some a ↦ set_key a k x args
]

unfoldable pub set_accel_property : Text → Text → ArgsFile → ArgsFile
unfolding line_index accels take_over set_accel_key
set_accel_property k x args = elim (line_index accel_key option args) [
  | some a ↦ set_accel_key k x args
  | none ↦ elim (accels args) [
    | [] ↦ args
    | a ∷ rest ↦ if is_empty x then args else set_accel_key k x (take_over a rest args)
  ]
]
