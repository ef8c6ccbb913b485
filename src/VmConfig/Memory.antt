-- ===== src/VmConfig/Memory.antt =====
-- src/core/vmconfig.cpp: guest RAM, its memory backend and -m.
use qemu_gui_manager.Prelude.{
  ℕ, zero, suc, ◌/◌, ◌^◌, Bool, true, false, ◌&&◌, Option, none, some, List, [], ◌∷◌, ◌++◌, map,
  if◌then◌else◌, length, last,
}
use qemu_gui_manager.Text.{Text, codes, is_empty, text_eq, starts_with}
use qemu_gui_manager.Numbers.{number, ℤ, pos, negsuc, Conversions}
use qemu_gui_manager.OptionValue.{OptionValue, implied, set_implied, has, get, flag, set}
use qemu_gui_manager.ArgsFile.{
  ArgsFile, indexes_from, indexes_of, line_index, value_at, set_value_at, add, option,
}
use qemu_gui_manager.Fresh.{first_free}
use qemu_gui_manager.VmConfig.Name.{implied_or, set_implied_or}
use qemu_gui_manager.VmConfig.Sizes.{parse_size, format_mib}

-- The loop of `machineKey` over the -machine lines; `value` is what was found before.
unfoldable pub last_key : ArgsFile → Text → Text → List ℕ → Text
unfolding value_at has get
last_key args k value [] = value
last_key args k value (i ∷ is) =
    let v = value_at args i in last_key args k (if has k v then get k [] v else value) is

unfoldable pub machine_key : Text → ArgsFile → Text
unfolding last_key indexes_from
machine_key k args = last_key args k [] (indexes_of (codes "machine") option args)

abbrev pub is_backend : Text → OptionValue → Bool
is_backend id v =
    starts_with (implied v) (codes "memory-backend-") && text_eq (get (codes "id") [] v) id

unfoldable pub first_backend : ArgsFile → Text → List ℕ → Option ℕ
unfolding value_at implied get starts_with text_eq
first_backend args id [] = none
first_backend args id (i ∷ is) =
    if is_backend id (value_at args i) then some i else first_backend args id is

-- ramBackend
unfoldable pub ram_backend : ArgsFile → Option ℕ
unfolding machine_key first_backend indexes_from
ram_backend args =
    let id = machine_key (codes "memory-backend") args in
    if is_empty id then none else first_backend args id (indexes_of (codes "object") option args)

abbrev pub size_key : Text
size_key = codes "size"

-- `bytes > 0 ? bytes >> 20 : otherwise`
abbrev pub mib_of : ℤ → ℕ → ℕ
mib_of (pos zero) otherwise = otherwise
mib_of (pos (suc n)) otherwise = suc n / 2 ^ 20
mib_of (negsuc n) otherwise = otherwise

-- The size that -m gives.
unfoldable pub m_size : Conversions → ArgsFile → ℕ
unfolding line_index value_at implied_or parse_size
m_size q args = elim (line_index (codes "m") option args) [
  | none ↦ 0
  | some m ↦ mib_of (parse_size q (implied_or size_key (value_at args m)) (2 ^ 20)) 0
]

unfoldable pub memory_mib : Conversions → ArgsFile → ℕ
unfolding ram_backend value_at get parse_size m_size
memory_mib q args = elim (ram_backend args) [
  | none ↦ m_size q args
  | some b ↦ mib_of (parse_size q (get size_key [] (value_at args b)) 1) (m_size q args)
]

-- The part of `setMemoryMiB` about -m; `backed` is `backend >= 0`.
unfoldable pub set_m : Bool → ℕ → ArgsFile → ArgsFile
unfolding value_at set_value_at set_implied_or format_mib add line_index
set_m backed mib args = elim (line_index (codes "m") option args) [
  | some m ↦ set_value_at m (set_implied_or size_key (format_mib mib) (value_at args m)) args
  | none ↦ if backed then args else (add (codes "m") (format_mib mib) option args).0
]

unfoldable pub set_memory_mib : ℕ → ArgsFile → ArgsFile
unfolding ram_backend value_at set_value_at set format_mib set_m
set_memory_mib mib args = elim (ram_backend args) [
  | none ↦ set_m false mib args
  | some b ↦ set_m true mib (set_value_at b (set size_key (format_mib mib) (value_at args b)) args)
]

unfoldable pub has_shared_memory : ArgsFile → Bool
unfolding ram_backend value_at implied flag text_eq
has_shared_memory args = elim (ram_backend args) [
  | none ↦ false
  | some b ↦
      let v = value_at args b in
      if text_eq (implied v) (codes "memory-backend-memfd")
      then flag (codes "share") true v
      else if text_eq (implied v) (codes "memory-backend-file")
      then flag (codes "share") false v
      else false
]

-- The ids of the -object lines.
unfoldable pub object_ids : ArgsFile → List Text
unfolding indexes_from value_at get
object_ids args =
    map (λ i. get (codes "id") [] (value_at args i)) (indexes_of (codes "object") option args)

-- mem, mem1, mem2, ...
unfoldable pub mem_id : ℕ → Text
unfolding number
mem_id zero = codes "mem"
mem_id (suc n) = codes "mem" ++ number (suc n)

-- The first free one; there are fewer ids in use than the fuel.
unfoldable pub free_mem_id : ArgsFile → Option Text
unfolding first_free mem_id object_ids
free_mem_id args = first_free (suc (length (object_ids args))) mem_id (object_ids args) 0

-- `useSharedMemory` once the id is chosen.
unfoldable pub add_backend : Conversions → ℕ → Text → ArgsFile → ArgsFile
unfolding add format_mib indexes_from value_at set set_value_at line_index set_memory_mib
add_backend q mib id args =
    let size = format_mib mib in
    let value =
      codes "memory-backend-memfd,id=" ++ (id ++ (codes ",size=" ++ (size ++ codes ",share=on"))) in
    let backed = (add (codes "object") value option args).0 in
    let named : ArgsFile = elim (last (indexes_of (codes "machine") option backed)) [
      | none ↦ (add (codes "machine") (codes "memory-backend=" ++ id) option backed).0
      | some i ↦ set_value_at i (set (codes "memory-backend") id (value_at backed i)) backed
    ] in
    elim (line_index (codes "m") option named) [ none ↦ named | some m ↦ set_memory_mib mib named ]

-- The MiB that `useSharedMemory` keeps.
abbrev pub kept_mib : ℕ → ℕ
kept_mib zero = 1024
kept_mib (suc n) = suc n

-- The edit of a memory backend that there is.
abbrev pub shared_backend : OptionValue → OptionValue
shared_backend v = set (codes "share") (codes "on") (
    if text_eq (implied v) (codes "memory-backend-ram")
    then set_implied (codes "memory-backend-memfd") v
    else v)

unfoldable pub use_shared_memory : Conversions → ArgsFile → Option ArgsFile
unfolding memory_mib ram_backend value_at set_value_at set set_implied implied text_eq free_mem_id
    add_backend
use_shared_memory q args = elim (ram_backend args) [
  | some b ↦ some (set_value_at b (shared_backend (value_at args b)) args)
  | none ↦ elim (free_mem_id args) [
    | none ↦ none
    | some id ↦ some (add_backend q (kept_mib (memory_mib q args)) id args)
  ]
]
