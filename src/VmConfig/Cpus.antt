-- ===== src/VmConfig/Cpus.antt =====
-- src/core/vmconfig.cpp: -smp and -cpu.
use qemu_gui_manager.Prelude.{
  ℕ, zero, suc, ◌*◌, Bool, false, ◌||◌, Option, none, some, [], ◌∷◌, if◌then◌else◌, drop,
}
use qemu_gui_manager.Text.{Text, codes, is_empty, text_eq}
use qemu_gui_manager.Numbers.{number, number_ℤ, to_int, ℤ, pos, negsuc}
use qemu_gui_manager.OptionValue.{OptionValue, implied, set_implied, get, set, remove}
use qemu_gui_manager.ArgsFile.{
  ArgsFile, line_index, value_at, set_value_at, add, remove_all, option,
}
use qemu_gui_manager.VmConfig.Name.{implied_or, set_implied_or}

pub record Cpus : Type 0 where
  pub count : ℤ
  pub sockets : ℤ
  pub cores : ℤ
  pub threads : ℤ
  pub model : Text

abbrev default_cpus : Cpus
default_cpus = record { count = pos 1; sockets = pos 0; cores = pos 0; threads = pos 0; model = [] }

-- qMax(n, 1)
abbrev at_least_one : ℤ → ℕ
at_least_one (pos zero) = 1
at_least_one (pos (suc n)) = suc n
at_least_one (negsuc n) = 1

-- `c.count` where it is positive, else the product; the source's product may leave the range of
-- int, which C++ does not define.
abbrev count_or : ℤ → ℕ → ℤ
count_or (pos zero) product = pos product
count_or (pos (suc n)) product = pos (suc n)
count_or (negsuc n) product = pos product

smp_cpus : OptionValue → Cpus
unfolding get to_int implied_or
smp_cpus v =
    let sockets = to_int (get (codes "sockets") [] v) in
    let cores = to_int (get (codes "cores") [] v) in
    let threads = to_int (get (codes "threads") [] v) in
    let product = at_least_one sockets * at_least_one cores * at_least_one threads in
    record {
      count = count_or (to_int (implied_or (codes "cpus") v)) product;
      sockets = sockets;
      cores = cores;
      threads = threads;
      model = [];
    }

unfoldable pub cpus : ArgsFile → Cpus
unfolding line_index value_at implied smp_cpus
cpus args =
    let c : Cpus = elim (line_index (codes "smp") option args) [
      | none ↦ default_cpus
      | some i ↦ smp_cpus (value_at args i)
    ] in
    elim (line_index (codes "cpu") option args) [
      | none ↦ c
      | some i ↦ record c { model = implied (value_at args i) }
    ]

-- setOrRemove
unfoldable pub set_or_remove : Text → ℤ → OptionValue → OptionValue
unfolding set remove number
set_or_remove k (pos zero) v = remove k v
set_or_remove k (pos (suc n)) v = set k (number (suc n)) v
set_or_remove k (negsuc n) v = remove k v

unfoldable pub smp_value : Cpus → OptionValue → OptionValue
unfolding set_implied_or set_or_remove number_ℤ
smp_value c v =
    let counted = set_implied_or (codes "cpus") (number_ℤ c.count) v in
    set_or_remove (codes "threads") c.threads
      (set_or_remove (codes "cores") c.cores (set_or_remove (codes "sockets") c.sockets counted))

-- The line of -smp: the one there is, or a new one.
smp_line : ArgsFile → ArgsFile × ℕ
unfolding line_index add
smp_line args = elim (line_index (codes "smp") option args) [
  | none ↦ add (codes "smp") [] option args
  | some i ↦ (args, i)
]

-- `cpu` was found before the -smp line was added.
set_model : Text → Option ℕ → ArgsFile → ArgsFile
unfolding remove_all add set_value_at set_implied value_at
set_model model cpu args =
    if is_empty model then remove_all (codes "cpu") option args else elim cpu [
      | none ↦ (add (codes "cpu") model option args).0
      | some i ↦ set_value_at i (set_implied model (value_at args i)) args
    ]

unfoldable pub set_cpus : Cpus → ArgsFile → ArgsFile
unfolding smp_line line_index value_at set_value_at smp_value set_model
set_cpus c args =
    let (with_smp, smp) = smp_line args in
    set_model c.model (line_index (codes "cpu") option args)
      (set_value_at smp (smp_value c (value_at with_smp smp)) with_smp)

-- A word of the -cpu line that sets the feature already: topoext, +topoext, topoext=...
unfoldable pub names_feature : Text → OptionValue → Bool
unfolding text_eq
names_feature feature [] = false
names_feature feature (i ∷ is) =
    let k = if is_empty i.key then i.value else i.key in
    text_eq k feature || text_eq (drop 1 k) feature || names_feature feature is

unfoldable pub enable_cpu_feature : Text → ArgsFile → ArgsFile
unfolding line_index value_at set_value_at set names_feature
enable_cpu_feature feature args = elim (line_index (codes "cpu") option args) [
  | none ↦ args
  | some i ↦
      let v = value_at args i in
      if names_feature feature v then args else set_value_at i (set feature (codes "on") v) args
]
