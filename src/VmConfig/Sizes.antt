-- ===== src/VmConfig/Sizes.antt =====
-- src/core/vmconfig.cpp: QEMU sizes.
use qemu_gui_manager.Prelude.{
  ℕ, ◌/◌, ◌%◌, ◌^◌, Bool, true, not, ◌&&◌, ◌||◌, Option, none, some, [], ◌∷◌, ◌++◌, ◌==◌,
  if◌then◌else◌,
}
use qemu_gui_manager.Text.{Text, codes, is_empty, is_ascii_space}
use qemu_gui_manager.Numbers.{number, is_digit, ℤ, negsuc, Conversions}

unfoldable pub skip_spaces : Text → Text
unfolding is_ascii_space
skip_spaces [] = []
skip_spaces (c ∷ cs) = let rest = skip_spaces cs in if is_ascii_space c then rest else c ∷ cs

-- `\d*`: the digits at the start, and the rest.
unfoldable pub take_digits : Text → Text × Text
unfolding is_digit
take_digits [] = ([], [])
take_digits (c ∷ cs) =
    let (ds, rest) = take_digits cs in if is_digit c then (c ∷ ds, rest) else ([], c ∷ cs)

-- `(\d+(?:\.\d+)?)`
abbrev with_fraction : Text → Text → Text × Text
with_fraction ds [] = (ds, [])
with_fraction ds (c ∷ cs) =
    let (fs, rest) = take_digits cs in
    if c == b'.' && not (is_empty fs) then (ds ++ (c ∷ fs), rest) else (ds, c ∷ cs)

-- The bits of a suffix, `none` for a character that is none.
unfoldable pub suffix_bits : ℕ → Option ℕ
suffix_bits c =
    if c == b'k' || c == b'K'
    then some 10
    else if c == b'm' || c == b'M'
    then some 20
    else if c == b'g' || c == b'G'
    then some 30
    else if c == b't' || c == b'T'
    then some 40
    else none

-- `([kKmMgGtT]?)`
abbrev take_suffix : Text → Option ℕ × Text
take_suffix [] = (none, [])
take_suffix (c ∷ cs) = elim (suffix_bits c) [ none ↦ (none, c ∷ cs) | some bits ↦ (some bits, cs) ]

-- `[bB]?\s*$`
abbrev ends_size : Text → Bool
ends_size [] = true
ends_size (c ∷ cs) =
    if c == b'b' || c == b'B' then is_empty (skip_spaces cs) else is_empty (skip_spaces (c ∷ cs))

-- The regular expression of `parseSize`: the number, and the suffix if there is one.
unfoldable pub match_size : Text → Option (Text × Option ℕ)
unfolding skip_spaces take_digits suffix_bits
match_size t =
    let (ds, rest) = take_digits (skip_spaces t) in
    let (value, behind) = with_fraction ds rest in
    let (suffix, end) = take_suffix (skip_spaces behind) in
    if not (is_empty ds) && ends_size end then some (value, suffix) else none

unfoldable pub parse_size : Conversions → Text → ℕ → ℤ
unfolding match_size
parse_size q t unit = elim (match_size t) [
  | none ↦ negsuc 0
  | some m ↦ q.scaled m.0 (elim m.1 [ none ↦ unit | some bits ↦ 2 ^ bits ])
]

unfoldable pub format_mib : ℕ → Text
unfolding number
format_mib mib =
    if mib % 1024 == 0 then number (mib / 1024) ++ codes "G" else number mib ++ codes "M"
