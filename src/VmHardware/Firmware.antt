-- ===== src/VmHardware/Firmware.antt =====
-- src/core/vmhardware.cpp: firmwareKind after useBios.
use qemu_gui_manager.Prelude.{
  ℕ, ◌≡◌, refl, ap, ◌∙◌, ◌≢◌, inl, inr, Bool, true, false, not, ◌||◌, List, [], ◌∷◌, map, arith,
  if◌then◌else◌, Bool-cases,
}
use qemu_gui_manager.VmHardware.Machine.{machine, has_line}
use qemu_gui_manager.VmHardware.Bios.{use_bios-lines_without}
use qemu_gui_manager.Text.{Text, codes, is_empty, text_eq, file_name}
use qemu_gui_manager.Text.Laws.{text_eq_iff}
use qemu_gui_manager.OptionValue.{parse, has, get}
use qemu_gui_manager.ArgsFile.{
  ArgsFile, kind_eq, canonical_name, is_line, indexes_of, text_at, value_at, option, Line,
}
use qemu_gui_manager.ArgsFile.Values.{
  values_of, values_of-indexes_of, indexes_from-nil, lines_without, values_of-lines_without,
  line_index-values_of,
}
use qemu_gui_manager.VmHardware.Boot.{
  unit_zero, is_pflash, any_with, drive_code, pflash_code, kind_of_code, firmware_kind, is_flash,
  use_bios, bios, custom, Firmware,
}

abbrev any_value : Text → List Text → Bool
any_value k [] = false
any_value k (t ∷ ts) = has k (parse t) || any_value k ts

any_with-values :
    (k : Text) (args : ArgsFile) (is : List ℕ)
    → any_with k args is ≡ any_value k (map (text_at args) is)
unfolding any_with value_at
any_with-values k args [] = refl
any_with-values k args (i ∷ is) = rw (any_with-values k args is) refl

-- The loops over the drives, on the values.
abbrev drive_values : List Text → Bool × Text → Bool × Text
drive_values [] found = found
drive_values (t ∷ ts) found =
    let v = parse t in
    let name =
      if is_empty found.1 || unit_zero v then file_name (get (codes "file") [] v) else found.1 in
    drive_values ts (if is_pflash v then (true, name) else found)

drive_code-values :
    (args : ArgsFile) (is : List ℕ) (found : Bool × Text)
    → drive_code args is found ≡ drive_values (map (text_at args) is) found
unfolding drive_code value_at
drive_code-values args [] found = refl
drive_code-values args (i ∷ is) found = drive_code-values args is _

drive_name :
    (l : Line)
    → is_line (codes "drive") option l ≡ true
    → (kind_eq l.kind option ≡ true) × (text_eq l.name (codes "drive") ≡ true)
unfolding canonical_name
drive_name l h = ground (
  arith,
  text_eq_iff l.name (codes "M"),
  text_eq_iff l.name (codes "drive"),
  text_eq_iff (codes "machine") (codes "drive"),
)

-- No pflash drive is left.
drives_left :
    (ls : ArgsFile) (found : Bool × Text)
    → drive_values (values_of (codes "drive") option (lines_without is_flash ls)) found ≡ found
unfolding is_flash
drives_left [] found = refl
drives_left (l ∷ ls) found = ground (arith, drive_name l, drives_left ls found)

-- A line of another option is not of the firmware.
other_lines :
    (n : Text)
    → text_eq n (codes "drive") ≡ false
    → text_eq n (codes "pflash") ≡ false
    → text_eq n (codes "global") ≡ false
    → (l : Line) → is_line n option l ≡ true
    → is_flash l ≡ false
unfolding canonical_name is_flash
other_lines n d p g l h = ground (
  arith,
  text_eq_iff (canonical_name l.name) n,
  text_eq_iff l.name (codes "M"),
  text_eq_iff l.name (codes "drive"),
  text_eq_iff l.name (codes "pflash"),
  text_eq_iff l.name (codes "global"),
  text_eq_iff n (codes "drive"),
  text_eq_iff n (codes "pflash"),
  text_eq_iff n (codes "global"),
)

pflash_name : (l : Line) → is_line (codes "pflash") option l ≡ true → is_flash l ≡ true
unfolding canonical_name is_flash
pflash_name l h = ground (
  arith,
  text_eq_iff l.name (codes "M"),
  text_eq_iff l.name (codes "pflash"),
  text_eq_iff (codes "machine") (codes "pflash"),
)

no_pflash : (ls : ArgsFile) → values_of (codes "pflash") option (lines_without is_flash ls) ≡ []
no_pflash [] = refl
no_pflash (l ∷ ls) = ground (arith, pflash_name l, no_pflash ls)

-- The test of `firmwareKind` for what is set up by hand.
abbrev by_hand : ArgsFile → Bool
by_hand args =
    has_line (codes "bios") args || any_with (codes "pflash0") args (indexes_of machine option args)

by_hand-values :
    (args : ArgsFile)
    → by_hand args ≡ (
        not (is_empty (values_of (codes "bios") option args))
        || any_value (codes "pflash0") (values_of machine option args))
by_hand-values args =
    rw
      (
        line_index-values_of (codes "bios") option args,
        any_with-values (codes "pflash0") args (indexes_of machine option args),
        values_of-indexes_of machine option args,
      )
      refl

by_hand-use_bios : (args : ArgsFile) → by_hand (use_bios args) ≡ by_hand args
by_hand-use_bios args =
    rw
      (
        by_hand-values (use_bios args),
        by_hand-values args,
        use_bios-lines_without args,
        values_of-lines_without (codes "bios") option is_flash
            (other_lines (codes "bios") (unfold text_eq in refl) (unfold text_eq in refl)
              (unfold text_eq in refl))
            args,
        values_of-lines_without machine option is_flash
            (other_lines machine (unfold text_eq in refl) (unfold text_eq in refl)
              (unfold text_eq in refl))
            args,
      )
      refl

kind_of_code-ne_custom : (fws : List Firmware) (code : Text) → kind_of_code fws code ≢ custom
unfolding kind_of_code
kind_of_code-ne_custom [] code = λ e. ground arith
kind_of_code-ne_custom (fw ∷ fws) code = λ e. ground (arith, kind_of_code-ne_custom fws code)

by_hand-custom :
    (fws : List Firmware) (args : ArgsFile) → by_hand args ≡ true → firmware_kind fws args ≡ custom
unfolding firmware_kind
by_hand-custom fws args h = rw (h, firmware_kind, if◌then◌else◌) refl

not_by_hand-ne_custom :
    (fws : List Firmware) (args : ArgsFile) → by_hand args ≡ false → firmware_kind fws args ≢ custom
unfolding firmware_kind
not_by_hand-ne_custom fws args h = λ e. ground (
  arith,
  kind_of_code-ne_custom fws
      (pflash_code args (indexes_of (codes "pflash") option args)
        (drive_code args (indexes_of (codes "drive") option args) (false, []))).1,
)

use_bios-bios :
    (fws : List Firmware) (args : ArgsFile)
    → by_hand (use_bios args) ≡ false
    → firmware_kind fws (use_bios args) ≡ bios
unfolding firmware_kind
use_bios-bios fws args h =
    let drives : drive_code (use_bios args) (indexes_of (codes "drive") option (use_bios args))
          (false, [])
        ≡ (false, []) =
      drive_code-values (use_bios args) (indexes_of (codes "drive") option (use_bios args))
        (false, [])
      ∙ ap (λ (ts : List Text). drive_values ts (false, []))
          (values_of-indexes_of (codes "drive") option (use_bios args))
      ∙ rw (use_bios-lines_without args) (drives_left args (false, [])) in
    let none_left : indexes_of (codes "pflash") option (use_bios args) ≡ [] =
      indexes_from-nil (codes "pflash") option 0 (use_bios args)
        (rw (use_bios-lines_without args) (no_pflash args)) in
    rw (h, none_left, drives, firmware_kind, pflash_code, if◌then◌else◌) refl

-- After the firmware is taken away there is the BIOS, unless the firmware was set up by hand, with
-- -bios or with pflash0= of a -machine: then it stays so.
pub firmware_kind-use_bios :
    (fws : List Firmware) (args : ArgsFile)
    → (firmware_kind fws args ≡ custom → firmware_kind fws (use_bios args) ≡ custom)
      × (firmware_kind fws args ≢ custom → firmware_kind fws (use_bios args) ≡ bios)
firmware_kind-use_bios fws args = elim (Bool-cases (by_hand args)) [
  | inl h ↦ (
    λ e. by_hand-custom fws (use_bios args) (by_hand-use_bios args ∙ h),
    λ n. absurd (n (by_hand-custom fws args h)),
  )
  | inr h ↦ (
    λ e. absurd (not_by_hand-ne_custom fws args h e),
    λ n. use_bios-bios fws args (by_hand-use_bios args ∙ h),
  )
]
