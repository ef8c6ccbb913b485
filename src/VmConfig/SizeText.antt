-- ===== src/VmConfig/SizeText.antt =====
-- VmConfig::formatMiB and parseSize, one after the other.
use qemu_gui_manager.OptionValue.Edits.{is_empty-eq-false}
use qemu_gui_manager.Prelude.{
  ℕ, ◌*◌, ◌/◌, ◌%◌, ◌^◌, ◌<◌, ◌≡◌, refl, ap, ◌∙◌, ◌≢◌, inl, inr, true, false, some, [], ◌∷◌, ◌++◌,
  arith, ◌==◌, if◌then◌else◌, ==_iff, Bool-cases,
}
use qemu_gui_manager.Text.{Text, is_ascii_space}
use qemu_gui_manager.Numbers.{number, is_digit, pos, Conversions}
use qemu_gui_manager.Numbers.Decimal.{AllDigits, AllDigits-number, number-ne-nil}
use qemu_gui_manager.VmConfig.Sizes.{skip_spaces, take_digits, match_size, parse_size, format_mib}

take_digits-digits :
    (ds : Text) (c : ℕ) (rest : Text)
    → AllDigits ds
    → is_digit c ≡ false
    → take_digits (ds ++ (c ∷ rest)) ≡ (ds, c ∷ rest)
unfolding take_digits
take_digits-digits [] c rest h n = rw (n, if◌then◌else◌) refl
take_digits-digits (d ∷ ds) c rest (e, h) n =
    rw (take_digits-digits ds c rest h n, e, if◌then◌else◌) refl

space-digit : (c : ℕ) → is_digit c ≡ true → is_ascii_space c ≡ false
unfolding is_digit is_ascii_space
space-digit c h = ground arith

skip_spaces-digits :
    (ds rest : Text) → AllDigits ds → ds ≢ [] → skip_spaces (ds ++ rest) ≡ ds ++ rest
unfolding skip_spaces
skip_spaces-digits [] rest h n = absurd (n refl)
skip_spaces-digits (d ∷ ds) rest (e, h) n = rw (space-digit d e, if◌then◌else◌) refl

match_size-gib : (n : ℕ) → match_size (number n ++ (b'G' ∷ [])) ≡ some (number n, some 30)
unfolding match_size
match_size-gib n = of_digits (number n) (AllDigits-number n) (number-ne-nil n)
  where
    of_digits :
        (ds : Text) → AllDigits ds → ds ≢ [] → match_size (ds ++ (b'G' ∷ [])) ≡ some (ds, some 30)
    of_digits ds h n =
        rw
          (
            skip_spaces-digits ds (b'G' ∷ []) h n,
            take_digits-digits ds b'G' [] h (unfold is_digit in refl),
            is_empty-eq-false ds n,
          )
          refl

match_size-mib : (n : ℕ) → match_size (number n ++ (b'M' ∷ [])) ≡ some (number n, some 20)
unfolding match_size
match_size-mib n = of_digits (number n) (AllDigits-number n) (number-ne-nil n)
  where
    of_digits :
        (ds : Text) → AllDigits ds → ds ≢ [] → match_size (ds ++ (b'M' ∷ [])) ≡ some (ds, some 20)
    of_digits ds h n =
        rw
          (
            skip_spaces-digits ds (b'M' ∷ []) h n,
            take_digits-digits ds b'M' [] h (unfold is_digit in refl),
            is_empty-eq-false ds n,
          )
          refl

parse_size-match :
    (q : Conversions) (t value : Text) (bits unit : ℕ)
    → match_size t ≡ some (value, some bits)
    → parse_size q t unit ≡ q.scaled value (2 ^ bits)
unfolding parse_size
parse_size-match q t value bits unit h = rw (h, parse_size) refl

pub format_mib-gib :
    (mib : ℕ) → (mib % 1024 == 0) ≡ true → format_mib mib ≡ number (mib / 1024) ++ (b'G' ∷ [])
unfolding format_mib
format_mib-gib mib e = rw (e, if◌then◌else◌) refl

pub format_mib-mib :
    (mib : ℕ) → (mib % 1024 == 0) ≡ false → format_mib mib ≡ number mib ++ (b'M' ∷ [])
unfolding format_mib
format_mib-mib mib e = rw (e, if◌then◌else◌) refl

-- A size below 2^43 MiB that is written is read back in bytes, whatever the unit of plain numbers.
pub parse_size-format_mib :
    (q : Conversions) (mib unit : ℕ)
    → mib < 2 ^ 43
    → parse_size q (format_mib mib) unit ≡ pos (mib * 2 ^ 20)
parse_size-format_mib q mib unit h = elim (Bool-cases (mib % 1024 == 0)) [
  | inl e ↦ rw (format_mib-gib mib e) (
      parse_size-match q _ (number (mib / 1024)) 30 unit (match_size-gib (mib / 1024))
      ∙ q.scaled_number (mib / 1024) 30 (omega arith) (omega arith)
      ∙ ap pos (omega (arith, (==_iff (mib % 1024) 0).0 e)))
  | inr e ↦ rw (format_mib-mib mib e) (
      parse_size-match q _ (number mib) 20 unit (match_size-mib mib)
      ∙ q.scaled_number mib 20 (omega arith) (omega arith))
]
