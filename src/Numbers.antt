-- ===== src/Numbers.antt =====
-- Numbers as texts: QString::number, QString::toInt, and the conversions that the program leaves to
-- Qt's doubles and to QString::toUInt, which are parameters.
pub mod Decimal
use qemu_gui_manager.Prelude.{
  ℕ, zero, suc, ◌+◌, ◌-◌, ◌*◌, ◌/◌, ◌%◌, ◌^◌, ◌<◌, ◌≡◌, Bool, not, ◌&&◌, Option, none, some, [],
  ◌∷◌, ◌++◌, ltb, leb, ◌==◌, if◌then◌else◌,
}
use qemu_gui_manager.Text.{Text, trimmed}

-- A C++ int or qint64; `negsuc n` is -(n + 1).
pub data ℤ : Type 0 where
  pos : ℕ → ℤ
  negsuc : ℕ → ℤ

-- QString::number for a number that is not negative; `fuel` bounds the digits.
unfoldable pub digits : ℕ → ℕ → Text
digits zero n = []
digits (suc fuel) n =
    let rest = digits fuel (n / 10) in
    if ltb n 10 then (48 + n) ∷ [] else rest ++ ((48 + n % 10) ∷ [])

unfoldable pub number : ℕ → Text
unfolding digits
number n = digits (suc n) n

unfoldable pub number_ℤ : ℤ → Text
unfolding number
number_ℤ (pos n) = number n
number_ℤ (negsuc n) = b'-' ∷ number (suc n)

unfoldable pub is_digit : ℕ → Bool
is_digit c = leb 48 c && leb c 57

-- The value of a text of digits, `none` for any other text.
unfoldable pub digits_value : ℕ → Text → Option ℕ
unfolding is_digit
digits_value acc [] = some acc
digits_value acc (c ∷ cs) = if is_digit c then digits_value (acc * 10 + (c - 48)) cs else none

abbrev unsigned_value : Text → Option ℕ
unsigned_value [] = none
unsigned_value (c ∷ cs) = digits_value 0 (c ∷ cs)

-- The sign, and the 32 bits of an int.
int_of : Text → ℤ
unfolding digits_value
int_of [] = pos 0
int_of (c ∷ cs) =
    if c == b'-'
    then elim (unsigned_value cs) [
      | none ↦ pos 0
      | some n ↦ if leb n (2 ^ 31) then (elim n [ zero ↦ pos 0 | suc m ↦ negsuc m ]) else pos 0
    ]
    else elim (unsigned_value (if c == b'+' then cs else c ∷ cs)) [
      | none ↦ pos 0
      | some n ↦ if ltb n (2 ^ 31) then pos n else pos 0
    ]

-- QString::toInt: 0 for a text that is no int.
unfoldable pub to_int : Text → ℤ
unfolding int_of trimmed
to_int t = int_of (trimmed t)

unfoldable pub hex_digit : ℕ → ℕ
hex_digit d = if ltb d 10 then 48 + d else 87 + d

-- arg(n, 4, 16, QChar('0')) for a quint16.
unfoldable pub hex4 : ℕ → Text
unfolding hex_digit
hex4 n =
    hex_digit (n / 4096 % 16)
    ∷ hex_digit (n / 256 % 16)
    ∷ hex_digit (n / 16 % 16)
    ∷ hex_digit (n % 16)
    ∷ []

-- What Qt converts: qint64(text.toDouble() * unit) of digits with or without a fraction, and
-- text.toUInt(&ok, base).
pub record Conversions : Type 0 where
  pub scaled : Text → ℕ → ℤ
  pub to_uint : Text → ℕ → Option ℕ
  -- A double holds whole numbers exactly below 2^53, and powers of two scale it exactly.
  pub scaled_number :
      (n k : ℕ) → n < 2 ^ 53 → n * 2 ^ k < 2 ^ 63 → scaled (number n) (2 ^ k) ≡ pos (n * 2 ^ k)
  pub to_uint_hex4 : (n : ℕ) → n < 2 ^ 16 → to_uint (hex4 n) 16 ≡ some n
