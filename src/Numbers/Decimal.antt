-- ===== src/Numbers/Decimal.antt =====
-- QString::number and QString::toInt, one after the other.
use qemu_gui_manager.Prelude.{
  ℕ, zero, suc, ◌+◌, ◌-◌, ◌*◌, ◌/◌, ◌%◌, ◌^◌, ◌<◌, ◌≡◌, refl, sym, ap, ◌∙◌, subst, ◌≢◌, inl, inr,
  true, false, Option, some, [], ◌∷◌, ◌++◌, arith, ltb, if◌then◌else◌, Bool-cases,
}
use qemu_gui_manager.Text.{Text, has_char, is_space, ends_blank}
use qemu_gui_manager.Text.Trim.{IsTrimmed, trimmed-eq_self}
use qemu_gui_manager.Numbers.{digits, number, is_digit, digits_value, to_int, pos, int_of}

digits_value-append :
    (acc : ℕ) (a : Text) (d n : ℕ)
    → digits_value acc a ≡ some n
    → d < 10
    → digits_value acc (a ++ ((48 + d) ∷ [])) ≡ some (n * 10 + d)
unfolding digits_value
digits_value-append acc [] d n h lt = ground arith
digits_value-append acc (c ∷ a) d n h lt =
    ground (arith, digits_value-append (acc * 10 + (c - 48)) a d n)

digits_value-digits : (fuel n : ℕ) → n < fuel → digits_value 0 (digits fuel n) ≡ some n
unfolding digits
digits_value-digits zero n h = elim h [ ]
digits_value-digits (suc fuel) n h = elim (Bool-cases (ltb n 10)) [
  | inl e ↦ rw (e, if◌then◌else◌) (unfold digits_value in ground arith)
  | inr e ↦
      rw (e, if◌then◌else◌)
        (digits_value-append 0 (digits fuel (n / 10)) (n % 10) (n / 10)
            (digits_value-digits fuel (n / 10) (ground arith)) (omega arith)
          ∙ ap some (omega arith))
]

-- The value of a printed number is that number.
pub digits_value-number : (n : ℕ) → digits_value 0 (number n) ≡ some n
unfolding number
digits_value-number n = digits_value-digits (suc n) n (omega arith)

abbrev pub AllDigits : Text → Type 0
AllDigits [] = Unit
AllDigits (c ∷ cs) = (is_digit c ≡ true) × AllDigits cs

AllDigits-append : (a : Text) (d : ℕ) → AllDigits a → d < 10 → AllDigits (a ++ ((48 + d) ∷ []))
unfolding is_digit
AllDigits-append [] d h lt = ground arith
AllDigits-append (c ∷ a) d (e, h) lt = (e, AllDigits-append a d h lt)

AllDigits-digits : (fuel n : ℕ) → AllDigits (digits fuel n)
unfolding digits
AllDigits-digits zero n = tt
AllDigits-digits (suc fuel) n = elim (Bool-cases (ltb n 10)) [
  | inl e ↦ rw (e, if◌then◌else◌) (unfold is_digit in ground arith)
  | inr e ↦
      rw (e, if◌then◌else◌)
        (AllDigits-append (digits fuel (n / 10)) (n % 10) (AllDigits-digits fuel (n / 10))
          (omega arith))
]

pub AllDigits-number : (n : ℕ) → AllDigits (number n)
unfolding number
AllDigits-number n = AllDigits-digits (suc n) n

append-ne-nil : (a : Text) (x : ℕ) → a ++ (x ∷ []) ≢ []
append-ne-nil [] x = λ e. cc
append-ne-nil (c ∷ a) x = λ e. cc

pub number-ne-nil : (n : ℕ) → number n ≢ []
unfolding number digits
number-ne-nil n = ground (arith, append-ne-nil (digits n (n / 10)) (48 + n % 10))

is_space-digit : (c : ℕ) → is_digit c ≡ true → is_space c ≡ false
unfolding is_digit is_space
is_space-digit c h = ground arith

ends_blank-digits : (t : Text) → AllDigits t → ends_blank t ≡ false
ends_blank-digits [] h = refl
ends_blank-digits (c ∷ []) (e, h) = is_space-digit c e
ends_blank-digits (c ∷ d ∷ t) (e, h) = ends_blank-digits (d ∷ t) h

pub AllDigits-IsTrimmed : (t : Text) → AllDigits t → IsTrimmed t
AllDigits-IsTrimmed [] h = (refl, refl)
AllDigits-IsTrimmed (c ∷ t) h = (is_space-digit c h.0, ends_blank-digits (c ∷ t) h)

int_of-digits :
    (t : Text) (n : ℕ)
    → AllDigits t
    → t ≢ []
    → digits_value 0 t ≡ some n
    → n < 2 ^ 31
    → int_of t ≡ pos n
unfolding int_of
int_of-digits [] n h ne v lt = absurd (ne refl)
int_of-digits (c ∷ t) n (d, h) ne v lt = unfold is_digit in ground arith

-- toInt reads what number printed, up to 2^31.
pub to_int-number : (n : ℕ) → n < 2 ^ 31 → to_int (number n) ≡ pos n
unfolding to_int
to_int-number n h =
    rw (trimmed-eq_self (number n) (AllDigits-IsTrimmed (number n) (AllDigits-number n)))
      (int_of-digits (number n) n (AllDigits-number n) (number-ne-nil n) (digits_value-number n) h)

pub AllDigits-plain : (c : ℕ) (t : Text) → is_digit c ≡ false → AllDigits t → has_char c t ≡ false
unfolding has_char
AllDigits-plain c [] e h = refl
AllDigits-plain c (d ∷ t) e (f, h) = ground (arith, AllDigits-plain c t e h, ap is_digit)

pub number-injective : (m n : ℕ) → number m ≡ number n → m ≡ n
number-injective m n e =
    some-injective (subst (λ (t : Text). digits_value 0 t ≡ some n) (sym e) (digits_value-number n))
      (digits_value-number m)
  where
    some-injective : {k : Option ℕ} → k ≡ some n → k ≡ some m → m ≡ n
    some-injective p q = cc (p, q)
