-- ===== src/VmConfig/MemoryLine.antt =====
-- VmConfig::memoryMiB and setMemoryMiB, where -m gives the memory.
use qemu_gui_manager.ArgsFile.Index.{
  line_index-bound, line_index-set_text_at, text_at-set_text_at, text_at-set_text_at_ne,
  indexes_from-set_text_at,
}
use qemu_gui_manager.Prelude.{
  ℕ, zero, suc, ◌*◌, ◌/◌, ◌%◌, ◌^◌, ◌<◌, ◌≡◌, refl, ap, ◌∙◌, ◌≢◌, inl, inr, Bool, false, none, some,
  List, [], ◌∷◌, ◌++◌, arith, ◌==◌, Bool-cases,
}
use qemu_gui_manager.Numbers.Decimal.{AllDigits-number, AllDigits-plain}
use qemu_gui_manager.OptionValue.Clean.{IsClean}
use qemu_gui_manager.VmConfig.Name.{implied_or, set_implied_or}
use qemu_gui_manager.VmConfig.Naming.{implied_or-reparse}
use qemu_gui_manager.VmConfig.SizeText.{format_mib-gib, format_mib-mib, parse_size-format_mib}
use qemu_gui_manager.Text.{Text, codes, has_char}
use qemu_gui_manager.Numbers.{number, is_digit, pos, Conversions}
use qemu_gui_manager.OptionValue.{equals, parse, to_string}
use qemu_gui_manager.ArgsFile.{
  ArgsFile, indexes_of, line_index, text_at, value_at, set_text_at, set_value_at, option,
}
use qemu_gui_manager.ArgsFile.Apart.{AllApart, line_index-AllApart}
use qemu_gui_manager.VmConfig.Sizes.{parse_size, format_mib}
use qemu_gui_manager.VmConfig.Memory.{
  last_key, machine_key, first_backend, ram_backend, size_key, mib_of, m_size, memory_mib, set_m,
  set_memory_mib,
}

value_at-apart :
    (t : Text) (i j : ℕ) (args : ArgsFile)
    → i ≢ j
    → value_at (set_text_at i t args) j ≡ value_at args j
unfolding value_at
value_at-apart t i j args h = ap parse (text_at-set_text_at_ne t i j args h)

module _ (t : Text) (i : ℕ) (args : ArgsFile) where
  last_key-apart :
      (k : Text) (js : List ℕ) (v : Text)
      → AllApart i js
      → last_key (set_text_at i t args) k v js ≡ last_key args k v js
  unfolding last_key
  last_key-apart k [] v a = refl
  last_key-apart k (j ∷ js) v (h, a) = rw (value_at-apart t i j args h) (last_key-apart k js _ a)

  first_backend-apart :
      (id : Text) (js : List ℕ)
      → AllApart i js
      → first_backend (set_text_at i t args) id js ≡ first_backend args id js
  unfolding first_backend
  first_backend-apart id [] a = refl
  first_backend-apart id (j ∷ js) (h, a) =
      rw (value_at-apart t i j args h, first_backend-apart id js a) refl

snoc-ne-nil : (t : Text) (c : ℕ) → t ++ (c ∷ []) ≢ []
snoc-ne-nil [] c = λ e. cc
snoc-ne-nil (x ∷ t) c = λ e. cc

has_char-snoc :
    (ch : ℕ) (t : Text) (c : ℕ)
    → has_char ch t ≡ false
    → (c == ch) ≡ false
    → has_char ch (t ++ (c ∷ [])) ≡ false
unfolding has_char
has_char-snoc ch [] c h e = rw e refl
has_char-snoc ch (x ∷ t) c h e = ground (arith, has_char-snoc ch t c)

number-plain : (n : ℕ) → has_char equals (number n) ≡ false
number-plain n = AllDigits-plain equals (number n) (unfold is_digit in refl) (AllDigits-number n)

format_mib-ne-nil : (mib : ℕ) → format_mib mib ≢ []
format_mib-ne-nil mib = elim (Bool-cases (mib % 1024 == 0)) [
  | inl e ↦ rw (format_mib-gib mib e) (snoc-ne-nil (number (mib / 1024)) b'G')
  | inr e ↦ rw (format_mib-mib mib e) (snoc-ne-nil (number mib) b'M')
]

format_mib-plain : (mib : ℕ) → has_char equals (format_mib mib) ≡ false
format_mib-plain mib = elim (Bool-cases (mib % 1024 == 0)) [
  | inl e ↦
      rw (format_mib-gib mib e)
        (has_char-snoc equals (number (mib / 1024)) b'G' (number-plain (mib / 1024)) refl)
  | inr e ↦
      rw (format_mib-mib mib e) (has_char-snoc equals (number mib) b'M' (number-plain mib) refl)
]

mib_of-pos : (n otherwise : ℕ) → 0 < n → mib_of (pos n) otherwise ≡ n / 2 ^ 20
mib_of-pos zero o h = absurd (omega (arith, h))
mib_of-pos (suc n) o h = refl

module _ (t : Text) (i : ℕ) (args : ArgsFile)
    (found : line_index (codes "m") option args ≡ some i) where
  machine_key-apart : (k : Text) → machine_key k (set_text_at i t args) ≡ machine_key k args
  unfolding machine_key
  machine_key-apart k = rw (indexes_from-set_text_at (codes "machine") option t 0 i args) (
      last_key-apart t i args k (indexes_of (codes "machine") option args) []
        (line_index-AllApart (codes "m") (codes "machine") option args i (λ e. cc) found))

  ram_backend-apart : ram_backend (set_text_at i t args) ≡ ram_backend args
  unfolding ram_backend
  ram_backend-apart =
      rw
        (
          machine_key-apart (codes "memory-backend"),
          indexes_from-set_text_at (codes "object") option t 0 i args,
          first_backend-apart t i args (machine_key (codes "memory-backend") args)
              (indexes_of (codes "object") option args)
              (line_index-AllApart (codes "m") (codes "object") option args i (λ e. cc) found),
        )
        refl

set_m-found :
    (backed : Bool) (mib i : ℕ) (args : ArgsFile)
    → line_index (codes "m") option args ≡ some i
    → set_m backed mib args
      ≡ set_text_at i
          (to_string (set_implied_or size_key (format_mib mib) (parse (text_at args i))))
          args
unfolding set_m value_at set_value_at
set_m-found backed mib i args found = rw (found, set_m) refl

m_size-found :
    (q : Conversions) (i : ℕ) (args : ArgsFile)
    → line_index (codes "m") option args ≡ some i
    → m_size q args
      ≡ mib_of (parse_size q (implied_or size_key (parse (text_at args i))) (2 ^ 20)) 0
unfolding m_size value_at
m_size-found q i args found = rw (found, m_size) refl

set_memory_mib-unbacked :
    (mib : ℕ) (args : ArgsFile)
    → ram_backend args ≡ none
    → set_memory_mib mib args ≡ set_m false mib args
unfolding set_memory_mib
set_memory_mib-unbacked mib args none_backed = rw (none_backed, set_memory_mib) refl

memory_mib-unbacked :
    (q : Conversions) (args : ArgsFile)
    → ram_backend args ≡ none
    → memory_mib q args ≡ m_size q args
unfolding memory_mib
memory_mib-unbacked q args none_backed = rw (none_backed, memory_mib) refl

-- The memory in MiB that is set, above 0 and below 2^43, is read back, for a file without a memory
-- backend whose first -m line is clean.
pub memory_mib-set_memory_mib :
    (q : Conversions) (mib i : ℕ) (args : ArgsFile)
    → 0 < mib
    → mib < 2 ^ 43
    → ram_backend args ≡ none
    → line_index (codes "m") option args ≡ some i
    → IsClean (text_at args i)
    → memory_mib q (set_memory_mib mib args) ≡ mib
memory_mib-set_memory_mib q mib i args low high none_backed found clean =
    let text = to_string (set_implied_or size_key (format_mib mib) (parse (text_at args i))) in
    let args2 = set_text_at i text args in
    let still = ram_backend-apart text i args found ∙ none_backed in
    let found2 = line_index-set_text_at (codes "m") option text i args ∙ found in
    let read = text_at-set_text_at text i args (line_index-bound (codes "m") option args i found) in
    let back =
      implied_or-reparse (text_at args i) size_key (format_mib mib) clean
        ((λ e. cc), (unfold has_char in refl), refl) (format_mib-ne-nil mib)
        (format_mib-plain mib) in
    rw
      (
        set_memory_mib-unbacked mib args none_backed,
        set_m-found false mib i args found,
        memory_mib-unbacked q args2 still,
        m_size-found q i args2 found2,
        read,
        back,
        parse_size-format_mib q mib (2 ^ 20) high,
      )
      (mib_of-pos (mib * 2 ^ 20) 0 (omega (arith, low)) ∙ omega arith)
