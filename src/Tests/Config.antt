-- ===== src/Tests/Config.antt =====
-- The settings of a VM: concrete files.
use qemu_gui_manager.Prelude.{
  ℕ, zero, suc, ◌+◌, ◌-◌, ◌*◌, ◌/◌, ◌%◌, ◌^◌, ◌<◌, ◌≡◌, refl, ap, inl, inr, true, false, Option,
  none, some, [], ◌∷◌, arith, ltb, if◌then◌else◌,
}
use qemu_gui_manager.Text.{Text, codes, text_eq, has_char}
use qemu_gui_manager.OptionValue.Readable.{raw}
use qemu_gui_manager.OptionValue.{OptionValue, split_from, parse, implied, to_string}
use qemu_gui_manager.VmConfig.Shares.{share_of, share_value, Share}
use qemu_gui_manager.VmConfig.ShareText.{share_of-share_value}
use qemu_gui_manager.VmConfig.MemoryLine.{memory_mib-set_memory_mib}
use qemu_gui_manager.VmConfig.Memory.{ram_backend, memory_mib, set_memory_mib, use_shared_memory}
use qemu_gui_manager.VmHardware.Graphics.{virtio_cards, no_device, graphics, virtio, Graphics}
use qemu_gui_manager.VmHardware.Card.{driver_of, card_value}
use qemu_gui_manager.VmHardware.Drivers.{Among}
use qemu_gui_manager.VmHardware.CardKind.{card_value-kind}
use qemu_gui_manager.VmConfig.Name.{name_key, name, set_name}
use qemu_gui_manager.Numbers.{digits_value, hex_digit, hex4, pos, negsuc, Conversions}
use qemu_gui_manager.Numbers.Decimal.{digits_value-number}
use qemu_gui_manager.VmConfig.SizeText.{parse_size-format_mib}
use qemu_gui_manager.OptionValue.Clean.{IsClean}
use qemu_gui_manager.ArgsFile.{ArgsFile, named_line, line_index, text_at, option}
use qemu_gui_manager.VmConfig.Naming.{name-set_name}
use qemu_gui_manager.VmConfig.SharedMemory.{use_shared_memory-total}
use qemu_gui_manager.VmConfig.Sizes.{match_size, parse_size, format_mib}

abbrev args : ArgsFile
args =
    named_line option (codes "m") (codes "4G")
    ∷ named_line option (codes "name") (codes "guest=old,process=vm")
    ∷ []

-- A name with `=` is written as a key that nothing reads: the name is empty afterwards.
loses_name : name (set_name (codes "a=b") []) ≡ []
unfolding name set_name
loses_name = refl

adds_name : set_name (codes "a,b") [] ≡ named_line option (codes "name") (codes "a,,b") ∷ []
unfolding set_name
adds_name = refl

reads_size : match_size (codes "1.5 GB") ≡ some (codes "1.5", some 30)
unfolding match_size
reads_size = refl

args-IsClean : (i : ℕ) → line_index name_key option args ≡ some i → IsClean (text_at args i)
unfolding line_index text_at split_from
args-IsClean zero e = cc
args-IsClean (suc zero) e = (refl, refl, (refl, (λ q. cc), tt))
args-IsClean (suc (suc i)) e = cc

name-set_name_example : name (set_name (codes "new,er") args) ≡ codes "new,er"
unfolding has_char
name-set_name_example = name-set_name (codes "new,er") args (λ e. cc) refl args-IsClean

hex_value : ℕ → ℕ
hex_value d = if ltb d 58 then d - 48 else d - 87

hex_value-hex_digit : (d : ℕ) → d < 16 → hex_value (hex_digit d) ≡ d
unfolding hex_value hex_digit
hex_value-hex_digit d h = ground arith

pub hex_of : Text → Option ℕ
unfolding hex_value
hex_of (a ∷ b ∷ c ∷ d ∷ []) =
    some (hex_value a * 4096 + hex_value b * 256 + hex_value c * 16 + hex_value d)
hex_of _ = none

pub hex_of-hex4 : (n : ℕ) → n < 2 ^ 16 → hex_of (hex4 n) ≡ some n
unfolding hex_of hex4
hex_of-hex4 n h = ap some (
    omega (
      arith,
      hex_value-hex_digit (n / 4096 % 16) (omega arith),
      hex_value-hex_digit (n / 256 % 16) (omega arith),
      hex_value-hex_digit (n / 16 % 16) (omega arith),
      hex_value-hex_digit (n % 16) (omega arith),
    ))

-- Conversions of whole numbers without rounding.
abbrev pub exact : Conversions
exact = record {
  scaled = λ t k. elim (digits_value 0 t) [ none ↦ negsuc 0 | some n ↦ pos (n * k) ];
  to_uint = λ t base. hex_of t;
  scaled_number = λ n k a b. rw (digits_value-number n) refl;
  to_uint_hex4 = λ n h. hex_of-hex4 n h;
}

parse_size-format_mib_example : parse_size exact (format_mib 1536) 1 ≡ pos (1536 * 2 ^ 20)
parse_size-format_mib_example = parse_size-format_mib exact 1536 1 (omega arith)

use_shared_memory-total_example : (out : ArgsFile) × (use_shared_memory exact args ≡ some out)
use_shared_memory-total_example = use_shared_memory-total exact args

abbrev music : Share
music = record {
  tag = codes "music";
  path = codes "/srv/a,b";
  cache = codes "auto";
  readonly = true;
  mount = [];
}

abbrev old_line : OptionValue
old_line = parse (codes "tag=old,cache=never,mount=/mnt")

share_of-share_value_example : share_of (parse (to_string (share_value music old_line))) ≡ music
unfolding parse split_from text_eq has_char raw
share_of-share_value_example = share_of-share_value music old_line (
  (refl, refl, refl),
  (
    refl,
    inl (refl, (λ q. cc), refl),
    refl,
    (λ q. cc),
    (
      inl (refl, (λ q. cc), refl),
      refl,
      (λ q. cc),
      (inl (refl, (λ q. cc), refl), refl, (λ q. cc), tt),
    ),
  ),
)

abbrev cpu_args : ArgsFile
cpu_args = named_line option (codes "cpu") (codes "host,+avx") ∷ []

cpu_args-IsClean :
    (i : ℕ) → line_index (codes "cpu") option cpu_args ≡ some i → IsClean (text_at cpu_args i)
unfolding line_index text_at split_from
cpu_args-IsClean zero e = (refl, refl, (refl, (λ q. cc), tt))
cpu_args-IsClean (suc i) e = cc

memory_mib-set_memory_mib_example : memory_mib exact (set_memory_mib 1536 args) ≡ 1536
unfolding ram_backend line_index text_at split_from
memory_mib-set_memory_mib_example =
    memory_mib-set_memory_mib exact 1536 0 args (omega arith) (omega arith) refl refl
      (refl, refl, tt)

-- A virtio card is asked for with the device of another card, where the card had OpenGL.
abbrev plain_card : Graphics
plain_card = record (no_device virtio [] []) { device = codes "qxl" }

abbrev old_card : OptionValue
old_card = parse (codes "virtio-vga-gl,venus=on")

card_value-kind_example : Among virtio_cards (
    implied (
      parse (
        to_string (
          card_value
            (driver_of false (graphics exact args) plain_card)
            (graphics exact args)
            plain_card
            old_card))))
unfolding parse split_from has_char raw
card_value-kind_example =
    card_value-kind exact args plain_card false old_card
      (inr (refl, refl, refl), refl, (λ r. cc), (inl (refl, (λ q. cc), refl), refl, (λ q. cc), tt))
      (λ e. cc) (λ e. cc)
