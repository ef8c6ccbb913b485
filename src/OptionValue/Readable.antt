-- ===== src/OptionValue/Readable.antt =====
-- The option values that the syntax can express.
use qemu_gui_manager.Prelude.{
  ◌≡◌, refl, ◌≢◌, ◌⊎◌, inl, inr, Bool, true, false, [], ◌∷◌, ◌++◌, map, arith, if◌then◌else◌,
}
use qemu_gui_manager.Text.{Text, is_empty, has_char, starts_with_char}
use qemu_gui_manager.Text.Laws.{
  index_of-append, index_of-eq-none, take-append_length, drop-append_length,
}
use qemu_gui_manager.OptionValue.{
  OptionValue, comma, equals, parse_part, parse_parts, escape, item_text, Item,
}
use qemu_gui_manager.OptionValue.Parts.{escape-append, IsTail}

-- The item as written, but for the escapes.
unfoldable pub raw : Item → Text
raw i = if is_empty i.key then i.value else if i.bare then i.key else i.key ++ (equals ∷ i.value)

pub item_text-raw : (i : Item) → item_text i ≡ escape (raw i)
unfolding item_text raw escape
item_text-raw i = ground (arith, escape-append i.key (equals ∷ i.value))

-- `key=value`, a bare word, or the implied value, which stands first.
abbrev pub IsKeyed : Item → Type 0
IsKeyed i = (i.bare ≡ false) × (i.key ≢ []) × (has_char equals i.key ≡ false)

abbrev pub IsWord : Item → Type 0
IsWord i = (i.bare ≡ true) × (i.value ≡ []) × (has_char equals i.key ≡ false)

abbrev pub IsImpliedValue : Item → Type 0
IsImpliedValue i = (i.bare ≡ false) × (i.key ≡ []) × (has_char equals i.value ≡ false)

-- Items after the first: a key or word starts with no comma and is not empty.
abbrev pub AreReadable : OptionValue → Type 0
AreReadable [] = Unit
AreReadable (i ∷ is) =
    (IsKeyed i ⊎ IsWord i) × (starts_with_char i.key comma ≡ false) × (i.key ≢ []) × AreReadable is

abbrev pub IsReadable : OptionValue → Type 0
IsReadable [] = Unit
IsReadable (i ∷ is) =
    (IsKeyed i ⊎ IsImpliedValue i)
    × (starts_with_char i.key comma ≡ false)
    × (raw i ≡ [] → is ≢ [])
    × AreReadable is

parse_part-keyed : (first : Bool) (i : Item) → IsKeyed i → parse_part first (raw i) ≡ i
unfolding parse_part raw
parse_part-keyed first i (b, k, e) = ground (
  arith,
  index_of-append equals i.key i.value e,
  take-append_length i.key (equals ∷ i.value),
  drop-append_length equals i.key i.value,
)

parse_part-word : (i : Item) → IsWord i → parse_part false (raw i) ≡ i
unfolding parse_part raw
parse_part-word i (b, v, e) = ground (arith, index_of-eq-none equals i.key e)

parse_part-implied : (i : Item) → IsImpliedValue i → parse_part true (raw i) ≡ i
unfolding parse_part raw
parse_part-implied i (b, k, e) = ground (arith, index_of-eq-none equals i.value e)

raw-starts :
    (i : Item)
    → IsKeyed i ⊎ IsWord i
    → starts_with_char i.key comma ≡ false
    → starts_with_char (raw i) comma ≡ false
unfolding raw
raw-starts i h s = ground arith

raw-ne-nil : (i : Item) → IsKeyed i ⊎ IsWord i → raw i ≡ [] → i.key ≡ []
unfolding raw
raw-ne-nil i h s = ground arith

-- Each item comes back from its text.
pub parse_parts-raw : (is : OptionValue) → AreReadable is → parse_parts false (map raw is) ≡ is
unfolding parse_parts
parse_parts-raw [] h = refl
parse_parts-raw (i ∷ is) (inl k, _, _, h) = rw (parse_part-keyed false i k, parse_parts-raw is h)
parse_parts-raw (i ∷ is) (inr w, _, _, h) = rw (parse_part-word i w, parse_parts-raw is h)

pub parse_part-first : (i : Item) → IsKeyed i ⊎ IsImpliedValue i → parse_part true (raw i) ≡ i
parse_part-first i (inl k) = parse_part-keyed true i k
parse_part-first i (inr v) = parse_part-implied i v

pub IsTail-raw : (is : OptionValue) → AreReadable is → IsTail (map raw is)
IsTail-raw [] h = tt
IsTail-raw (i ∷ is) (k, s, e, h) =
    (raw-starts i k s, (λ r. absurd (e (raw-ne-nil i k r))), IsTail-raw is h)

pub raw_keyed-ne-nil : (i : Item) → i.key ≢ [] → raw i ≢ []
unfolding raw
raw_keyed-ne-nil i h = ground arith
