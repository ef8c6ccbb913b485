-- ===== src/OptionValue/RoundTrip.antt =====
-- The constructor of OptionValue and OptionValue::toString, one after the other.
use qemu_gui_manager.Text.Laws.{cut_at}
use qemu_gui_manager.Prelude.{
  ◌≡◌, refl, ap, ◌∙◌, ◌≢◌, inl, inr, Bool, true, false, List, [], ◌∷◌, map, arith, Option-cases,
}
use qemu_gui_manager.Text.{Text, has_char, index_of, starts_with_char, join}
use qemu_gui_manager.OptionValue.{
  OptionValue, comma, equals, split_items, parse_part, parse_parts, parse, escape, item_text,
  to_string,
}
use qemu_gui_manager.OptionValue.Parts.{
  split_items-join, join-split_items, escape-eq_self, split_items-no_comma,
}
use qemu_gui_manager.OptionValue.Readable.{
  raw, item_text-raw, IsReadable, parse_parts-raw, parse_part-first, IsTail-raw,
}

map-eq-nil {ℓ κ} : {A : Type ℓ} {B : Type κ} (f : A → B) (xs : List A) → map f xs ≡ [] → xs ≡ []
map-eq-nil f [] h = refl
map-eq-nil f (x ∷ xs) h = cc

map-item_text : (o : OptionValue) → map item_text o ≡ map escape (map raw o)
map-item_text [] = refl
map-item_text (i ∷ is) = cc (item_text-raw i, map-item_text is)

to_string-raw : (o : OptionValue) → to_string o ≡ join comma (map escape (map raw o))
unfolding to_string
to_string-raw o = ap (join comma) (map-item_text o)

pub parse-of_parts :
    (t p : Text) (ps : List Text)
    → split_items t ≡ p ∷ ps
    → t ≢ []
    → parse t ≡ parse_parts true (p ∷ ps)
unfolding parse
parse-of_parts [] p ps h ne = absurd (ne refl)
parse-of_parts (c ∷ t) p ps h ne = ap (parse_parts true) h

join-ne-nil :
    (p : Text) (ps : List Text) → (p ≡ [] → ps ≢ []) → join comma (map escape (p ∷ ps)) ≢ []
unfolding join escape
join-ne-nil [] [] h = λ e. h refl refl
join-ne-nil [] (q ∷ qs) h = λ e. cc
join-ne-nil (c ∷ p) [] h = ground arith
join-ne-nil (c ∷ p) (q ∷ qs) h = ground arith

-- An option value that the syntax can express, as IsReadable says, is read back from what is
-- written, item by item.
pub parse-to_string : (o : OptionValue) → IsReadable o → parse (to_string o) ≡ o
parse-to_string [] h = unfold parse to_string join in refl
parse-to_string (i ∷ is) (k, _, ne, h) = rw (to_string-raw (i ∷ is)) (
    parse-of_parts _ (raw i) (map raw is) (split_items-join (raw i) (map raw is) (IsTail-raw is h))
      (join-ne-nil (raw i) (map raw is) (λ r e. ne r (map-eq-nil raw is e)))
    ∙ (unfold parse_parts in rw (parse_part-first i k, parse_parts-raw is h)))

pub raw-parse_part :
    (first : Bool) (p : Text) → starts_with_char p equals ≡ false → raw (parse_part first p) ≡ p
unfolding raw parse_part
raw-parse_part first [] h = unfold index_of in ground arith
raw-parse_part first (c ∷ p) h = elim (Option-cases (index_of equals (c ∷ p))) [
  | inl e ↦ ground arith
  | inr (i, e) ↦ ground (arith, cut_at equals i (c ∷ p) e)
]

-- No part starts with `=`.
abbrev pub HaveNames : List Text → Type 0
HaveNames [] = Unit
HaveNames (p ∷ ps) = (starts_with_char p equals ≡ false) × HaveNames ps

raw-parse_parts :
    (first : Bool) (ps : List Text) → HaveNames ps → map raw (parse_parts first ps) ≡ ps
unfolding parse_parts
raw-parse_parts first [] h = refl
raw-parse_parts first (p ∷ ps) (e, h) = cc (raw-parse_part first p e, raw-parse_parts false ps h)

-- What was not edited is written back as it was: the text of a parsed text is that text, unless
-- one of its parts starts with `=`.
pub to_string-parse : (t : Text) → HaveNames (split_items t) → to_string (parse t) ≡ t
to_string-parse [] h = unfold parse to_string join in refl
to_string-parse (c ∷ t) h =
    to_string-raw (parse (c ∷ t))
    ∙ (unfold parse in rw (raw-parse_parts true (split_items (c ∷ t)) h) (join-split_items (c ∷ t)))

-- A text without commas is what is written of that text with `=` before it: the sign is lost.
to_string-parse_nameless :
    (t : Text) → has_char comma t ≡ false → to_string (parse (equals ∷ t)) ≡ t
unfolding parse parse_parts parse_part index_of to_string item_text join
to_string-parse_nameless t h =
    rw (split_items-no_comma (equals ∷ t) (unfold has_char in h)) (escape-eq_self t h)
