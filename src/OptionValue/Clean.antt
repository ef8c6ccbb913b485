-- ===== src/OptionValue/Clean.antt =====
-- The texts whose items the constructor of OptionValue can be given back.
use qemu_gui_manager.Prelude.{
  ℕ, ◌≡◌, refl, sym, ap, ◌∙◌, ◌≢◌, ◌⊎◌, inl, inr, Bool, true, false, some, List, [], ◌∷◌, ◌++◌, map,
  arith, ◌==◌, if◌then◌else◌, ==_iff, Bool-cases, Option-cases,
}
use qemu_gui_manager.OptionValue.RoundTrip.{raw-parse_part}
use qemu_gui_manager.Text.Laws.{has_char-eq-false, cut_at}
use qemu_gui_manager.OptionValue.Parts.{
  split_from_char, split_from_pair, split_from-comma, join-split_items,
}
use qemu_gui_manager.OptionValue.Readable.{IsKeyed, IsWord, IsImpliedValue, AreReadable, IsReadable}
use qemu_gui_manager.Text.{Text, has_char, index_of, starts_with_char, join}
use qemu_gui_manager.OptionValue.{
  comma, equals, split_from, split_items, parse_part, parse_parts, parse, escape,
}

-- No part starts with `=`, only the first may be empty, and it starts with no comma.
abbrev pub AreCleanParts : List Text → Type 0
AreCleanParts [] = Unit
AreCleanParts (p ∷ ps) = (starts_with_char p equals ≡ false) × (p ≢ []) × AreCleanParts ps

abbrev FirstClean : List Text → Type 0
FirstClean [] = Unit
FirstClean (p ∷ ps) =
    (starts_with_char p equals ≡ false) × (starts_with_char p comma ≡ false) × AreCleanParts ps

abbrev pub IsClean : Text → Type 0
IsClean t = FirstClean (split_items t)

-- The parts after the first start with no comma: a comma would have been read as half of a pair.
abbrev NoCommaStart : List Text → Type 0
NoCommaStart [] = Unit
NoCommaStart (p ∷ ps) = (starts_with_char p comma ≡ false) × NoCommaStart ps

abbrev TailNoComma : List Text → Type 0
TailNoComma [] = Unit
TailNoComma (p ∷ ps) = NoCommaStart ps

abbrev HeadIs : ℕ → List Text → Type 0
HeadIs c [] = ⊥
HeadIs c (p ∷ ps) = starts_with_char p comma ≡ (c == comma)

split_from-HeadIs : (c : ℕ) (cur t : Text) → HeadIs c (split_from (c ∷ cur) t)
unfolding split_from
split_from-HeadIs c cur [] = refl
split_from-HeadIs c cur (d ∷ []) = ground arith
split_from-HeadIs c cur (d ∷ e ∷ t) = ground (
  arith,
  split_from-HeadIs c (cur ++ (d ∷ [])) (e ∷ t),
  split_from-HeadIs c (cur ++ (comma ∷ [])) t,
)

all_of :
    (c : ℕ) (ps : List Text) → (c == comma) ≡ false → HeadIs c ps → TailNoComma ps → NoCommaStart ps
all_of c [] e h t = tt
all_of c (p ∷ ps) e h t = (h ∙ e, t)

split_from-TailNoComma : (cur t : Text) → TailNoComma (split_from cur t)
split_from-TailNoComma cur [] = unfold split_from in tt
split_from-TailNoComma cur (c ∷ []) =
    unfold split_from in
    elim (Bool-cases (c == comma)) [
      | inl e ↦ rw (e, if◌then◌else◌) (refl, tt)
      | inr e ↦ rw (e, if◌then◌else◌) tt
    ]
split_from-TailNoComma cur (c ∷ d ∷ t) = elim (Bool-cases (c == comma)) [
  | inr e ↦ rw (split_from_char c cur (d ∷ t) e) (split_from-TailNoComma (cur ++ (c ∷ [])) (d ∷ t))
  | inl e ↦ rw ((==_iff c comma).0 e) (elim (Bool-cases (d == comma)) [
    | inl f ↦
        rw ((==_iff d comma).0 f)
          (rw (split_from_pair cur t) (split_from-TailNoComma (cur ++ (comma ∷ [])) t))
    | inr f ↦ rw (split_from-comma cur (d ∷ t) f) (
        all_of d (split_from [] (d ∷ t)) f
          (rw (split_from_char d [] t f) (split_from-HeadIs d [] t))
          (split_from-TailNoComma [] (d ∷ t)))
  ])
]

-- The items of a clean text are readable.
parse_part-IsKeyed :
    (first : Bool) (p : Text) (i : ℕ)
    → index_of equals p ≡ some i
    → starts_with_char p equals ≡ false
    → IsKeyed (parse_part first p)
unfolding parse_part
parse_part-IsKeyed first [] i e h = unfold index_of in cc
parse_part-IsKeyed first (c ∷ p) i e h = ground (arith, cut_at equals i (c ∷ p) e)

parse_part-key_start :
    (p : Text)
    → starts_with_char p equals ≡ false
    → starts_with_char p comma ≡ false
    → starts_with_char (parse_part false p).key comma ≡ false
unfolding parse_part
parse_part-key_start [] e h = unfold index_of in refl
parse_part-key_start (c ∷ p) e h = elim (Option-cases (index_of equals (c ∷ p))) [
  | inl n ↦ ground arith
  | inr (i, n) ↦ ground (arith, cut_at equals i (c ∷ p) n)
]

parse_part-rest :
    (p : Text)
    → starts_with_char p equals ≡ false
    → p ≢ []
    → (IsKeyed (parse_part false p) ⊎ IsWord (parse_part false p)) × ((parse_part false p).key ≢ [])
parse_part-rest p e ne = elim (Option-cases (index_of equals p)) [
  | inr (i, n) ↦ let k = parse_part-IsKeyed false p i n e in (inl k, k.1)
  | inl n ↦ unfold parse_part in ground (arith, has_char-eq-false equals p n)
]

parse_parts-AreReadable :
    (ps : List Text) → AreCleanParts ps → NoCommaStart ps → AreReadable (parse_parts false ps)
unfolding parse_parts
parse_parts-AreReadable [] c n = tt
parse_parts-AreReadable (p ∷ ps) (e, ne, c) (s, n) =
    let (k, kn) = parse_part-rest p e ne in
    (k, parse_part-key_start p e s, kn, parse_parts-AreReadable ps c n)

parse_part-first_key :
    (p : Text)
    → starts_with_char p equals ≡ false
    → starts_with_char p comma ≡ false
    → (IsKeyed (parse_part true p) ⊎ IsImpliedValue (parse_part true p))
      × (starts_with_char (parse_part true p).key comma ≡ false)
parse_part-first_key [] e s =
    unfold parse_part index_of in (inr (refl, refl, unfold has_char in refl), refl)
parse_part-first_key (c ∷ p) e s = elim (Option-cases (index_of equals (c ∷ p))) [
  | inr (i, n) ↦ (
    inl (parse_part-IsKeyed true (c ∷ p) i n e),
    (unfold parse_part in ground (arith, cut_at equals i (c ∷ p) n)),
  )
  | inl n ↦ unfold parse_part in ground (arith, has_char-eq-false equals (c ∷ p) n)
]

split_items-ne : (t : Text) (ps : List Text) → split_items t ≡ [] ∷ ps → ps ≡ [] → t ≡ []
unfolding join escape
split_items-ne t ps e n =
    sym (join-split_items t) ∙ ap (λ (us : List Text). join comma (map escape us)) e ∙ rw n

parse-IsReadable_of :
    (c : ℕ) (t : Text) (ps : List Text)
    → split_items (c ∷ t) ≡ ps
    → FirstClean ps
    → TailNoComma ps
    → IsReadable (parse_parts true ps)
unfolding parse_parts
parse-IsReadable_of c t [] h f n = tt
parse-IsReadable_of c t (p ∷ ps) h (e, s, f) n =
    let (k, ks) = parse_part-first_key p e s in
    (
      k,
      ks,
      (λ r q.
          let empty : p ≡ [] = sym (raw-parse_part true p e) ∙ r in
          cc (split_items-ne (c ∷ t) ps (h ∙ ap (λ (u : Text). u ∷ ps) empty) (parts_empty ps q))),
      parse_parts-AreReadable ps f n,
    )
  where
    parts_empty : (ps : List Text) → parse_parts false ps ≡ [] → ps ≡ []
    parts_empty [] q = refl
    parts_empty (x ∷ xs) q = cc

pub parse-IsReadable : (t : Text) → IsClean t → IsReadable (parse t)
unfolding parse
parse-IsReadable [] h = tt
parse-IsReadable (c ∷ t) h =
    parse-IsReadable_of c t (split_items (c ∷ t)) refl h (split_from-TailNoComma [] (c ∷ t))
