-- ===== src/OptionValue/Edits.antt =====
-- OptionValue::set and setImplied, between the constructor and toString.
use qemu_gui_manager.Prelude.{
  ℕ, ◌≡◌, refl, sym, ap, ◌∙◌, ◌≢◌, ◌⊎◌, inl, inr, false, not, ◌&&◌, [], ◌∷◌, arith, if◌then◌else◌,
  Bool-cases,
}
use qemu_gui_manager.OptionValue.Parts.{escape-eq_self, split_items-escape}
use qemu_gui_manager.Text.{Text, is_empty, text_eq, has_char, starts_with_char}
use qemu_gui_manager.Text.Laws.{text_eq_iff, index_of-eq-none}
use qemu_gui_manager.OptionValue.{
  OptionValue, comma, equals, parse_part, parse_parts, parse, implied, set_implied, get, set,
  escape, to_string, Item,
}
use qemu_gui_manager.OptionValue.Readable.{
  raw, IsKeyed, IsImpliedValue, AreReadable, IsReadable, raw_keyed-ne-nil,
}
use qemu_gui_manager.OptionValue.RoundTrip.{parse-of_parts, parse-to_string}
use qemu_gui_manager.OptionValue.Lookup.{
  get-set_self, get-set_ne, implied-set_implied, get-set_implied,
}
use qemu_gui_manager.OptionValue.Clean.{IsClean, parse-IsReadable}

-- A key that can be written: `tag`, `size` and the like.
abbrev pub IsKeyName : Text → Type 0
IsKeyName k = (k ≢ []) × (has_char equals k ≡ false) × (starts_with_char k comma ≡ false)

pub set-AreReadable :
    (k v : Text) (o : OptionValue) → IsKeyName k → AreReadable o → AreReadable (set k v o)
unfolding set
set-AreReadable k v [] (n, e, s) h = (inl (refl, n, e), s, n, tt)
set-AreReadable k v (i ∷ is) (n, e, s) (ki, si, ni, h) = elim (Bool-cases (text_eq i.key k)) [
  | inl eq ↦
      let same = (text_eq_iff i.key k).0 eq in
      rw (eq, if◌then◌else◌) (inl (refl, ni, rw same e), si, ni, h)
  | inr ne ↦ rw (ne, if◌then◌else◌) (ki, si, ni, set-AreReadable k v is (n, e, s) h)
]

set-ne-nil : (k v : Text) (o : OptionValue) → set k v o ≢ []
unfolding set
set-ne-nil k v [] = λ e. cc
set-ne-nil k v (i ∷ is) = ground arith

pub set-IsReadable :
    (k v : Text) (o : OptionValue) → IsKeyName k → IsReadable o → IsReadable (set k v o)
unfolding set
set-IsReadable k v [] (n, e, s) h = (
  inl (refl, n, e),
  s,
  (λ r. absurd (raw_keyed-ne-nil (record { key = k; value = v; bare = false }) n r)),
  tt,
)
set-IsReadable k v (i ∷ is) (n, e, s) (ki, si, ni, h) = elim (Bool-cases (text_eq i.key k)) [
  | inl eq ↦
      let same = (text_eq_iff i.key k).0 eq in
      let named : i.key ≢ [] = rw same n in
      rw (eq, if◌then◌else◌)
        (
          inl (refl, named, rw same e),
          si,
          (λ r. absurd (raw_keyed-ne-nil (record i { value = v; bare = false }) named r)),
          h,
        )
  | inr ne ↦
      rw (ne, if◌then◌else◌) (ki, si, (λ r. set-ne-nil k v is), set-AreReadable k v is (n, e, s) h)
]

AreReadable-first :
    (i : Item) (is : OptionValue)
    → IsKeyed i ⊎ IsImpliedValue i
    → starts_with_char i.key comma ≡ false
    → (i.key ≡ [] → ⊥)
    → AreReadable is
    → AreReadable (i ∷ is)
AreReadable-first i is (inl k) s n h = (inl k, s, n, h)
AreReadable-first i is (inr (b, k, _)) s n h = absurd (n k)

pub is_empty-eq-false : (t : Text) → t ≢ [] → is_empty t ≡ false
is_empty-eq-false t h = ground arith

pub set_implied-IsReadable :
    (v : Text) (o : OptionValue)
    → v ≢ []
    → has_char equals v ≡ false
    → IsReadable o
    → IsReadable (set_implied v o)
unfolding set_implied raw
set_implied-IsReadable v [] n e h = (inr (refl, refl, e), refl, (λ r. absurd (n r)), tt)
set_implied-IsReadable v (i ∷ is) n e (inr (b, k, f), si, ni, h) =
    rw (k, b, is_empty, ◌&&◌, not, if◌then◌else◌)
      (inr (refl, refl, e), refl, (λ r. absurd (n r)), h)
set_implied-IsReadable v (i ∷ is) n e (inl (b, k, f), si, ni, h) =
    rw (is_empty-eq-false i.key k, ◌&&◌, if◌then◌else◌)
      (inr (refl, refl, e), refl, (λ r. absurd (n r)), (inl (b, k, f), si, k, h))

module _ (t k v : Text) (clean : IsClean t) (name : IsKeyName k) where
  pub reparse : parse (to_string (set k v (parse t))) ≡ set k v (parse t)
  reparse = parse-to_string _ (set-IsReadable k v (parse t) name (parse-IsReadable t clean))

  -- A key name that is set in a clean text, to any value, is read back with that value from what
  -- is written, whatever the fallback. IsKeyName and IsClean say which those are.
  pub get-reparse_self :
      (fallback : Text) → get k fallback (parse (to_string (set k v (parse t)))) ≡ v
  get-reparse_self fallback = rw reparse (get-set_self k v fallback (parse t))

  -- Every key but the one that was set, a key name, in a clean text is read back from what is
  -- written as it was read before the edit.
  get-reparse_ne :
      (j fallback : Text)
      → k ≢ j
      → get j fallback (parse (to_string (set k v (parse t)))) ≡ get j fallback (parse t)
  get-reparse_ne j fallback h = rw reparse (get-set_ne k j v fallback (parse t) h)

module _ (t v : Text) (clean : IsClean t) (filled : v ≢ [])
    (plain : has_char equals v ≡ false) where
  reparse_implied : parse (to_string (set_implied v (parse t))) ≡ set_implied v (parse t)
  reparse_implied =
      parse-to_string _ (set_implied-IsReadable v (parse t) filled plain (parse-IsReadable t clean))

  -- An implied value that is set in a clean text is read back from what is written, if it is not
  -- empty and has no `=`.
  pub implied-reparse : implied (parse (to_string (set_implied v (parse t)))) ≡ v
  implied-reparse = rw reparse_implied (implied-set_implied v (parse t))

  pub get-reparse_implied :
      (j fallback : Text)
      → j ≢ []
      → get j fallback (parse (to_string (set_implied v (parse t)))) ≡ get j fallback (parse t)
  get-reparse_implied j fallback h = rw reparse_implied (get-set_implied j v fallback (parse t) h)

escape-ne-nil : (c : ℕ) (t : Text) → escape (c ∷ t) ≢ []
unfolding escape
escape-ne-nil c t = ground arith

-- An escaped text with no `=` is the implied value alone.
pub implied-escape : (v : Text) → has_char equals v ≡ false → implied (parse (escape v)) ≡ v
implied-escape [] h = unfold parse escape implied in refl
implied-escape (c ∷ t) h =
    ap implied
      (parse-of_parts (escape (c ∷ t)) (c ∷ t) [] (split_items-escape (c ∷ t)) (escape-ne-nil c t))
    ∙ (unfold parse_parts parse_part implied in ground (arith, index_of-eq-none equals (c ∷ t) h))

-- A text of one word is read as the implied value.
pub implied-parse_plain :
    (v : Text) → has_char equals v ≡ false → has_char comma v ≡ false → implied (parse v) ≡ v
implied-parse_plain v h k =
    ap (λ (t : Text). implied (parse t)) (sym (escape-eq_self v k)) ∙ implied-escape v h
