-- ===== src/OptionValue/Firm.antt =====
-- Edits of an OptionValue that leave its first item where it is.
use qemu_gui_manager.Prelude.{
  ◌≡◌, refl, ◌≢◌, ◌⊎◌, inl, inr, false, not, ◌&&◌, [], ◌∷◌, if◌then◌else◌, Bool-cases,
}
use qemu_gui_manager.Text.{Text, is_empty, text_eq, has_char, starts_with_char}
use qemu_gui_manager.Text.Laws.{text_eq_iff}
use qemu_gui_manager.OptionValue.{
  OptionValue, comma, equals, parse, set_implied, set, remove, to_string,
}
use qemu_gui_manager.OptionValue.Readable.{
  raw, IsKeyed, IsImpliedValue, AreReadable, IsReadable, raw_keyed-ne-nil,
}
use qemu_gui_manager.OptionValue.RoundTrip.{parse-to_string}
use qemu_gui_manager.OptionValue.Edits.{IsKeyName, set-AreReadable, is_empty-eq-false}

-- A value that the syntax can express, whose first item has the key `x` and is not empty.
abbrev pub IsFirm : Text → OptionValue → Type 0
IsFirm x [] = ⊥
IsFirm x (i ∷ is) =
    (i.key ≡ x)
    × (IsKeyed i ⊎ IsImpliedValue i)
    × (starts_with_char i.key comma ≡ false)
    × (raw i ≢ [])
    × AreReadable is

pub IsFirm-IsReadable : (x : Text) (v : OptionValue) → IsFirm x v → IsReadable v
IsFirm-IsReadable x [] h = tt
IsFirm-IsReadable x (i ∷ is) (e, k, s, n, h) = (k, s, (λ r. absurd (n r)), h)

pub set-IsFirm : (x k t : Text) (v : OptionValue) → IsKeyName k → IsFirm x v → IsFirm x (set k t v)
unfolding set
set-IsFirm x k t [] name h = elim h [ ]
set-IsFirm x k t (i ∷ is) (n, e, s) (ix, ki, si, ni, h) = elim (Bool-cases (text_eq i.key k)) [
  | inl eq ↦
      let same = (text_eq_iff i.key k).0 eq in
      let named : i.key ≢ [] = rw same n in
      rw (eq, if◌then◌else◌)
        (
          ix,
          inl (refl, named, rw same e),
          si,
          raw_keyed-ne-nil (record i { value = t; bare = false }) named,
          h,
        )
  | inr ne ↦ rw (ne, if◌then◌else◌) (ix, ki, si, ni, set-AreReadable k t is (n, e, s) h)
]

pub set_empty-IsFirm : (k t : Text) → IsKeyName k → IsFirm k (set k t [])
unfolding set
set_empty-IsFirm k t (n, e, s) = (
  refl,
  inl (refl, n, e),
  s,
  raw_keyed-ne-nil (record { key = k; value = t; bare = false }) n,
  tt,
)

remove-AreReadable : (k : Text) (v : OptionValue) → AreReadable v → AreReadable (remove k v)
unfolding remove
remove-AreReadable k [] h = tt
remove-AreReadable k (i ∷ is) (ki, si, ni, h) = elim (Bool-cases (text_eq i.key k)) [
  | inl eq ↦ rw (eq, if◌then◌else◌) (remove-AreReadable k is h)
  | inr ne ↦ rw (ne, if◌then◌else◌) (ki, si, ni, remove-AreReadable k is h)
]

pub remove-IsFirm :
    (x k : Text) (v : OptionValue) → text_eq x k ≡ false → IsFirm x v → IsFirm x (remove k v)
unfolding remove
remove-IsFirm x k [] other h = elim h [ ]
remove-IsFirm x k (i ∷ is) other (ix, ki, si, ni, h) =
    let ne : text_eq i.key k ≡ false = rw ix other in
    rw (ne, if◌then◌else◌) (ix, ki, si, ni, remove-AreReadable k is h)

pub set_implied-IsFirm :
    (d : Text) (v : OptionValue)
    → d ≢ []
    → has_char equals d ≡ false
    → IsReadable v
    → IsFirm [] (set_implied d v)
unfolding set_implied raw
set_implied-IsFirm d [] n e h = (refl, inr (refl, refl, e), refl, n, tt)
set_implied-IsFirm d (i ∷ is) n e (inr (b, k, f), si, ni, h) =
    rw (k, b, is_empty, ◌&&◌, not, if◌then◌else◌) (refl, inr (refl, refl, e), refl, n, h)
set_implied-IsFirm d (i ∷ is) n e (inl (b, k, f), si, ni, h) =
    rw (is_empty-eq-false i.key k, ◌&&◌, if◌then◌else◌)
      (refl, inr (refl, refl, e), refl, n, (inl (b, k, f), si, k, h))

-- Such a value is read back whole from its text.
pub reread : (x : Text) (v : OptionValue) → IsFirm x v → parse (to_string v) ≡ v
reread x v h = parse-to_string v (IsFirm-IsReadable x v h)
