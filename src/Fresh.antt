-- ===== src/Fresh.antt =====
-- src/core/vmconfig.cpp: the loop of useSharedMemory that numbers an id until it is free.
use qemu_gui_manager.Prelude.{
  ℕ, zero, suc, ◌≤◌, ◌<◌, ◌≡◌, refl, sym, ◌∙◌, ◌≢◌, inl, inr, true, false, Option, none, some, List,
  [], ◌∷◌, arith, if◌then◌else◌, Bool-cases, length,
}
use qemu_gui_manager.Text.{Text, text_eq, one_of}
use qemu_gui_manager.Text.Laws.{text_eq_iff}

-- `for (n = ...;; n++)` up to the first candidate that is not used; `none` is out of fuel.
unfoldable pub first_free : ℕ → (ℕ → Text) → List Text → ℕ → Option Text
unfolding one_of
first_free zero candidate used n = none
first_free (suc fuel) candidate used n =
    let rest = first_free fuel candidate used (suc n) in
    if one_of (candidate n) used then rest else some (candidate n)

without : Text → List Text → List Text
without t [] = []
without t (u ∷ us) = let rest = without t us in if text_eq u t then rest else u ∷ rest

one_of-without : (t s : Text) (us : List Text) → s ≢ t → one_of s (without t us) ≡ one_of s us
unfolding one_of without
one_of-without t s [] h = refl
one_of-without t s (u ∷ us) h =
    ground (arith, text_eq_iff u t, text_eq_iff s u, one_of-without t s us h)

length-without-le : (t : Text) (us : List Text) → length (without t us) ≤ length us
unfolding without
length-without-le t [] = omega arith
length-without-le t (u ∷ us) = ground (arith, length-without-le t us)

length-without :
    (t : Text) (us : List Text) → one_of t us ≡ true → length (without t us) < length us
unfolding one_of without
length-without t [] h = cc
length-without t (u ∷ us) h =
    ground (arith, text_eq_iff u t, text_eq_iff t u, length-without-le t us, length-without t us)

module _ (candidate : ℕ → Text) where
  first_free-cong :
      (fuel : ℕ) (us ws : List Text) (n : ℕ)
      → ((m : ℕ) → n ≤ m → one_of (candidate m) us ≡ one_of (candidate m) ws)
      → first_free fuel candidate us n ≡ first_free fuel candidate ws n
  unfolding first_free
  first_free-cong zero us ws n h = refl
  first_free-cong (suc fuel) us ws n h =
      rw (h n (omega arith)) (rw (first_free-cong fuel us ws (suc n) (λ m le. h m (omega arith))))

  -- With more fuel than names in use, the loop ends, whatever it starts from.
  pub first_free_total :
      ((a b : ℕ) → candidate a ≡ candidate b → a ≡ b)
      → (fuel : ℕ) (used : List Text) (n : ℕ) → length used < fuel
      → (m : ℕ) × (first_free fuel candidate used n ≡ some (candidate m))
  unfolding first_free
  first_free_total inj zero used n h = elim h [ ]
  first_free_total inj (suc fuel) used n h = elim (Bool-cases (one_of (candidate n) used)) [
    | inr e ↦ (n, rw (e, if◌then◌else◌))
    | inl e ↦
        let fewer = length-without (candidate n) used e in
        let (m, found) =
          first_free_total inj fuel (without (candidate n) used) (suc n) (omega arith) in
        let same = first_free-cong fuel used (without (candidate n) used) (suc n) (λ k le. sym (
          one_of-without (candidate n) (candidate k) used
            (λ q. absurd (omega (arith, inj k n q))))) in
        (m, rw (e, if◌then◌else◌) (same ∙ found))
  ]

  -- What the loop gives is free.
  pub first_free-is_free :
      (fuel : ℕ) (used : List Text) (n : ℕ) {id : Text}
      → first_free fuel candidate used n ≡ some id
      → one_of id used ≡ false
  unfolding first_free
  first_free-is_free zero used n h = cc
  first_free-is_free (suc fuel) used n h = elim (Bool-cases (one_of (candidate n) used)) [
    | inl e ↦ first_free-is_free fuel used (suc n) (rw (e, if◌then◌else◌) at h)
    | inr e ↦ ground arith
  ]
