-- ===== src/VmHardware/Bios.antt =====
-- src/core/vmhardware.cpp: the loop of useBios against the list of lines.
use qemu_gui_manager.Prelude.{
  ℕ, zero, suc, ◌≡◌, refl, ap, ◌∙◌, inl, inr, Bool, none, some, List, [], ◌∷◌, ◌++◌, append-nil,
  append_assoc, arith, if◌then◌else◌, Bool-cases, Option-cases, length, get_elem?, take, drop,
  remove_at,
}
use qemu_gui_manager.ArgsFile.{ArgsFile, Line}
use qemu_gui_manager.ArgsFile.Values.{lines_without}
use qemu_gui_manager.VmHardware.Boot.{is_flash, use_bios_below, use_bios}

module _ {ℓ} {A : Type ℓ} where
  take-suc :
      (n : ℕ) (xs : List A) (x : A)
      → get_elem? xs n ≡ some x
      → (take (suc n) xs ≡ take n xs ++ (x ∷ [])) × (drop n xs ≡ x ∷ drop (suc n) xs)
  take-suc n [] x e = cc
  take-suc zero (y ∷ ys) x e = ground arith
  take-suc (suc n) (y ∷ ys) x e = ground (arith, take-suc n ys x)

  take-past :
      (n : ℕ) (xs : List A)
      → get_elem? xs n ≡ none
      → (take (suc n) xs ≡ take n xs) × (drop (suc n) xs ≡ drop n xs)
  take-past zero [] e = (refl, refl)
  take-past (suc n) [] e = (refl, refl)
  take-past zero (y ∷ ys) e = cc
  take-past (suc n) (y ∷ ys) e = ground (arith, take-past n ys)

  take-remove_at : (n : ℕ) (xs : List A) → take n (remove_at n xs) ≡ take n xs
  take-remove_at zero xs = refl
  take-remove_at (suc n) [] = refl
  take-remove_at (suc n) (x ∷ xs) = ap (◌∷◌ x) (take-remove_at n xs)

  drop-remove_at : (n : ℕ) (xs : List A) → drop n (remove_at n xs) ≡ drop (suc n) xs
  drop-remove_at zero [] = refl
  drop-remove_at zero (x ∷ xs) = refl
  drop-remove_at (suc n) [] = refl
  drop-remove_at (suc n) (x ∷ xs) = drop-remove_at n xs

  take-length : (xs : List A) → (take (length xs) xs ≡ xs) × (drop (length xs) xs ≡ [])
  take-length [] = (refl, refl)
  take-length (x ∷ xs) = ground (arith, take-length xs)

lines_without-snoc :
    (p : Line → Bool) (xs : ArgsFile) (l : Line)
    → lines_without p (xs ++ (l ∷ [])) ≡ lines_without p xs ++ (if p l then [] else l ∷ [])
lines_without-snoc p [] l = ground arith
lines_without-snoc p (x ∷ xs) l = ground (arith, lines_without-snoc p xs l)

-- The loop, in the middle of its run: the lines below `n` lose those of the firmware.
use_bios_below_lem :
    (n : ℕ) (args : ArgsFile)
    → use_bios_below n args ≡ lines_without is_flash (take n args) ++ drop n args
unfolding use_bios_below
use_bios_below_lem zero args = refl
use_bios_below_lem (suc n) args = elim (Option-cases (get_elem? args n)) [
  | inl e ↦
      let (t, d) = take-past n args e in
      rw (e, use_bios_below) (use_bios_below_lem n args ∙ rw (t, d) refl)
  | inr (l, e) ↦
      let (t, d) = take-suc n args l e in
      rw (e, use_bios_below)
        (elim (Bool-cases (is_flash l)) [
          | inl f ↦
              rw (f, if◌then◌else◌)
                (use_bios_below_lem n (remove_at n args)
                  ∙ rw
                      (
                        take-remove_at, drop-remove_at, t, lines_without-snoc, f, if◌then◌else◌,
                        append-nil,
                      )
                      refl)
          | inr f ↦
              rw (f, if◌then◌else◌)
                (use_bios_below_lem n args
                  ∙ rw (d, t, lines_without-snoc, f, if◌then◌else◌, append_assoc) refl)
        ])
]

-- The loop is a filter.
pub use_bios-lines_without : (args : ArgsFile) → use_bios args ≡ lines_without is_flash args
unfolding use_bios
use_bios-lines_without args =
    let (t, d) = take-length args in
    use_bios_below_lem (length args) args ∙ rw (t, d, append-nil) refl
