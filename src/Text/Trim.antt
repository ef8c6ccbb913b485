-- ===== src/Text/Trim.antt =====
-- Laws of `trimmed`, and of the pieces that `indexOf`, `left` and `mid` cut.
use qemu_gui_manager.Prelude.{
  ℕ, zero, suc, ◌≡◌, refl, ap, inl, inr, true, false, none, some, [], ◌∷◌, ◌++◌, arith,
  if◌then◌else◌, Bool-cases, length, take, drop,
}
use qemu_gui_manager.Text.{
  Text, has_char, split, is_space, is_ascii_space, trim_left, trim_right, trimmed, index_of_space,
  has_space, starts_blank, ends_blank,
}

abbrev pub IsTrimmed : Text → Type 0
IsTrimmed t = (starts_blank t ≡ false) × (ends_blank t ≡ false)

trim_left-eq_self : (t : Text) → starts_blank t ≡ false → trim_left t ≡ t
unfolding trim_left
trim_left-eq_self [] h = refl
trim_left-eq_self (x ∷ t) h = rw (h, if◌then◌else◌)

trim_right-eq_self : (t : Text) → ends_blank t ≡ false → trim_right t ≡ t
unfolding trim_right
trim_right-eq_self [] h = refl
trim_right-eq_self (x ∷ []) h = rw (h, if◌then◌else◌)
trim_right-eq_self (x ∷ y ∷ t) h = rw (trim_right-eq_self (y ∷ t) h, trim_right)

pub trimmed-eq_self : (t : Text) → IsTrimmed t → trimmed t ≡ t
unfolding trimmed
trimmed-eq_self t (s, e) = rw (trim_left-eq_self t s) (trim_right-eq_self t e)

trim_left-starts : (t : Text) → starts_blank (trim_left t) ≡ false
unfolding trim_left
trim_left-starts [] = refl
trim_left-starts (x ∷ t) = ground (arith, trim_left-starts t)

trim_right-starts : (t : Text) → starts_blank t ≡ false → starts_blank (trim_right t) ≡ false
unfolding trim_right
trim_right-starts [] h = refl
trim_right-starts (x ∷ t) h = ground arith

trim_right-ends : (t : Text) → ends_blank (trim_right t) ≡ false
unfolding trim_right
trim_right-ends [] = refl
trim_right-ends (x ∷ t) = ground (arith, trim_right-ends t)

pub trimmed-IsTrimmed : (t : Text) → IsTrimmed (trimmed t)
unfolding trimmed
trimmed-IsTrimmed t =
    (trim_right-starts (trim_left t) (trim_left-starts t), trim_right-ends (trim_left t))

pub ends_blank-append :
    (a : Text) (x : ℕ) (b : Text) → ends_blank (a ++ (x ∷ b)) ≡ ends_blank (x ∷ b)
ends_blank-append [] x b = refl
ends_blank-append (y ∷ []) x b = refl
ends_blank-append (y ∷ z ∷ a) x b = ends_blank-append (z ∷ a) x b

-- A character that is not in a text is in no piece of it.
module _ (c : ℕ) where
  has_char-trim_left : (t : Text) → has_char c t ≡ false → has_char c (trim_left t) ≡ false
  unfolding trim_left has_char
  has_char-trim_left [] h = h
  has_char-trim_left (x ∷ t) h = ground (arith, has_char-trim_left t)

  has_char-trim_right : (t : Text) → has_char c t ≡ false → has_char c (trim_right t) ≡ false
  unfolding trim_right has_char
  has_char-trim_right [] h = h
  has_char-trim_right (x ∷ t) h = ground (arith, has_char-trim_right t)

  pub has_char-trimmed : (t : Text) → has_char c t ≡ false → has_char c (trimmed t) ≡ false
  unfolding trimmed
  has_char-trimmed t h = has_char-trim_right (trim_left t) (has_char-trim_left t h)

  pub has_char-take : (n : ℕ) (t : Text) → has_char c t ≡ false → has_char c (take n t) ≡ false
  unfolding has_char
  has_char-take zero t h = refl
  has_char-take (suc n) [] h = refl
  has_char-take (suc n) (x ∷ t) h = ground (arith, has_char-take n t)

  pub has_char-drop : (n : ℕ) (t : Text) → has_char c t ≡ false → has_char c (drop n t) ≡ false
  unfolding has_char
  has_char-drop zero t h = h
  has_char-drop (suc n) [] h = refl
  has_char-drop (suc n) (x ∷ t) h = has_char-drop n t (ground arith)

  pub split-append : (a b : Text) → has_char c a ≡ false → split c (a ++ (c ∷ b)) ≡ a ∷ split c b
  unfolding split has_char
  split-append [] b h = ground arith
  split-append (x ∷ a) b h = ground (arith, split-append a b)

-- The first white space of a text.
pub index_of_space-append :
    (a : Text) (x : ℕ) (b : Text)
    → has_space a ≡ false
    → is_ascii_space x ≡ true
    → index_of_space (a ++ (x ∷ b)) ≡ some (length a)
unfolding has_space index_of_space
index_of_space-append [] x b h s = rw (s, if◌then◌else◌)
index_of_space-append (y ∷ a) x b h s = ground (arith, index_of_space-append a x b)

pub index_of_space-eq-none : (t : Text) → has_space t ≡ false → index_of_space t ≡ none
unfolding has_space index_of_space
index_of_space-eq-none [] h = refl
index_of_space-eq-none (x ∷ t) h = ground (arith, index_of_space-eq-none t)

pub has_space-eq-false : (t : Text) → index_of_space t ≡ none → has_space t ≡ false
unfolding has_space index_of_space
has_space-eq-false [] h = refl
has_space-eq-false (x ∷ t) h = ground (arith, has_space-eq-false t)

pub has_space-take : (i : ℕ) (t : Text) → index_of_space t ≡ some i → has_space (take i t) ≡ false
unfolding has_space index_of_space
has_space-take i [] h = cc
has_space-take zero (x ∷ t) h = refl
has_space-take (suc i) (x ∷ t) h = ground (arith, has_space-take i t)

pub has_space-drop : (n : ℕ) (t : Text) → has_space t ≡ false → has_space (drop n t) ≡ false
unfolding has_space
has_space-drop zero t h = h
has_space-drop (suc n) [] h = refl
has_space-drop (suc n) (x ∷ t) h = has_space-drop n t (ground arith)

-- Where the first white space stands.
pub cut_at_space :
    (t : Text) (i : ℕ)
    → index_of_space t ≡ some i
    → (x : ℕ) × (t ≡ take i t ++ (x ∷ drop (suc i) t)) × (is_ascii_space x ≡ true)
unfolding index_of_space
cut_at_space [] i h = cc
cut_at_space (y ∷ t) zero h = (y, refl, ground arith)
cut_at_space (y ∷ t) (suc i) h =
    let (x, e, s) = cut_at_space t i (ground arith) in (x, ap (◌∷◌ y) e, s)

trim_left-eq-nil :
    (x : ℕ) (t : Text) → trim_left t ≡ [] → is_space x ≡ true → ends_blank (x ∷ t) ≡ true
unfolding trim_left
trim_left-eq-nil x [] h s = s
trim_left-eq-nil x (y ∷ t) h s = elim (Bool-cases (is_space y)) [
  | inl e ↦ trim_left-eq-nil y t (rw (e, if◌then◌else◌) at h) e
  | inr e ↦ cc (rw (e, if◌then◌else◌) at h)
]

trim_right-eq-nil : (t : Text) → starts_blank t ≡ false → trim_right t ≡ [] → t ≡ []
unfolding trim_right
trim_right-eq-nil [] s h = refl
trim_right-eq-nil (x ∷ t) s h = ground arith

-- Behind a white space, what trims to nothing is blank to its end.
pub trimmed-eq-nil :
    (x : ℕ) (t : Text) → trimmed t ≡ [] → is_ascii_space x ≡ true → ends_blank (x ∷ t) ≡ true
unfolding trimmed is_ascii_space
trimmed-eq-nil x t h s =
    trim_left-eq-nil x t (trim_right-eq-nil (trim_left t) (trim_left-starts t) h)
      (unfold is_space in ground arith)
