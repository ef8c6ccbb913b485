-- ===== src/Text/Laws.antt =====
-- Laws of the text operations.
use qemu_gui_manager.Prelude.{
  ℕ, zero, suc, ◌≡◌, refl, sym, ap, ◌∙◌, subst, ◌↔◌, inl, inr, true, false, ◌||◌, none, some, List,
  [], ◌∷◌, ◌++◌, arith, Bool-cases, or_exchange, length, take, drop, AllOf,
}
use qemu_gui_manager.Text.{Text, text_eq, one_of, has_char, index_of}

pub text_eq_iff : (a b : Text) → (text_eq a b ≡ true) ↔ (a ≡ b)
unfolding text_eq
text_eq_iff (x ∷ a) (y ∷ b) = ground (arith, text_eq_iff a b)
text_eq_iff _ _ = ground arith

pub text_eq_sym : (a b : Text) → text_eq a b ≡ text_eq b a
text_eq_sym a b = elim (Bool-cases (text_eq a b)) [
  | inl e ↦ e ∙ sym ((text_eq_iff b a).1 (sym ((text_eq_iff a b).0 e)))
  | inr e ↦ elim (Bool-cases (text_eq b a)) [
    | inl q ↦ (text_eq_iff a b).1 (sym ((text_eq_iff b a).0 q)) ∙ sym q
    | inr q ↦ e ∙ sym q
  ]
]

pub has_char-append : (c : ℕ) (a b : Text) → has_char c (a ++ b) ≡ (has_char c a || has_char c b)
unfolding has_char
has_char-append c [] b = refl
has_char-append c (x ∷ a) b = ground (arith, has_char-append c a b)

-- The first occurrence of a character ends the part that has none.
pub index_of-append :
    (c : ℕ) (a b : Text) → has_char c a ≡ false → index_of c (a ++ (c ∷ b)) ≡ some (length a)
unfolding has_char index_of
index_of-append c [] b h = ground arith
index_of-append c (x ∷ a) b h = ground (arith, index_of-append c a b)

pub index_of-eq-none : (c : ℕ) (t : Text) → has_char c t ≡ false → index_of c t ≡ none
unfolding has_char index_of
index_of-eq-none c [] h = refl
index_of-eq-none c (x ∷ t) h = ground (arith, index_of-eq-none c t)

pub has_char-eq-false : (c : ℕ) (t : Text) → index_of c t ≡ none → has_char c t ≡ false
unfolding has_char index_of
has_char-eq-false c [] h = refl
has_char-eq-false c (x ∷ t) h = ground (arith, has_char-eq-false c t)

-- What `indexOf`, `left` and `mid` cut a text into.
pub cut_at :
    (c i : ℕ) (t : Text)
    → index_of c t ≡ some i
    → (t ≡ take i t ++ (c ∷ drop (suc i) t)) × (has_char c (take i t) ≡ false)
unfolding has_char index_of
cut_at c i [] h = absurd (ground arith)
cut_at c zero (x ∷ t) h = ground arith
cut_at c (suc i) (x ∷ t) h = ground (arith, cut_at c i t)

pub take-append_length {ℓ} : {A : Type ℓ} (a b : List A) → take (length a) (a ++ b) ≡ a
take-append_length [] b = refl
take-append_length (x ∷ a) b = ap (◌∷◌ x) (take-append_length a b)

pub drop-append_length {ℓ} :
    {A : Type ℓ} (x : A) (a b : List A) → drop (suc (length a)) (a ++ (x ∷ b)) ≡ b
drop-append_length x [] b = refl
drop-append_length x (y ∷ a) b = drop-append_length x a b

-- What holds of each word holds of a text that is one of them.
pub one_of-AllOf :
    (P : Text → Type 0) (t : Text) (ws : List Text) → AllOf P ws → one_of t ws ≡ true → P t
unfolding one_of
one_of-AllOf P t [] a h = cc
one_of-AllOf P t (w ∷ ws) (p, a) h = elim (Bool-cases (text_eq t w)) [
  | inl e ↦ subst P (sym ((text_eq_iff t w).0 e)) p
  | inr e ↦ one_of-AllOf P t ws a (rw e at h)
]

pub one_of-append :
    (file g : Text) (fs : List Text)
    → one_of file (fs ++ (g ∷ [])) ≡ text_eq g file || one_of file fs
unfolding one_of
one_of-append file g [] = rw (text_eq_sym file g) refl
one_of-append file g (f ∷ fs) =
    rw (one_of-append file g fs) (or_exchange (text_eq file f) (text_eq g file) (one_of file fs))
