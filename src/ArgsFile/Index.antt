-- ===== src/ArgsFile/Index.antt =====
-- ArgsFile::indexOf, before and after an edit of the lines.
use mathlib.Core.Option
use qemu_gui_manager.Prelude.{
  ℕ, zero, suc, ◌<◌, ◌≡◌, refl, ap, ◌≢◌, inl, inr, none, some, List, [], ◌∷◌, map, arith,
  if◌then◌else◌, Bool-cases, Option-cases, length, get_first,
}
use qemu_gui_manager.Text.{Text}
use qemu_gui_manager.ArgsFile.{
  ArgsFile, is_line, indexes_from, line_index, text_at, set_text_at, Kind, Line,
}

module _ (n : Text) (k : Kind) where
  indexes_from-suc :
      (i : ℕ) (ls : ArgsFile) → indexes_from (suc i) n k ls ≡ map suc (indexes_from i n k ls)
  unfolding indexes_from
  indexes_from-suc i [] = refl
  indexes_from-suc i (l ∷ ls) = ground (arith, indexes_from-suc (suc i) ls)

  get_first-map : (is : List ℕ) → get_first (map suc is) ≡ Option.map suc (get_first is)
  get_first-map [] = refl
  get_first-map (i ∷ is) = refl

  -- The first line of the option.
  pub line_index-cons :
      (l : Line) (ls : ArgsFile)
      → line_index n k (l ∷ ls)
        ≡ (if is_line n k l then some 0 else Option.map suc (line_index n k ls))
  unfolding line_index indexes_from
  line_index-cons l ls = elim (Bool-cases (is_line n k l)) [
    | inl e ↦ rw (e, if◌then◌else◌)
    | inr e ↦
        rw (e, if◌then◌else◌) (rw (indexes_from-suc 0 ls) (get_first-map (indexes_from 0 n k ls)))
  ]

  pub line_index-nil : line_index n k [] ≡ none
  unfolding line_index indexes_from
  line_index-nil = refl

  -- The line that is found is one of the option, inside the file.
  pub line_index-bound : (file : ArgsFile) (i : ℕ) → line_index n k file ≡ some i → i < length file
  line_index-bound [] i h = cc (line_index-nil)
  line_index-bound (l ∷ ls) i h = elim (Option-cases (line_index n k ls)) [
    | inl e ↦ ground (arith, line_index-cons l ls)
    | inr (j, e) ↦ ground (arith, line_index-cons l ls, line_index-bound ls j e)
  ]

  -- An assignment to a line's value moves no line.
  pub line_index-set_text_at :
      (v : Text) (i : ℕ) (file : ArgsFile)
      → line_index n k (set_text_at i v file) ≡ line_index n k file
  unfolding set_text_at
  line_index-set_text_at v i [] = refl
  line_index-set_text_at v zero (l ∷ ls) = rw line_index-cons (rw line_index-cons refl)
  line_index-set_text_at v (suc i) (l ∷ ls) =
      rw line_index-cons (rw line_index-cons (rw (line_index-set_text_at v i ls)))

pub text_at-set_text_at :
    (v : Text) (i : ℕ) (file : ArgsFile) → i < length file → text_at (set_text_at i v file) i ≡ v
unfolding text_at set_text_at
text_at-set_text_at v i [] h = elim h [ ]
text_at-set_text_at v zero (l ∷ ls) h = refl
text_at-set_text_at v (suc i) (l ∷ ls) h = text_at-set_text_at v i ls (omega arith)

pub text_at-set_text_at_ne :
    (v : Text) (i j : ℕ) (file : ArgsFile)
    → i ≢ j
    → text_at (set_text_at i v file) j ≡ text_at file j
unfolding text_at set_text_at
text_at-set_text_at_ne v i j [] h = refl
text_at-set_text_at_ne v zero zero (l ∷ ls) h = absurd (h refl)
text_at-set_text_at_ne v zero (suc j) (l ∷ ls) h = refl
text_at-set_text_at_ne v (suc i) zero (l ∷ ls) h = refl
text_at-set_text_at_ne v (suc i) (suc j) (l ∷ ls) h =
    text_at-set_text_at_ne v i j ls (λ e. h (ap suc e))

-- An edit of a value moves no line.
pub indexes_from-set_text_at :
    (n : Text) (k : Kind) (t : Text) (s i : ℕ) (args : ArgsFile)
    → indexes_from s n k (set_text_at i t args) ≡ indexes_from s n k args
unfolding indexes_from set_text_at
indexes_from-set_text_at n k t s i [] = refl
indexes_from-set_text_at n k t s zero (l ∷ ls) = refl
indexes_from-set_text_at n k t s (suc i) (l ∷ ls) =
    rw (indexes_from-set_text_at n k t (suc s) i ls) refl
