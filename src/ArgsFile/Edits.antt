-- ===== src/ArgsFile/Edits.antt =====
-- ArgsFile::add and ArgsFile::removeAll, against the list of lines.
use qemu_gui_manager.Prelude.{
  ℕ, suc, ◌+◌, ◌≤◌, ◌<◌, ◌≡◌, refl, ap, ◌⊎◌, inl, inr, some, List, [], ◌∷◌, arith, if◌then◌else◌,
  Bool-cases, Option-cases, length, get_elem?, last, remove_at, remove_at-insert_at,
  get_elem?-insert_at,
}
use qemu_gui_manager.Text.{Text}
use qemu_gui_manager.ArgsFile.{
  ArgsFile, named_line, is_line, indexes_from, indexes_of, add_at, add, remove_indexes, remove_all,
  Kind, Line,
}

-- The lines that are not option `n`.
abbrev pub others : Text → Kind → ArgsFile → ArgsFile
others n k [] = []
others n k (l ∷ ls) = let rest = others n k ls in if is_line n k l then rest else l ∷ rest

remove_indexes-suc :
    (n : Text) (k : Kind) (i : ℕ) (l : Line) (ls : ArgsFile) (file : ArgsFile)
    → remove_indexes (indexes_from (suc i) n k ls) (l ∷ file)
      ≡ l ∷ remove_indexes (indexes_from i n k ls) file
unfolding remove_indexes indexes_from
remove_indexes-suc n k i l [] file = refl
remove_indexes-suc n k i l (m ∷ ms) file = elim (Bool-cases (is_line n k m)) [
  | inl e ↦ rw (e, if◌then◌else◌) (rw (remove_indexes-suc n k (suc i) l ms file))
  | inr e ↦ rw (e, if◌then◌else◌) (remove_indexes-suc n k (suc i) l ms file)
]

-- Removing all lines of an option leaves just the other lines, in order.
pub remove_all-others :
    (n : Text) (k : Kind) (file : ArgsFile) → remove_all n k file ≡ others n k file
unfolding remove_all indexes_from remove_indexes
remove_all-others n k [] = refl
remove_all-others n k (l ∷ ls) = elim (Bool-cases (is_line n k l)) [
  | inl e ↦ rw (e, if◌then◌else◌) (rw (remove_indexes-suc n k 0 l ls ls) (remove_all-others n k ls))
  | inr e ↦
      rw (e, if◌then◌else◌)
        (rw (remove_indexes-suc n k 0 l ls ls) (ap (◌∷◌ l) (remove_all-others n k ls)))
]

last-cons : (x : ℕ) (xs : List ℕ) (j : ℕ) → last (x ∷ xs) ≡ some j → (x ≡ j) ⊎ (last xs ≡ some j)
last-cons x [] j h = inl (cc (h))
last-cons x (y ∷ ys) j h = inr h

pub last-bound :
    (n : Text) (k : Kind) (i j : ℕ) (ls : ArgsFile)
    → last (indexes_from i n k ls) ≡ some j
    → j < i + length ls
unfolding indexes_from
last-bound n k i j [] h = cc
last-bound n k i j (l ∷ ls) h = elim (Bool-cases (is_line n k l)) [
  | inr e ↦ omega (arith, last-bound n k (suc i) j ls (rw (e, if◌then◌else◌) at h))
  | inl e ↦ elim (last-cons i (indexes_from (suc i) n k ls) j (rw (e, if◌then◌else◌) at h)) [
    | inl s ↦ omega (arith, s)
    | inr s ↦ omega (arith, last-bound n k (suc i) j ls s)
  ]
]

add_at-le : (n : Text) (k : Kind) (file : ArgsFile) → add_at n k file ≤ length file
unfolding add_at
add_at-le n k file = elim (Option-cases (last (indexes_of n k file))) [
  | inl e ↦ rw (e, add_at) (omega arith)
  | inr (j, e) ↦ rw (e, add_at) (omega (arith, last-bound n k 0 j file e))
]

-- `add` gives the index of a new line of the option with the value, and changes no other line:
-- without that line the file is what it was.
add-inserts :
    (n v : Text) (k : Kind) (file : ArgsFile)
    → (get_elem? (add n v k file).0 (add n v k file).1 ≡ some (named_line k n v))
      × (remove_at (add n v k file).1 (add n v k file).0 ≡ file)
unfolding add
add-inserts n v k file = (
  get_elem?-insert_at (add_at n k file) (named_line k n v) file (add_at-le n k file),
  remove_at-insert_at (add_at n k file) (named_line k n v) file (add_at-le n k file),
)
