-- ===== src/ArgsFile/Values.antt =====
-- ArgsFile: the values of the lines of one option, in order.
use qemu_gui_manager.Prelude.{
  ℕ, zero, suc, ◌+◌, ◌≤◌, ◌<◌, ◌≡◌, refl, sym, ap, ◌∙◌, subst, inl, inr, Bool, true, false, List,
  [], ◌∷◌, ◌++◌, map, append_assoc, arith, if◌then◌else◌, Bool-cases, length, length-append,
  get_first, insert_at, is_none, AllOf, AllOf-map, AllOf-both,
}
use qemu_gui_manager.OptionValue.Clean.{IsClean}
use qemu_gui_manager.Text.{Text, is_empty}
use qemu_gui_manager.ArgsFile.{
  ArgsFile, is_line, indexes_from, indexes_of, line_index, text_at, Kind, option, Line,
}

abbrev pub values_of : Text → Kind → ArgsFile → List Text
values_of n k [] = []
values_of n k (l ∷ ls) =
    let rest = values_of n k ls in if is_line n k l then l.value ∷ rest else rest

text_at-append :
    (pre : ArgsFile) (l : Line) (ls : ArgsFile) → text_at (pre ++ (l ∷ ls)) (length pre) ≡ l.value
unfolding text_at
text_at-append [] l ls = refl
text_at-append (p ∷ pre) l ls = text_at-append pre l ls

values_from :
    (n : Text) (k : Kind) (i : ℕ) (pre ls : ArgsFile)
    → length pre ≡ i
    → map (text_at (pre ++ ls)) (indexes_from i n k ls) ≡ values_of n k ls
unfolding indexes_from
values_from n k i pre [] e = refl
values_from n k i pre (l ∷ ls) e =
    let rest : map (text_at (pre ++ (l ∷ ls))) (indexes_from (suc i) n k ls) ≡ values_of n k ls =
      subst (λ (f : ArgsFile). map (text_at f) (indexes_from (suc i) n k ls) ≡ values_of n k ls)
        (append_assoc pre (l ∷ []) ls)
        (values_from n k (suc i) (pre ++ (l ∷ [])) ls
          (omega (arith, length-append pre (l ∷ []), e))) in
    elim (Bool-cases (is_line n k l)) [
      | inl h ↦
          rw (h, if◌then◌else◌)
            (rw⁻¹ e (rw (text_at-append pre l ls) (ap (◌∷◌ l.value) (rw e rest))))
      | inr h ↦ rw (h, if◌then◌else◌) rest
    ]

-- What the loops over `indexesOf` read.
pub values_of-indexes_of :
    (n : Text) (k : Kind) (file : ArgsFile)
    → map (text_at file) (indexes_of n k file) ≡ values_of n k file
values_of-indexes_of n k file = values_from n k 0 [] file refl

-- An option has no line if it has no values.
pub indexes_from-nil :
    (n : Text) (k : Kind) (s : ℕ) (file : ArgsFile)
    → values_of n k file ≡ []
    → indexes_from s n k file ≡ []
unfolding indexes_from
indexes_from-nil n k s [] e = refl
indexes_from-nil n k s (l ∷ ls) e = ground (arith, indexes_from-nil n k (suc s) ls)

-- A line that is put into a file without the option is its only line.
pub indexes_from-insert_at :
    (n : Text) (k : Kind) (l : Line) (s i : ℕ) (file : ArgsFile)
    → is_line n k l ≡ true
    → values_of n k file ≡ []
    → i ≤ length file
    → indexes_from s n k (insert_at i l file) ≡ (s + i) ∷ []
unfolding indexes_from
indexes_from-insert_at n k l s zero file h e le =
    rw (h, if◌then◌else◌)
      (rw (indexes_from-nil n k (suc s) file e) (ap (λ (m : ℕ). m ∷ []) (omega arith)))
indexes_from-insert_at n k l s (suc i) [] h e le = absurd (omega (arith, le))
indexes_from-insert_at n k l s (suc i) (m ∷ ls) h e le =
    ground (arith, indexes_from-insert_at n k l (suc s) i ls h)

-- The lines that are taken away are of other options.
abbrev pub lines_without : (Line → Bool) → ArgsFile → ArgsFile
lines_without p [] = []
lines_without p (l ∷ ls) = let rest = lines_without p ls in if p l then rest else l ∷ rest

pub values_of-lines_without :
    (n : Text) (k : Kind) (p : Line → Bool)
    → ((l : Line) → is_line n k l ≡ true → p l ≡ false)
    → (file : ArgsFile) → values_of n k (lines_without p file) ≡ values_of n k file
values_of-lines_without n k p apart [] = refl
values_of-lines_without n k p apart (l ∷ ls) =
    ground (arith, apart l, values_of-lines_without n k p apart ls)

-- Whether the option has a line.
pub line_index-values_of :
    (n : Text) (k : Kind) (file : ArgsFile)
    → is_none (line_index n k file) ≡ is_empty (values_of n k file)
unfolding line_index
line_index-values_of n k file =
    first_is (indexes_of n k file) ∙ ap is_empty (values_of-indexes_of n k file)
  where
    first_is : (is : List ℕ) → is_none (get_first is) ≡ is_empty (map (text_at file) is)
    first_is [] = refl
    first_is (i ∷ is) = refl

-- What is found lies in the file.
pub indexes_from-lt :
    (n : Text) (k : Kind) (s m : ℕ) (ls : ArgsFile)
    → s + length ls ≤ m
    → AllOf (λ j. j < m) (indexes_from s n k ls)
unfolding indexes_from
indexes_from-lt n k s m [] h = tt
indexes_from-lt n k s m (l ∷ ls) h =
    let rest = indexes_from-lt n k (suc s) m ls (omega (arith, h)) in
    elim (Bool-cases (is_line n k l)) [
      | inl e ↦ rw (e, if◌then◌else◌) (omega (arith, h), rest)
      | inr e ↦ rw (e, if◌then◌else◌) rest
    ]

-- The values of all lines of the option can be edited and read again.
abbrev pub AreClean : Text → ArgsFile → Type 0
AreClean n file = AllOf IsClean (values_of n option file)

pub AreClean-at :
    (n : Text) (file : ArgsFile)
    → AreClean n file
    → AllOf (λ j. (j < length file) × IsClean (text_at file j)) (indexes_of n option file)
AreClean-at n file h =
    AllOf-both (λ j. j < length file) (λ j. IsClean (text_at file j)) (indexes_of n option file)
      (indexes_from-lt n option 0 (length file) file (omega arith))
      (AllOf-map IsClean (text_at file) (indexes_of n option file)
        (subst (λ (ts : List Text). AllOf IsClean ts) (sym (values_of-indexes_of n option file)) h))
