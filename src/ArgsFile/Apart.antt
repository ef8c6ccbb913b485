-- ===== src/ArgsFile/Apart.antt =====
-- ArgsFile::indexesOf for two options: no line is one of both.
use qemu_gui_manager.Prelude.{
  ℕ, suc, ◌≡◌, refl, sym, ap, ◌∙◌, subst, ◌≢◌, inl, inr, true, some, List, [], ◌∷◌, ◌++◌,
  append_assoc, arith, if◌then◌else◌, Bool-cases, length, get_elem?, length-append, get_first,
}
use qemu_gui_manager.Text.Laws.{text_eq_iff}
use qemu_gui_manager.Text.{Text}
use qemu_gui_manager.ArgsFile.{
  ArgsFile, canonical_name, is_line, indexes_from, indexes_of, line_index, Kind, Line,
}

-- The line at an index is one of the option.
abbrev pub HoldsAt : Text → Kind → ArgsFile → ℕ → Type 0
HoldsAt n k file j = (l : Line) × (get_elem? file j ≡ some l) × (is_line n k l ≡ true)

abbrev pub AllHold : Text → Kind → ArgsFile → List ℕ → Type 0
AllHold n k file [] = Unit
AllHold n k file (j ∷ js) = HoldsAt n k file j × AllHold n k file js

get_elem?-append :
    (pre : ArgsFile) (l : Line) (ls : ArgsFile) → get_elem? (pre ++ (l ∷ ls)) (length pre) ≡ some l
get_elem?-append [] l ls = refl
get_elem?-append (p ∷ pre) l ls = get_elem?-append pre l ls

indexes_from-AllHold :
    (n : Text) (k : Kind) (i : ℕ) (pre ls : ArgsFile)
    → length pre ≡ i
    → AllHold n k (pre ++ ls) (indexes_from i n k ls)
unfolding indexes_from
indexes_from-AllHold n k i pre [] e = tt
indexes_from-AllHold n k i pre (l ∷ ls) e =
    let rest : AllHold n k (pre ++ (l ∷ ls)) (indexes_from (suc i) n k ls) =
      subst (λ (f : ArgsFile). AllHold n k f (indexes_from (suc i) n k ls))
        (append_assoc pre (l ∷ []) ls)
        (indexes_from-AllHold n k (suc i) (pre ++ (l ∷ [])) ls
          (omega (arith, length-append pre (l ∷ []), e))) in
    elim (Bool-cases (is_line n k l)) [
      | inl h ↦ rw (h, if◌then◌else◌) ((l, rw⁻¹ e (get_elem?-append pre l ls), h), rest)
      | inr h ↦ rw (h, if◌then◌else◌) rest
    ]

abbrev pub AllApart : ℕ → List ℕ → Type 0
AllApart i [] = Unit
AllApart i (j ∷ js) = (i ≢ j) × AllApart i js

is_line-name : (n : Text) (k : Kind) (l : Line) → is_line n k l ≡ true → canonical_name l.name ≡ n
is_line-name n k l h = ground (arith, text_eq_iff (canonical_name l.name) n)

holds-apart :
    (n m : Text) (k : Kind) (file : ArgsFile) (i j : ℕ)
    → n ≢ m
    → HoldsAt n k file i
    → HoldsAt m k file j
    → i ≢ j
holds-apart n m k file i j ne (l, e, h) (l2, e2, h2) = λ same.
    let one : l ≡ l2 = cc (e, e2, same) in
    let named : canonical_name l.name ≡ canonical_name l2.name =
      ap (λ (x : Line). canonical_name x.name) one in
    ne (sym (is_line-name n k l h) ∙ named ∙ is_line-name m k l2 h2)

AllHold-AllApart :
    (n m : Text) (k : Kind) (file : ArgsFile) (i : ℕ) (js : List ℕ)
    → n ≢ m
    → HoldsAt n k file i
    → AllHold m k file js
    → AllApart i js
AllHold-AllApart n m k file i [] ne h a = tt
AllHold-AllApart n m k file i (j ∷ js) ne h (b, a) =
    (holds-apart n m k file i j ne h b, AllHold-AllApart n m k file i js ne h a)

get_first-AllHold :
    (n : Text) (k : Kind) (file : ArgsFile) (i : ℕ) (js : List ℕ)
    → AllHold n k file js
    → get_first js ≡ some i
    → HoldsAt n k file i
get_first-AllHold n k file i [] a e = cc
get_first-AllHold n k file i (j ∷ js) (h, a) e = subst (λ (x : ℕ). HoldsAt n k file x) (cc (e)) h

-- The first line of an option is none of the lines of another.
pub line_index-AllApart :
    (n m : Text) (k : Kind) (file : ArgsFile) (i : ℕ)
    → n ≢ m
    → line_index n k file ≡ some i
    → AllApart i (indexes_of m k file)
unfolding line_index
line_index-AllApart n m k file i ne e =
    AllHold-AllApart n m k file i (indexes_of m k file) ne
      (get_first-AllHold n k file i (indexes_of n k file) (indexes_from-AllHold n k 0 [] file refl)
        e)
      (indexes_from-AllHold m k 0 [] file refl)
