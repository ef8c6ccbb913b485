-- ===== src/VmHardware/Accel.antt =====
-- src/core/vmhardware.cpp: accel after setAccel.
use qemu_gui_manager.Prelude.{
  ℕ, ◌<◌, ◌≡◌, refl, sym, subst, ◌≢◌, inl, inr, true, false, none, some, List, [], ◌∷◌, arith, ◌==◌,
  if◌then◌else◌, ==_iff, Bool-cases, length, get_first, AllOf,
}
use qemu_gui_manager.Text.{Text, text_eq}
use qemu_gui_manager.Text.Laws.{text_eq_iff}
use qemu_gui_manager.OptionValue.{parse, has, get}
use qemu_gui_manager.OptionValue.Clean.{IsClean}
use qemu_gui_manager.ArgsFile.{
  ArgsFile, canonical_name, is_line, indexes_of, line_index, text_at, value_at, set_text_at,
  remove_all, Kind, option,
}
use qemu_gui_manager.ArgsFile.Index.{text_at-set_text_at, text_at-set_text_at_ne}
use qemu_gui_manager.ArgsFile.Edits.{others, remove_all-others}
use qemu_gui_manager.ArgsFile.Values.{
  values_of, lines_without, values_of-lines_without, AreClean, AreClean-at,
}
use qemu_gui_manager.VmHardware.Machine.{accel_key, last_accel, first_with}

-- No two of the lines have the key.
abbrev pub OnceWith : Text → ArgsFile → List ℕ → Type 0
OnceWith k args [] = Unit
OnceWith k args (i ∷ is) =
    (has k (value_at args i) ≡ true → first_with k args is ≡ none) × OnceWith k args is

module _ (args : ArgsFile) (i : ℕ) (t x : Text)
    (same : (has accel_key (parse t) ≡ true) × (get accel_key [] (parse t) ≡ x))
    (lt : i < length args) where
  at_edit : value_at (set_text_at i t args) i ≡ parse t
  unfolding value_at
  at_edit = rw (text_at-set_text_at t i args lt) refl

  off_edit : (j : ℕ) → i ≢ j → value_at (set_text_at i t args) j ≡ value_at args j
  unfolding value_at
  off_edit j h = rw (text_at-set_text_at_ne t i j args h) refl

  -- Behind the edited line nothing gives another accelerator.
  last_accel-behind :
      (js : List ℕ) (before : Text)
      → first_with accel_key args js ≡ none
      → before ≡ x
      → last_accel (set_text_at i t args) before js ≡ x
  unfolding last_accel first_with
  last_accel-behind [] before e h = h
  last_accel-behind (j ∷ js) before e h = elim (Bool-cases (has accel_key (value_at args j))) [
    | inl r ↦ absurd (cc (rw (r, if◌then◌else◌) at e))
    | inr r ↦
        let rest = rw (r, if◌then◌else◌) at e in
        elim (Bool-cases (i == j)) [
          | inl q ↦
              rw (sym ((==_iff i j).0 q), at_edit, same.0, if◌then◌else◌)
                (last_accel-behind js (get accel_key [] (parse t)) rest same.1)
          | inr q ↦
              rw (off_edit j (λ p. cc ((==_iff i j).1 p)), r, if◌then◌else◌)
                (last_accel-behind js before rest h)
        ]
  ]

  pub last_accel-edited :
      (js : List ℕ) (before : Text)
      → OnceWith accel_key args js
      → first_with accel_key args js ≡ some i
      → last_accel (set_text_at i t args) before js ≡ x
  unfolding last_accel first_with
  last_accel-edited [] before o e = cc
  last_accel-edited (j ∷ js) before (o, os) e =
      elim (Bool-cases (has accel_key (value_at args j))) [
        | inl r ↦
            let here : j ≡ i = cc (rw (r, if◌then◌else◌) at e) in
            rw (here, at_edit, same.0, if◌then◌else◌)
              (last_accel-behind js (get accel_key [] (parse t)) (o r) same.1)
        | inr r ↦
            let rest = rw (r, if◌then◌else◌) at e in
            elim (Bool-cases (i == j)) [
              | inl q ↦
                  rw (sym ((==_iff i j).0 q), at_edit, same.0, if◌then◌else◌)
                    (last_accel-edited js (get accel_key [] (parse t)) os rest)
              | inr q ↦
                  rw (off_edit j (λ p. cc ((==_iff i j).1 p)), r, if◌then◌else◌)
                    (last_accel-edited js before os rest)
            ]
      ]

pub first_with-AllOf :
    (P : ℕ → Type 0) (k : Text) (args : ArgsFile) (i : ℕ) (js : List ℕ)
    → AllOf P js
    → first_with k args js ≡ some i
    → P i
unfolding first_with
first_with-AllOf P k args i [] a e = cc
first_with-AllOf P k args i (j ∷ js) (p, a) e = elim (Bool-cases (has k (value_at args j))) [
  | inl r ↦ subst P (cc (rw (r, if◌then◌else◌) at e)) p
  | inr r ↦ first_with-AllOf P k args i js a (rw (r, if◌then◌else◌) at e)
]

pub no_accel :
    (args : ArgsFile) (js : List ℕ) (before : Text)
    → first_with accel_key args js ≡ none
    → last_accel args before js ≡ before
unfolding first_with last_accel
no_accel args [] before e = refl
no_accel args (j ∷ js) before e = elim (Bool-cases (has accel_key (value_at args j))) [
  | inl r ↦ absurd (cc (rw (r, if◌then◌else◌) at e))
  | inr r ↦ rw (r, if◌then◌else◌) (no_accel args js before (rw (r, if◌then◌else◌) at e))
]

get_first-AllOf : (P : ℕ → Type 0) (is : List ℕ) (i : ℕ) → AllOf P is → get_first is ≡ some i → P i
get_first-AllOf P [] i a e = cc
get_first-AllOf P (j ∷ is) i (p, a) e = subst P (cc (e)) p

pub line_index-IsClean :
    (n : Text) (args : ArgsFile) (i : ℕ)
    → AreClean n args
    → line_index n option args ≡ some i
    → (i < length args) × IsClean (text_at args i)
unfolding line_index
line_index-IsClean n args i clean e =
    get_first-AllOf (λ j. (j < length args) × IsClean (text_at args j)) (indexes_of n option args) i
      (AreClean-at n args clean) e

others-lines_without :
    (n : Text) (k : Kind) (ls : ArgsFile) → others n k ls ≡ lines_without (is_line n k) ls
others-lines_without n k [] = refl
others-lines_without n k (l ∷ ls) = rw (others-lines_without n k ls) refl

pub values_of-remove_all :
    (n m : Text) (args : ArgsFile)
    → text_eq n m ≡ false
    → values_of n option (remove_all m option args) ≡ values_of n option args
values_of-remove_all n m args ne =
    rw (remove_all-others m option args, others-lines_without m option args)
      (values_of-lines_without n option (is_line m option)
        (λ l h. ground (
          arith,
          text_eq_iff (canonical_name l.name) n,
          text_eq_iff (canonical_name l.name) m,
          text_eq_iff n m,
        ))
        args)
