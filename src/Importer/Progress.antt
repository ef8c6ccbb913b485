-- ===== src/Importer/Progress.antt =====
-- src/core/importer.cpp: the fuel of the loop of splitCommands.
use qemu_gui_manager.Prelude.{
  ℕ, zero, suc, ◌≤◌, ◌≡◌, refl, subst, inl, inr, Option, none, some, [], ◌∷◌, arith, ◌==◌,
  Option-cases, if_cases, length,
}
use qemu_gui_manager.Text.{Text}
use qemu_gui_manager.Importer.Words.{
  take_word, in_a_word, braced, bare, variable, expand, Words, Environment,
}
use qemu_gui_manager.Importer.Script.{
  before_char, skip_line, escape_step, double_step, in_double, skip_same, script_step, scan,
}

take_word-le : (t : Text) → length (take_word t).1 ≤ length t
unfolding take_word
take_word-le [] = omega arith
take_word-le (c ∷ cs) = ground (arith, take_word-le cs)

-- What is left behind a variable, if there is one.
abbrev left : Text → Option (Text × Text) → Text
left t none = t
left t (some (name, rest)) = rest

braced-le :
    (p : Text × Text) (t : Text) → length p.1 ≤ length t → length (left t (braced p)) ≤ length t
braced-le ([], rest) t h = omega arith
braced-le (c ∷ w, []) t h = omega arith
braced-le (c ∷ w, d ∷ rest) t h = ground arith

bare-le : (p : Text × Text) (t : Text) → length p.1 ≤ length t → length (left t (bare p)) ≤ length t
bare-le ([], rest) t h = omega arith
bare-le (c ∷ w, rest) t h = h

variable-le : (t : Text) → length (left t (variable t)) ≤ length t
unfolding variable take_word
variable-le [] = omega arith
variable-le (c ∷ cs) =
    if_cases (λ (o : Option (Text × Text)). length (left (c ∷ cs) o) ≤ length (c ∷ cs)) (c == b'{')
      (λ e. braced-le (take_word cs) (c ∷ cs) (omega (arith, take_word-le cs)))
      (λ e. bare-le (take_word (c ∷ cs)) (c ∷ cs) (take_word-le (c ∷ cs)))

expand-le : (env : Environment) (t : Text) (s : Words) → length (expand env t s).0 ≤ length t
unfolding expand
expand-le env t s = elim (Option-cases (variable t)) [
  | inl e ↦ rw (e, expand) (omega arith)
  | inr ((name, rest), e) ↦
      let h =
        subst (λ (o : Option (Text × Text)). length (left t o) ≤ length t) e (variable-le t) in
      rw (e, expand) h
]

double_step-le :
    (env : Environment) (c : ℕ) (t : Text) (s : Words) → length (double_step env c t s).0 ≤ length t
unfolding double_step
double_step-le env c [] s = ground (arith, expand-le env [] s)
double_step-le env c (d ∷ cs) s = ground (arith, expand-le env (d ∷ cs) s)

in_double-le :
    (env : Environment) (fuel : ℕ) (t : Text) (s : Words)
    → length (in_double env fuel t s).0 ≤ length t
unfolding in_double
in_double-le env fuel [] s = omega arith
in_double-le env zero (c ∷ cs) s = omega arith
in_double-le env (suc fuel) (c ∷ cs) s =
    let (rest, t) = double_step env c cs s in
    ground (arith, double_step-le env c cs s, in_double-le env fuel rest t)

before_char-le : (k : ℕ) (t : Text) → length (before_char k t).1 ≤ length t
unfolding before_char
before_char-le k [] = omega arith
before_char-le k (c ∷ cs) = ground (arith, before_char-le k cs)

skip_line-le : (t : Text) → length (skip_line t) ≤ length t
unfolding skip_line
skip_line-le [] = omega arith
skip_line-le (c ∷ cs) = ground (arith, skip_line-le cs)

escape_step-le : (t : Text) (s : Words) → length (escape_step t s).0 ≤ length t
unfolding escape_step
escape_step-le [] s = omega arith
escape_step-le (d ∷ cs) s = ground arith

skip_same-le : (c : ℕ) (t : Text) → length (skip_same c t) ≤ length t
skip_same-le c [] = omega arith
skip_same-le c (d ∷ cs) = ground arith

script_step-le :
    (env : Environment) (c : ℕ) (t : Text) (s : Words) → length (script_step env c t s).0 ≤ length t
unfolding script_step
script_step-le env c t s =
    let P = λ (p : Text × Words). length p.0 ≤ length t in
    if_cases P (c == b'\\') (λ e. escape_step-le t s)
      (λ e.
        if_cases P (c == b'\'') (λ q. before_char-le b'\'' t)
          (λ q.
            if_cases P (c == b'"') (λ d. in_double-le env (length t) t (in_a_word s))
              (λ d. ground (arith, expand-le env t s, skip_line-le t, skip_same-le c t))))

-- With a round for each character or more, the loop ends at the end of the script.
scan_enough :
    (env : Environment) (f g : ℕ) (t : Text) (s : Words)
    → length t ≤ f
    → length t ≤ g
    → scan env f t s ≡ scan env g t s
unfolding scan
scan_enough env f g [] s h k = refl
scan_enough env zero g (c ∷ cs) s h k = ground arith
scan_enough env (suc f) zero (c ∷ cs) s h k = ground arith
scan_enough env (suc f) (suc g) (c ∷ cs) s h k =
    let (rest, t) = script_step env c cs s in
    let le = script_step-le env c cs s in
    scan_enough env f g rest t (omega (arith, h, le)) (omega (arith, k, le))

-- The loop, with fuel enough.
abbrev pub scan_all : Environment → Text → Words → Words
scan_all env t s = scan env (length t) t s

abbrev pub scan_rest : Environment → Text × Words → Words
scan_rest env (rest, t) = scan_all env rest t

pub scan_all_lem :
    (env : Environment) (c : ℕ) (cs : Text) (s : Words)
    → scan_all env (c ∷ cs) s ≡ scan_rest env (script_step env c cs s)
unfolding scan
scan_all_lem env c cs s =
    let (rest, t) = script_step env c cs s in
    scan_enough env (length cs) (length rest) rest t (script_step-le env c cs s) (omega arith)
