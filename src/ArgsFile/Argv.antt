-- ===== src/ArgsFile/Argv.antt =====
-- ArgsFile::argv and ArgsFile::fromArgv, one after the other.
use qemu_gui_manager.Prelude.{
  ℕ, ◌≡◌, refl, ◌∙◌, ◌≢◌, inl, inr, Bool, true, false, not, List, [], ◌∷◌, ◌++◌, arith, ◌==◌,
  if◌then◌else◌, Bool-cases,
}
use qemu_gui_manager.Text.{Text, is_empty, starts_with_char}
use qemu_gui_manager.ArgsFile.{
  ArgsFile, kind_eq, named_line, dash, from_args, from_argv, argv, option, Line,
}
use qemu_gui_manager.ArgsFile.Lines.{strip_dashes-dash, named_line-eq, kind_eq-eq}

-- An option line whose arguments `fromArgv` can tell apart: it has a name, which starts with no
-- dash, and a value just where `takes_value` expects one.
abbrev pub IsOptionFor : (Text → Bool) → Line → Type 0
IsOptionFor takes_value l =
    (l.kind ≡ option)
    × (l.text ≡ [])
    × (l.name ≢ [])
    × (starts_with_char l.name dash ≡ false)
    × (takes_value l.name ≡ not (is_empty l.value))

-- The options of a file, without its comments, blanks and directives.
abbrev pub options : ArgsFile → ArgsFile
options [] = []
options (l ∷ ls) = let rest = options ls in if kind_eq l.kind option then l ∷ rest else rest

abbrev pub AllFor : (Text → Bool) → ArgsFile → Type 0
AllFor takes_value [] = Unit
AllFor takes_value (l ∷ ls) = (l.kind ≡ option → IsOptionFor takes_value l) × AllFor takes_value ls

from_args-flag :
    (takes_value : Text → Bool) (c : ℕ) (name : Text) (rest : List Text)
    → takes_value (c ∷ name) ≡ false
    → (c == dash) ≡ false
    → from_args takes_value ((dash ∷ c ∷ name) ∷ rest)
      ≡ named_line option (c ∷ name) [] ∷ from_args takes_value rest
unfolding from_args
from_args-flag takes_value c name [] h d = ground (arith, strip_dashes-dash (c ∷ name) d)
from_args-flag takes_value c name (v ∷ rest) h d = ground (arith, strip_dashes-dash (c ∷ name) d)

from_args-value :
    (takes_value : Text → Bool) (c : ℕ) (name v : Text) (rest : List Text)
    → takes_value (c ∷ name) ≡ true
    → (c == dash) ≡ false
    → from_args takes_value ((dash ∷ c ∷ name) ∷ v ∷ rest)
      ≡ named_line option (c ∷ name) v ∷ from_args takes_value rest
unfolding from_args
from_args-value takes_value c name v rest h d = ground (arith, strip_dashes-dash (c ∷ name) d)

from_args-line :
    (takes_value : Text → Bool) (n v : Text) (rest : List Text)
    → n ≢ []
    → starts_with_char n dash ≡ false
    → takes_value n ≡ not (is_empty v)
    → from_args takes_value ((dash ∷ n) ∷ ((if is_empty v then [] else v ∷ []) ++ rest))
      ≡ named_line option n v ∷ from_args takes_value rest
from_args-line takes_value [] v rest ne d h = absurd (ne refl)
from_args-line takes_value (c ∷ n) [] rest ne d h = from_args-flag takes_value c n rest h d
from_args-line takes_value (c ∷ n) (b ∷ v) rest ne d h =
    from_args-value takes_value c n (b ∷ v) rest h d

from_args-argv :
    (takes_value : Text → Bool) (file : ArgsFile)
    → AllFor takes_value file
    → from_args takes_value (argv file) ≡ options file
unfolding argv
from_args-argv takes_value [] h = unfold from_args in refl
from_args-argv takes_value (l ∷ ls) (o, h) = elim (Bool-cases (kind_eq l.kind option)) [
  | inr e ↦ rw (e, if◌then◌else◌) (from_args-argv takes_value ls h)
  | inl e ↦
      let k : l.kind ≡ option = kind_eq-eq l.kind option e in
      let (_, t, ne, d, v) = o k in
      rw (e, if◌then◌else◌)
        (from_args-line takes_value l.name l.value (argv ls) ne d v
          ∙ cc (named_line-eq option l k t, from_args-argv takes_value ls h))
]

-- The command line of a file, behind the name of any program, gives the options of the file back in
-- order, if each option has a name without a dash at its start and a value just where one is taken.
pub from_argv-argv :
    (takes_value : Text → Bool) (qemu : Text) (file : ArgsFile)
    → AllFor takes_value file
    → from_argv (qemu ∷ argv file) takes_value ≡ options file
unfolding from_argv
from_argv-argv takes_value qemu file h = from_args-argv takes_value file h
