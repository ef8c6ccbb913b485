-- ===== src/Importer/Imported.antt =====
-- src/core/importer.cpp: the import of a command line that the manager wrote.
use qemu_gui_manager.VmRunner.Quoting.{shell_quote, IsQuotable}
use qemu_gui_manager.Prelude.{
  ℕ, ◌≡◌, refl, ap, ◌∙◌, ◌≢◌, inl, inr, Bool, true, false, not, some, List, [], ◌∷◌, ◌++◌, ◌==◌,
  if◌then◌else◌, Bool-cases, AllOf,
}
use qemu_gui_manager.Text.{Text, is_empty, starts_with, starts_with_char}
use qemu_gui_manager.Importer.Import.{
  is_qemu, at_program, look_for, find_qemu, left_out, put_line, option_name, has_value,
  argument_lines, import_found, import_script, Paths, Found,
}
use qemu_gui_manager.Importer.Exported.{split_commands-shell_quote}
use qemu_gui_manager.ArgsFile.{ArgsFile, kind_eq, dash, argv, option, Line}
use qemu_gui_manager.ArgsFile.Argv.{options, AllFor}
use qemu_gui_manager.ArgsFile.Lines.{named_line-eq, kind_eq-eq}
use qemu_gui_manager.Importer.Words.{Environment}
use qemu_gui_manager.Numbers.{Conversions}

-- The options that the import keeps.
abbrev pub kept : ArgsFile → ArgsFile
kept [] = []
kept (l ∷ ls) = let rest = kept ls in if left_out l.name then rest else l ∷ rest

option_name-dash : (c : ℕ) (n : Text) → (c == dash) ≡ false → option_name (dash ∷ c ∷ n) ≡ c ∷ n
unfolding starts_with
option_name-dash c n d = rw (d, if◌then◌else◌) refl

module _ (p : Paths) (takes : Text → Bool) (t : p.takes_value ≡ some takes) where
  has_value-takes : (n next : Text) → has_value p n next ≡ takes n
  has_value-takes n next = rw t refl

  -- A round at an option that is not the last argument.
  argument_lines-step :
      (c : ℕ) (n next : Text) (more : List Text) (b : Bool)
      → (c == dash) ≡ false
      → takes (c ∷ n) ≡ b
      → argument_lines p ((dash ∷ c ∷ n) ∷ next ∷ more) ≡ elim b [
        | true ↦ put_line (c ∷ n) next (argument_lines p more)
        | false ↦ put_line (c ∷ n) [] (argument_lines p (next ∷ more))
      ]
  unfolding argument_lines
  argument_lines-step c n next more b d h =
      let out = λ (m : Text) (v : Bool). elim v as (λ x. List Line × List Text) [
        | true ↦ put_line m next (argument_lines p more)
        | false ↦ put_line m [] (argument_lines p (next ∷ more))
      ] in
      let e = option_name-dash c n d in
      ap (λ (m : Text). out m (has_value p m next)) e
      ∙ ap (out (c ∷ n)) (has_value-takes (c ∷ n) next ∙ h)

  argument_lines-flag :
      (c : ℕ) (n : Text) (rest : List Text)
      → takes (c ∷ n) ≡ false
      → (c == dash) ≡ false
      → argument_lines p ((dash ∷ c ∷ n) ∷ rest) ≡ put_line (c ∷ n) [] (argument_lines p rest)
  unfolding argument_lines
  argument_lines-flag c n [] h d =
      ap (λ (m : Text). put_line m [] ([], [])) (option_name-dash c n d)
  argument_lines-flag c n (r ∷ rest) h d = argument_lines-step c n r rest false d h

  argument_lines-line :
      (n v : Text) (rest : List Text)
      → n ≢ []
      → starts_with_char n dash ≡ false
      → takes n ≡ not (is_empty v)
      → argument_lines p ((dash ∷ n) ∷ ((if is_empty v then [] else v ∷ []) ++ rest))
        ≡ put_line n v (argument_lines p rest)
  argument_lines-line [] v rest ne d h = absurd (ne refl)
  argument_lines-line (c ∷ n) [] rest ne d h = argument_lines-flag c n rest h d
  argument_lines-line (c ∷ n) (b ∷ v) rest ne d h = argument_lines-step c n (b ∷ v) rest true d h

  put_line-kept :
      (l : Line) (out : List Line × List Text)
      → l.kind ≡ option
      → l.text ≡ []
      → (put_line l.name l.value out).0 ≡ (if left_out l.name then out.0 else l ∷ out.0)
  put_line-kept l (lines, notes) k e = elim (Bool-cases (left_out l.name)) [
    | inl q ↦ rw (q, if◌then◌else◌) refl
    | inr q ↦ rw (q, if◌then◌else◌) (ap (λ (y : Line). y ∷ lines) (named_line-eq option l k e))
  ]

  argument_lines-argv :
      (file : ArgsFile) → AllFor takes file → (argument_lines p (argv file)).0 ≡ kept (options file)
  unfolding argv argument_lines
  argument_lines-argv [] a = refl
  argument_lines-argv (l ∷ ls) (o, a) = elim (Bool-cases (kind_eq l.kind option)) [
    | inr e ↦ rw (e, if◌then◌else◌) (argument_lines-argv ls a)
    | inl e ↦
        let k : l.kind ≡ option = kind_eq-eq l.kind option e in
        let (_, x, ne, d, v) = o k in
        rw (e, if◌then◌else◌)
          (ap (λ (o : List Line × List Text). o.0)
              (argument_lines-line l.name l.value (argv ls) ne d v)
            ∙ put_line-kept l (argument_lines p (argv ls)) k x
            ∙ rw (argument_lines-argv ls a) refl)
  ]

at_program-first :
    (program : Text) (args : List Text)
    → is_qemu program ≡ true
    → at_program (program ∷ args) ≡ ([], program ∷ args)
unfolding at_program
at_program-first program args h = rw (h, if◌then◌else◌) refl

found_qemu :
    (p : Paths) (base program : Text) (args : List Text)
    → is_qemu program ≡ true
    → find_qemu p
        ((program ∷ args) ∷ [])
        (record { base = base; argv = []; others = []; notes = [] })
      ≡ record { base = base; argv = program ∷ args; others = []; notes = [] }
unfolding find_qemu
found_qemu p base program args h =
    let empty : Found = record { base = base; argv = []; others = []; notes = [] } in
    ap (λ (at : List Text × List Text). look_for p (program ∷ args) at empty)
      (at_program-first program args h)

-- A command line that the manager wrote for a shell is imported as it was: the QEMU command is all
-- that is found, from the folder that the import starts in, with no other command and no note, and
-- the lines made of its arguments are the options of the file, less -daemonize and -pidfile. No
-- argument is of plain characters with a newline at its end, the program is one of QEMU, each option of the file has a name that starts with no dash, and it has a
-- value just where one is taken.
pub import_script-shell_quote :
    (q : Conversions) (env : Environment) (p : Paths) (takes : Text → Bool) (base program : Text)
    (file : ArgsFile)
    → p.takes_value ≡ some takes
    → AllOf IsQuotable (program ∷ argv file)
    → is_qemu program ≡ true
    → AllFor takes file
    → (import_script q env p base (shell_quote (program ∷ argv file))
        ≡ import_found q p
            (record { base = base; argv = program ∷ argv file; others = []; notes = [] }))
      × ((argument_lines p (argv file)).0 ≡ kept (options file))
unfolding import_script
import_script-shell_quote q env p takes base program file t quotable h a =
    let from = λ (out : List (List Text) × List Text).
      import_found q p
        (find_qemu p out.0 (record { base = base; argv = []; others = []; notes = out.1 })) in
    (
      ap from (split_commands-shell_quote env program (argv file) quotable)
          ∙ ap (import_found q p) (found_qemu p base program (argv file) h),
      argument_lines-argv p takes t file a,
    )
