-- ===== src/VmHardware/Accelerator.antt =====
-- src/core/vmhardware.cpp: accel after setAccel, whatever gives the accelerator.
use qemu_gui_manager.VmHardware.Accel.{
  OnceWith, last_accel-edited, first_with-AllOf, no_accel, line_index-IsClean, values_of-remove_all,
}
use qemu_gui_manager.Prelude.{
  ℕ, ◌<◌, ◌≡◌, refl, sym, ap, ◌∙◌, ◌≢◌, inl, inr, true, false, none, some, List, [], ◌∷◌, arith,
  if◌then◌else◌, Bool-cases, Option-cases, length, get_first, insert_at, is_none,
}
use qemu_gui_manager.Text.{Text, codes, is_empty, text_eq, has_char}
use qemu_gui_manager.Text.Laws.{text_eq_iff}
use qemu_gui_manager.OptionValue.{comma, equals, parse, has, get, set, to_string}
use qemu_gui_manager.OptionValue.Clean.{IsClean}
use qemu_gui_manager.OptionValue.Edits.{IsKeyName, is_empty-eq-false, reparse, implied-parse_plain}
use qemu_gui_manager.OptionValue.Lookup.{get-set_self, has-set}
use qemu_gui_manager.ArgsFile.{
  ArgsFile, kind_eq, named_line, canonical_name, indexes_of, line_index, text_at, value_at,
  set_text_at, set_value_at, remove_all, option,
}
use qemu_gui_manager.ArgsFile.Index.{
  line_index-set_text_at, text_at-set_text_at, indexes_from-set_text_at,
}
use qemu_gui_manager.ArgsFile.Values.{
  values_of, indexes_from-insert_at, line_index-values_of, AreClean, AreClean-at,
}
use qemu_gui_manager.VmConfig.Name.{implied_or, set_implied_or}
use qemu_gui_manager.VmConfig.Naming.{implied_or-reparse, text_at-insert_at}
use qemu_gui_manager.VmHardware.Lines.{insert_place, insert_after}
use qemu_gui_manager.VmHardware.Places.{insert_place-le}
use qemu_gui_manager.VmHardware.Machine.{
  machine, accel_key, enable_kvm, has_line, accel_of_machine, accel, first_with, add_accel,
  set_accel, filled,
}
use native.Mathlib.Nat.{zero-add}

abbrev machines : ArgsFile → List ℕ
machines args = indexes_of machine option args

accel-of_line :
    (args : ArgsFile) (a : ℕ)
    → line_index accel_key option args ≡ some a
    → accel args ≡ implied_or accel_key (parse (text_at args a))
unfolding accel value_at
accel-of_line args a e = rw (e, accel) refl

accel-of_machine :
    (args : ArgsFile) → line_index accel_key option args ≡ none → accel args ≡ accel_of_machine args
unfolding accel
accel-of_machine args e = rw (e, accel) refl

set_accel-of_line :
    (x : Text) (args : ArgsFile) (a : ℕ)
    → line_index accel_key option args ≡ some a
    → set_accel x args
      ≡ set_text_at a (to_string (set_implied_or accel_key x (parse (text_at args a)))) args
unfolding set_accel value_at set_value_at
set_accel-of_line x args a e = rw (e, set_accel) refl

set_accel-of_machine :
    (x : Text) (args : ArgsFile) (i : ℕ)
    → line_index accel_key option args ≡ none
    → first_with accel_key args (machines args) ≡ some i
    → set_accel x args ≡ set_text_at i (to_string (set accel_key x (parse (text_at args i)))) args
unfolding set_accel value_at set_value_at
set_accel-of_machine x args i e f = rw (e, f, set_accel) refl

set_accel-otherwise :
    (x : Text) (args : ArgsFile)
    → line_index accel_key option args ≡ none
    → first_with accel_key args (machines args) ≡ none
    → set_accel x args ≡ (
        if has_line enable_kvm args
        then if text_eq x (codes "kvm")
          then args
          else add_accel x (remove_all enable_kvm option args)
        else add_accel x args)
unfolding set_accel
set_accel-otherwise x args e f = rw (e, f, set_accel) refl

accel_key-IsKeyName : IsKeyName accel_key
unfolding has_char
accel_key-IsKeyName = ((λ q. cc), refl, refl)

no_values :
    (args : ArgsFile)
    → line_index accel_key option args ≡ none
    → values_of accel_key option args ≡ []
no_values args e =
    empty (values_of accel_key option args)
      (sym (line_index-values_of accel_key option args) ∙ ap is_none e)
  where
    empty : (ts : List Text) → is_empty ts ≡ true → ts ≡ []
    empty [] q = refl
    empty (t ∷ ts) q = cc

by_kvm :
    (args : ArgsFile)
    → has_line enable_kvm args ≡ true
    → first_with accel_key args (machines args) ≡ none
    → accel_of_machine args ≡ codes "kvm"
unfolding accel_of_machine
by_kvm args k f = rw (no_accel args (machines args) [] f, k) refl

module _ (x : Text) (filled : x ≢ []) (plain : has_char equals x ≡ false)
    (single : has_char comma x ≡ false) where
  accel-add_accel :
      (args : ArgsFile) → values_of accel_key option args ≡ [] → accel (add_accel x args) ≡ x
  unfolding add_accel insert_after
  accel-add_accel args e =
      let ns = codes "name" ∷ machine ∷ [] in
      let at = insert_place ns true args in
      let l = named_line option accel_key x in
      let le = insert_place-le ns true args in
      let found : line_index accel_key option (insert_at at l args) ≡ some at =
        unfold line_index in
        (ap get_first (
            indexes_from-insert_at accel_key option l 0 at args
              (unfold kind_eq text_eq canonical_name in refl) e le)
          ∙ rw zero-add refl) in
      rw
        (
          is_empty-eq-false x filled,
          if◌then◌else◌,
          accel-of_line (insert_at at l args) at found,
          text_at-insert_at at l args le,
        )
        (unfold implied_or in
          rw (implied-parse_plain x plain single, is_empty-eq-false x filled) refl)

  accel-set_line :
      (args : ArgsFile) (a : ℕ)
      → AreClean accel_key args
      → line_index accel_key option args ≡ some a
      → accel (set_accel x args) ≡ x
  accel-set_line args a clean e =
      let (lt, ok) = line_index-IsClean accel_key args a clean e in
      let t = to_string (set_implied_or accel_key x (parse (text_at args a))) in
      rw
        (
          set_accel-of_line x args a e,
          accel-of_line (set_text_at a t args) a
              (line_index-set_text_at accel_key option t a args ∙ e),
          text_at-set_text_at t a args lt,
        )
        (implied_or-reparse (text_at args a) accel_key x ok accel_key-IsKeyName filled plain)

  accel-set_machine :
      (args : ArgsFile) (i : ℕ)
      → AreClean machine args
      → OnceWith accel_key args (machines args)
      → line_index accel_key option args ≡ none
      → first_with accel_key args (machines args) ≡ some i
      → accel (set_accel x args) ≡ x
  accel-set_machine args i clean once e f =
      let (lt, ok) =
        first_with-AllOf (λ j. (j < length args) × IsClean (text_at args j)) accel_key args i
          (machines args) (AreClean-at machine args clean) f in
      let o = set accel_key x (parse (text_at args i)) in
      let t = to_string o in
      let read : parse t ≡ o = reparse (text_at args i) accel_key x ok accel_key-IsKeyName in
      let same : (has accel_key (parse t) ≡ true) × (get accel_key [] (parse t) ≡ x) = (
        rw read (
            has-set accel_key accel_key x (parse (text_at args i))
            ∙ (ground (arith, text_eq_iff accel_key accel_key))),
        rw read (get-set_self accel_key x [] (parse (text_at args i))),
      ) in
      rw
        (
          set_accel-of_machine x args i e f,
          accel-of_machine (set_text_at i t args)
              (line_index-set_text_at accel_key option t i args ∙ e),
        )
        (unfold accel_of_machine in
          rw
            (
              indexes_from-set_text_at machine option t 0 i args,
              last_accel-edited args i t x same lt (machines args) [] once f,
              is_empty-eq-false x filled,
            )
            refl)

  accel-set_kvm :
      (args : ArgsFile)
      → line_index accel_key option args ≡ none
      → first_with accel_key args (machines args) ≡ none
      → accel (set_accel x args) ≡ x
  accel-set_kvm args e f =
      rw (set_accel-otherwise x args e f) (elim (Bool-cases (has_line enable_kvm args)) [
        | inr k ↦ rw (k, if◌then◌else◌) (accel-add_accel args (no_values args e))
        | inl k ↦ elim (Bool-cases (text_eq x (codes "kvm"))) [
          | inr n ↦
              rw (k, n, if◌then◌else◌, if◌then◌else◌)
                (accel-add_accel (remove_all enable_kvm option args) (
                  values_of-remove_all accel_key enable_kvm args (unfold text_eq in refl)
                  ∙ no_values args e))
          | inl n ↦
              rw (k, n, if◌then◌else◌, if◌then◌else◌)
                (accel-of_machine args e
                  ∙ by_kvm args k f
                  ∙ sym ((text_eq_iff x (codes "kvm")).0 n))
        ]
      ])

-- An accelerator that is not empty and has neither `=` nor `,` is read back after it is set, whether
-- -accel, accel= of a -machine, -enable-kvm or nothing gave it before: if the -accel and -machine
-- lines are clean and no two -machine lines have accel=.
pub accel-set_accel :
    (x : Text) (args : ArgsFile)
    → x ≢ []
    → has_char equals x ≡ false
    → has_char comma x ≡ false
    → AreClean accel_key args
    → AreClean machine args
    → OnceWith accel_key args (indexes_of machine option args)
    → accel (set_accel x args) ≡ x
accel-set_accel x args filled plain single clean typed once =
    elim (Option-cases (line_index accel_key option args)) [
      | inr (a, e) ↦ accel-set_line x filled plain single args a clean e
      | inl e ↦ elim (Option-cases (first_with accel_key args (machines args))) [
        | inr (i, f) ↦ accel-set_machine x filled plain single args i typed once e f
        | inl f ↦ accel-set_kvm x filled plain single args e f
      ]
    ]
