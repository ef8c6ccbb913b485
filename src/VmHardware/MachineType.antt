-- ===== src/VmHardware/MachineType.antt =====
-- src/core/vmhardware.cpp: machineType after setMachineType.
use qemu_gui_manager.Prelude.{
  ℕ, ◌<◌, ◌≡◌, refl, sym, ap, ◌∙◌, subst, ◌≢◌, inl, inr, true, false, Option, none, some, List, [],
  ◌∷◌, map, arith, ◌==◌, if◌then◌else◌, ==_iff, Bool-cases, Option-cases, length, get_first,
  insert_at, AllOf,
}
use qemu_gui_manager.ArgsFile.Values.{
  values_of-indexes_of, indexes_from-insert_at, AreClean, AreClean-at,
}
use qemu_gui_manager.VmHardware.Places.{insert_place-le}
use qemu_gui_manager.OptionValue.Clean.{IsClean}
use qemu_gui_manager.VmConfig.Naming.{implied_or-reparse, text_at-insert_at}
use qemu_gui_manager.OptionValue.Edits.{is_empty-eq-false, implied-parse_plain}
use qemu_gui_manager.VmHardware.Lines.{insert_place, insert_after}
use qemu_gui_manager.ArgsFile.Index.{
  text_at-set_text_at, text_at-set_text_at_ne, indexes_from-set_text_at,
}
use native.Mathlib.Nat.{zero-add}
use qemu_gui_manager.Text.{Text, codes, text_eq, has_char}
use qemu_gui_manager.OptionValue.{OptionValue, comma, equals, parse, has, get, to_string}
use qemu_gui_manager.ArgsFile.{
  ArgsFile, kind_eq, named_line, canonical_name, indexes_of, text_at, value_at, set_text_at,
  set_value_at, option,
}
use qemu_gui_manager.VmConfig.Name.{implied_or, set_implied_or}
use qemu_gui_manager.VmHardware.Machine.{
  machine, type_key, is_typed, type_or, last_type, machine_type, typed_line, first_of,
  set_machine_type, filled,
}

get-has : (k : Text) (v : OptionValue) → get k [] v ≢ [] → has k v ≡ true
unfolding get has
get-has k [] h = absurd (h refl)
get-has k (i ∷ is) h = ground (arith, get-has k is)

-- A value that gives the type `x` gives it whatever came before.
type_or-eq :
    (v : OptionValue) (x before : Text) → implied_or type_key v ≡ x → x ≢ [] → type_or v before ≡ x
unfolding implied_or
type_or-eq v x before e filled = ground (arith, get-has type_key v)

module _ (args : ArgsFile) (i : ℕ) (t x : Text)
    (same : (before : Text) → type_or (value_at (set_text_at i t args) i) before ≡ x) where
  other_value : (j : ℕ) → i ≢ j → value_at (set_text_at i t args) j ≡ value_at args j
  unfolding value_at
  other_value j h = rw (text_at-set_text_at_ne t i j args h) refl

  -- The loop reads `x` if the edited line is the last that has a type.
  last_type-typed :
      (js : List ℕ) (target : Option ℕ) (before : Text)
      → typed_line args target js ≡ some i
      → (target ≡ some i → before ≡ x)
      → last_type (set_text_at i t args) before js ≡ x
  unfolding typed_line last_type
  last_type-typed [] target before e h = h e
  last_type-typed (j ∷ js) target before e h =
      last_type-typed js (if is_typed (value_at args j) then some j else target)
        (type_or (value_at (set_text_at i t args) j) before) e
        (λ q. elim (Bool-cases (i == j)) [
          | inl r ↦ rw (sym ((==_iff i j).0 r)) (same before)
          | inr r ↦ rw (other_value j (λ p. cc ((==_iff i j).1 p))) (ground (arith, h))
        ])

  typed_line-ne_none : (js : List ℕ) (k : ℕ) → typed_line args (some k) js ≢ none
  unfolding typed_line
  typed_line-ne_none [] k = λ e. cc
  typed_line-ne_none (j ∷ js) k = λ e. elim (Bool-cases (is_typed (value_at args j))) [
    | inl r ↦ typed_line-ne_none js j (rw (r, if◌then◌else◌) at e)
    | inr r ↦ typed_line-ne_none js k (rw (r, if◌then◌else◌) at e)
  ]

  untyped-cons :
      (j : ℕ) (js : List ℕ)
      → typed_line args none (j ∷ js) ≡ none
      → (is_typed (value_at args j) ≡ false) × (typed_line args none js ≡ none)
  unfolding typed_line
  untyped-cons j js e = elim (Bool-cases (is_typed (value_at args j))) [
    | inl r ↦ absurd (typed_line-ne_none js j (rw (r, if◌then◌else◌) at e))
    | inr r ↦ (r, rw (r, if◌then◌else◌) at e)
  ]

  -- The lines without a type change nothing.
  last_type-untyped :
      (js : List ℕ) (before : Text)
      → typed_line args none js ≡ none
      → before ≡ x
      → last_type (set_text_at i t args) before js ≡ x
  unfolding last_type
  last_type-untyped [] before e h = h
  last_type-untyped (j ∷ js) before e h =
      let (r, rest) = untyped-cons j js e in
      last_type-untyped js (type_or (value_at (set_text_at i t args) j) before) rest
        (elim (Bool-cases (i == j)) [
          | inl q ↦ rw (sym ((==_iff i j).0 q)) (same before)
          | inr q ↦ rw (other_value j (λ p. cc ((==_iff i j).1 p))) (ground (arith, h))
        ])

typed_line-AllOf :
    (P : ℕ → Type 0) (args : ArgsFile) (i : ℕ) (js : List ℕ) (target : Option ℕ)
    → AllOf P js
    → (target ≡ some i → P i)
    → typed_line args target js ≡ some i
    → P i
unfolding typed_line
typed_line-AllOf P args i [] target a h e = h e
typed_line-AllOf P args i (j ∷ js) target (p, a) h e =
    typed_line-AllOf P args i js (if is_typed (value_at args j) then some j else target) a
      (λ q. elim (Bool-cases (is_typed (value_at args j))) [
        | inl r ↦ subst P (cc (r, q)) p
        | inr r ↦ h (rw (r, if◌then◌else◌) at q)
      ])
      e

-- Where setMachineType writes, if there is a -machine.
pub target_line : ArgsFile → Option ℕ
target_line args =
    first_of (typed_line args none (indexes_of machine option args))
      (indexes_of machine option args)

set_machine_type-found :
    (x : Text) (args : ArgsFile) (i : ℕ)
    → target_line args ≡ some i
    → set_machine_type x args
      ≡ set_text_at i (to_string (set_implied_or type_key x (parse (text_at args i)))) args
unfolding set_machine_type set_value_at value_at target_line
set_machine_type-found x args i e = rw (e, set_machine_type) refl

set_machine_type-missing :
    (x : Text) (args : ArgsFile)
    → x ≢ []
    → target_line args ≡ none
    → set_machine_type x args
      ≡ insert_at (insert_place (codes "name" ∷ []) true args) (named_line option machine x) args
unfolding set_machine_type insert_after target_line
set_machine_type-missing x args filled e = rw (e, is_empty-eq-false x filled, set_machine_type) refl

target_line-AllOf :
    (P : ℕ → Type 0) (args : ArgsFile) (i : ℕ)
    → AllOf P (indexes_of machine option args)
    → target_line args ≡ some i
    → P i
unfolding target_line
target_line-AllOf P args i a e =
    elim (Option-cases (typed_line args none (indexes_of machine option args))) [
      | inr (j, h) ↦
          subst P (cc (rw h at e))
            (typed_line-AllOf P args j (indexes_of machine option args) none a (λ q. cc) h)
      | inl h ↦ first (indexes_of machine option args) a (rw h at e)
    ]
  where
    first : (js : List ℕ) → AllOf P js → get_first js ≡ some i → P i
    first [] a q = cc
    first (j ∷ js) (p, a) q = subst P (cc (q)) p

target_line-none : (args : ArgsFile) → target_line args ≡ none → indexes_of machine option args ≡ []
unfolding target_line
target_line-none args e =
    elim (Option-cases (typed_line args none (indexes_of machine option args))) [
      | inr (j, h) ↦ cc (rw h at e)
      | inl h ↦ no_first (indexes_of machine option args) (rw h at e)
    ]
  where
    no_first : (js : List ℕ) → get_first js ≡ none → js ≡ []
    no_first [] q = refl
    no_first (j ∷ js) q = cc

machine_type-edited :
    (args : ArgsFile) (i : ℕ) (t x : Text)
    → ((before : Text) → type_or (value_at (set_text_at i t args) i) before ≡ x)
    → target_line args ≡ some i
    → machine_type (set_text_at i t args) ≡ x
unfolding machine_type target_line
machine_type-edited args i t x same e =
    rw (indexes_from-set_text_at machine option t 0 i args)
      (elim (Option-cases (typed_line args none (indexes_of machine option args))) [
        | inr (j, h) ↦
            last_type-typed args i t x same (indexes_of machine option args) none []
              (h ∙ (rw h at e)) (λ q. cc)
        | inl h ↦ first (indexes_of machine option args) (rw h at e) h
      ])
  where
    first :
        (js : List ℕ)
        → get_first js ≡ some i
        → typed_line args none js ≡ none
        → last_type (set_text_at i t args) [] js ≡ x
    first [] q h = cc
    first (j ∷ js) q h =
        last_type-untyped args i t x same js (type_or (value_at (set_text_at i t args) j) [])
          (untyped-cons args i t x same j js h).1
          (subst (λ (k : ℕ). type_or (value_at (set_text_at i t args) k) [] ≡ x) (cc (q)) (same []))

-- A machine type that is not empty and has neither `=` nor `,` is read back after it is set, if the
-- -machine lines of the file are clean, however many there are.
pub machine_type-set_machine_type :
    (x : Text) (args : ArgsFile)
    → x ≢ []
    → has_char equals x ≡ false
    → has_char comma x ≡ false
    → AreClean machine args
    → machine_type (set_machine_type x args) ≡ x
machine_type-set_machine_type x args filled plain single clean =
    elim (Option-cases (target_line args)) [
      | inr (i, e) ↦
          let (lt, ok) =
            target_line-AllOf (λ j. (j < length args) × IsClean (text_at args j)) args i
              (AreClean-at machine args clean) e in
          let t = to_string (set_implied_or type_key x (parse (text_at args i))) in
          let back =
            implied_or-reparse (text_at args i) type_key x ok
              ((λ q. cc), (unfold has_char in refl), refl) filled plain in
          rw (set_machine_type-found x args i e) (
            machine_type-edited args i t x
              (λ before.
                unfold value_at in
                rw (text_at-set_text_at t i args lt) (type_or-eq (parse t) x before back filled))
              e)
      | inl e ↦
          let at = insert_place (codes "name" ∷ []) true args in
          let le = insert_place-le (codes "name" ∷ []) true args in
          let l = named_line option machine x in
          let empty =
            sym (values_of-indexes_of machine option args)
            ∙ ap (map (text_at args)) (target_line-none args e) in
          rw (set_machine_type-missing x args filled e) (
            unfold machine_type last_type value_at in
            rw
              (
                indexes_from-insert_at machine option l 0 at args
                    (unfold kind_eq text_eq canonical_name in refl) empty le,
                zero-add,
                text_at-insert_at at l args le,
                implied-parse_plain x plain single,
                is_empty-eq-false x filled,
              )
              refl)
    ]
