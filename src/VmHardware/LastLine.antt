-- ===== src/VmHardware/LastLine.antt =====
-- src/core/vmhardware.cpp: lastIndex, before and after an edit of the lines.
use qemu_gui_manager.Prelude.{
  ℕ, ◌≤◌, ◌<◌, ◌≡◌, refl, sym, ap, ◌∙◌, subst, true, none, some, List, [], ◌∷◌, map, length, last,
  insert_at, AllOf,
}
use qemu_gui_manager.Text.{Text}
use qemu_gui_manager.OptionValue.Clean.{IsClean}
use qemu_gui_manager.ArgsFile.{ArgsFile, is_line, indexes_of, text_at, set_text_at, option, Line}
use qemu_gui_manager.ArgsFile.Index.{indexes_from-set_text_at}
use qemu_gui_manager.ArgsFile.Values.{
  values_of, values_of-indexes_of, indexes_from-insert_at, AreClean, AreClean-at,
}
use qemu_gui_manager.VmHardware.Lines.{last_index}
use native.Mathlib.Nat.{zero-add}

pub last_index-set_text_at :
    (n t : Text) (i : ℕ) (args : ArgsFile) → last_index n (set_text_at i t args) ≡ last_index n args
unfolding last_index
last_index-set_text_at n t i args = ap last (indexes_from-set_text_at n option t 0 i args)

last-AllOf : (P : ℕ → Type 0) (is : List ℕ) (i : ℕ) → AllOf P is → last is ≡ some i → P i
last-AllOf P [] i a e = cc
last-AllOf P (j ∷ []) i (p, a) e = subst P (cc (e)) p
last-AllOf P (j ∷ k ∷ is) i (p, a) e = last-AllOf P (k ∷ is) i a e

-- The last line lies in the file and is clean if all of them are.
pub last_index-IsClean :
    (n : Text) (args : ArgsFile) (i : ℕ)
    → AreClean n args
    → last_index n args ≡ some i
    → (i < length args) × IsClean (text_at args i)
unfolding last_index
last_index-IsClean n args i clean e =
    last-AllOf (λ j. (j < length args) × IsClean (text_at args j)) (indexes_of n option args) i
      (AreClean-at n args clean) e

last-none : (is : List ℕ) → last is ≡ none → is ≡ []
last-none [] e = refl
last-none (i ∷ []) e = cc
last-none (i ∷ j ∷ is) e = absurd (cc (last-none (j ∷ is) e))

pub last_index-none :
    (n : Text) (args : ArgsFile) → last_index n args ≡ none → values_of n option args ≡ []
unfolding last_index
last_index-none n args e =
    sym (values_of-indexes_of n option args)
    ∙ ap (map (text_at args)) (last-none (indexes_of n option args) e)

-- A line that is put into a file without the option is the last.
pub last_index-insert_at :
    (n : Text) (i : ℕ) (l : Line) (args : ArgsFile)
    → is_line n option l ≡ true
    → last_index n args ≡ none
    → i ≤ length args
    → last_index n (insert_at i l args) ≡ some i
last_index-insert_at n i l args h e le =
    unfold last_index in
    (ap last (indexes_from-insert_at n option l 0 i args h (last_index-none n args e) le)
      ∙ rw zero-add refl)
