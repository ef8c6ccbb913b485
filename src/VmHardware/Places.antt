-- ===== src/VmHardware/Places.antt =====
-- src/core/vmhardware.cpp: where insertAfter puts a line.
use qemu_gui_manager.Prelude.{
  ℕ, ◌≤◌, ◌<◌, ◌≡◌, inl, inr, Bool, Option, none, some, List, [], ◌∷◌, arith, Option-cases, length,
}
use qemu_gui_manager.Text.{Text}
use qemu_gui_manager.ArgsFile.{ArgsFile, option}
use qemu_gui_manager.ArgsFile.Edits.{last-bound}
use qemu_gui_manager.VmConfig.Naming.{first_option-le}
use qemu_gui_manager.VmHardware.Lines.{last_index, later, last_of, insert_place}

last_index-lt : (n : Text) (args : ArgsFile) (i : ℕ) → last_index n args ≡ some i → i < length args
unfolding last_index
last_index-lt n args i e = omega (arith, last-bound n option 0 i args e)

later-lt :
    (a b : Option ℕ) (m i : ℕ)
    → ((j : ℕ) → a ≡ some j → j < m)
    → ((j : ℕ) → b ≡ some j → j < m)
    → later a b ≡ some i
    → i < m
later-lt none b m i h k e = k i e
later-lt (some a) none m i h k e = h i e
later-lt (some a) (some b) m i h k e = ground (arith, h a, k b)

last_of-lt :
    (ns : List Text) (args : ArgsFile) (at : Option ℕ) (i : ℕ)
    → ((j : ℕ) → at ≡ some j → j < length args)
    → last_of at ns args ≡ some i
    → i < length args
unfolding last_of
last_of-lt [] args at i h e = h i e
last_of-lt (n ∷ ns) args at i h e =
    last_of-lt ns args (later at (last_index n args)) i
      (λ j q. later-lt at (last_index n args) (length args) j h (last_index-lt n args) q) e

-- The place is in the file, or at its end.
pub insert_place-le :
    (ns : List Text) (top : Bool) (args : ArgsFile) → insert_place ns top args ≤ length args
unfolding insert_place
insert_place-le ns top args = elim (Option-cases (last_of none ns args)) [
  | inl e ↦ rw (e, insert_place) (ground (arith, first_option-le args))
  | inr (i, e) ↦ rw (e, insert_place) (omega (arith, last_of-lt ns args none i (λ j q. cc) e))
]
