-- ===== src/VmHardware/FlashLines.antt =====
-- src/core/vmhardware.cpp: the lines that useBios takes away.
use qemu_gui_manager.Prelude.{
  ◌≡◌, refl, ◌⊎◌, inl, inr, Bool, true, false, ◌&&◌, ◌||◌, [], ◌∷◌, if◌then◌else◌, Bool-cases,
  tests,
}
use qemu_gui_manager.Text.{Text, codes, text_eq}
use qemu_gui_manager.Text.Laws.{text_eq_iff}
use qemu_gui_manager.OptionValue.{OptionValue, parse, has, get}
use qemu_gui_manager.ArgsFile.{ArgsFile, kind_eq, Kind, blank, comment, option, directive, Line}
use qemu_gui_manager.ArgsFile.Values.{lines_without}
use qemu_gui_manager.VmHardware.Boot.{is_secure_flash, is_flash, use_bios}
use qemu_gui_manager.VmHardware.Bios.{use_bios-lines_without}

-- The properties of a -global that only a firmware in flash takes.
abbrev pub IsSecureFlash : OptionValue → Type 0
IsSecureFlash v =
    ((get (codes "driver") [] v ≡ codes "cfi.pflash01")
      × (get (codes "property") [] v ≡ codes "secure"))
    ⊎ (has (codes "cfi.pflash01.secure") v ≡ true)

-- A pflash drive, a -pflash, or a -global of secure flash.
abbrev pub IsFirmwareLine : Line → Type 0
IsFirmwareLine l =
    (l.kind ≡ option)
    × ((((l.name ≡ codes "drive") × (get (codes "if") [] (parse l.value) ≡ codes "pflash"))
          ⊎ (l.name ≡ codes "pflash"))
        ⊎ ((l.name ≡ codes "global") × IsSecureFlash (parse l.value)))

-- The lines that are `P` are left out, and the others stay, in their order.
pub data LeavesOut (P : Line → Type 0) : ArgsFile → ArgsFile → Type 0 where
  end : LeavesOut P [] []
  leaves_out : {l : Line} {ls ms : ArgsFile} → P l → LeavesOut P ls ms → LeavesOut P (l ∷ ls) ms
  keeps :
      {l : Line} {ls ms : ArgsFile} → (P l → ⊥) → LeavesOut P ls ms → LeavesOut P (l ∷ ls) (l ∷ ms)

-- A test and what it is about.
abbrev Tests : Bool → Type 0 → Type 0
Tests b P = ((b ≡ true) × P) ⊎ ((b ≡ false) × (P → ⊥))

Tests-and : (a b : Bool) {P Q : Type 0} → Tests a P → Tests b Q → Tests (a && b) (P × Q)
Tests-and a b (inl (e, p)) (inl (f, q)) = inl (rw (e, f, ◌&&◌) refl, (p, q))
Tests-and a b (inl (e, p)) (inr (f, q)) = inr (rw (e, f, ◌&&◌) refl, λ h. q h.1)
Tests-and a b (inr (e, p)) u = inr (rw (e, ◌&&◌) refl, λ h. p h.0)

Tests-or : (a b : Bool) {P Q : Type 0} → Tests a P → Tests b Q → Tests (a || b) (P ⊎ Q)
Tests-or a b (inl (e, p)) u = inl (rw (e, ◌||◌) refl, inl p)
Tests-or a b (inr (e, p)) (inl (f, q)) = inl (rw (e, f, ◌||◌) refl, inr q)
Tests-or a b (inr (e, p)) (inr (f, q)) =
    inr (rw (e, f, ◌||◌) refl, λ h. elim h [ inl x ↦ p x | inr y ↦ q y ])

text_eq-Tests : (s t : Text) → Tests (text_eq s t) (s ≡ t)
text_eq-Tests s t = elim (Bool-cases (text_eq s t)) [
  | inl e ↦ inl (e, (text_eq_iff s t).0 e)
  | inr e ↦ inr (e, λ h. cc (e, (text_eq_iff s t).1 h))
]

true-Tests : (b : Bool) → Tests b (b ≡ true)
true-Tests true = inl (refl, refl)
true-Tests false = inr (refl, λ h. cc)

option-Tests : (k : Kind) → Tests (kind_eq k option) (k ≡ option)
unfolding kind_eq
option-Tests option = inl (refl, refl)
option-Tests blank = inr (refl, λ h. cc)
option-Tests comment = inr (refl, λ h. cc)
option-Tests directive = inr (refl, λ h. cc)

is_flash-Tests : (l : Line) → Tests (is_flash l) (IsFirmwareLine l)
unfolding is_flash is_secure_flash
is_flash-Tests l =
    let v = parse l.value in
    Tests-and _ _ (option-Tests l.kind) (
      Tests-or _ _
        (Tests-or _ _
          (Tests-and _ _ (text_eq-Tests l.name (codes "drive"))
            (text_eq-Tests (get (codes "if") [] v) (codes "pflash")))
          (text_eq-Tests l.name (codes "pflash")))
        (Tests-and _ _ (text_eq-Tests l.name (codes "global")) (
          Tests-or _ _
            (Tests-and _ _ (text_eq-Tests (get (codes "driver") [] v) (codes "cfi.pflash01"))
              (text_eq-Tests (get (codes "property") [] v) (codes "secure")))
            (true-Tests (has (codes "cfi.pflash01.secure") v)))))

lines_without-LeavesOut :
    (P : Line → Type 0) (p : Line → Bool)
    → ((l : Line) → Tests (p l) (P l))
    → (ls : ArgsFile) → LeavesOut P ls (lines_without p ls)
lines_without-LeavesOut P p tests [] = end
lines_without-LeavesOut P p tests (l ∷ ls) = elim (tests l) [
  | inl (e, h) ↦ rw (e, if◌then◌else◌) (leaves_out h (lines_without-LeavesOut P p tests ls))
  | inr (e, h) ↦ rw (e, if◌then◌else◌) (keeps h (lines_without-LeavesOut P p tests ls))
]

-- `useBios` takes away just the pflash drives, the -pflash lines and the -global lines of secure
-- flash, as IsFirmwareLine says which those are, and leaves the others in their order.
pub use_bios-LeavesOut : (args : ArgsFile) → LeavesOut IsFirmwareLine args (use_bios args)
use_bios-LeavesOut args =
    rw (use_bios-lines_without args)
      (lines_without-LeavesOut IsFirmwareLine is_flash is_flash-Tests args)
