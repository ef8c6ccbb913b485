-- ===== src/VmHardware/BootMenu.antt =====
-- src/core/vmhardware.cpp: bootMenu after setBootMenu.
use qemu_gui_manager.Prelude.{
  ℕ, ◌≡◌, refl, ◌∙◌, inl, inr, true, false, none, some, [], ◌∷◌, arith, Option-cases, insert_at,
}
use qemu_gui_manager.Text.{Text, codes, is_empty, text_eq, has_char}
use qemu_gui_manager.OptionValue.{OptionValue, split_from, parse, get, flag, set, to_string}
use qemu_gui_manager.OptionValue.Edits.{get-reparse_self}
use qemu_gui_manager.ArgsFile.{
  ArgsFile, kind_eq, named_line, canonical_name, text_at, value_at, set_text_at, set_value_at,
  option,
}
use qemu_gui_manager.ArgsFile.Index.{text_at-set_text_at}
use qemu_gui_manager.ArgsFile.Values.{AreClean}
use qemu_gui_manager.VmConfig.Naming.{text_at-insert_at}
use qemu_gui_manager.VmHardware.Lines.{last_index, insert_place, insert_after}
use qemu_gui_manager.VmHardware.Places.{insert_place-le}
use qemu_gui_manager.VmHardware.Machine.{machine, accel_key}
use qemu_gui_manager.VmHardware.Boot.{boot, boot_menu, set_boot_menu}
use qemu_gui_manager.VmHardware.LastLine.{
  last_index-set_text_at, last_index-IsClean, last_index-insert_at,
}

abbrev menu : Text
menu = codes "menu"

boot_menu-found :
    (args : ArgsFile) (i : ℕ)
    → last_index boot args ≡ some i
    → boot_menu args ≡ flag menu false (parse (text_at args i))
unfolding boot_menu value_at
boot_menu-found args i e = rw (e, boot_menu) refl

set_on-filled : (v : OptionValue) → is_empty (set menu (codes "on") v) ≡ false
unfolding set
set_on-filled [] = refl
set_on-filled (i ∷ is) = ground arith

set_boot_menu-found :
    (args : ArgsFile) (i : ℕ)
    → last_index boot args ≡ some i
    → set_boot_menu true args
      ≡ set_text_at i (to_string (set menu (codes "on") (parse (text_at args i)))) args
unfolding set_boot_menu value_at set_value_at
set_boot_menu-found args i e = rw (e, set_boot_menu, set_on-filled) refl

abbrev place : ArgsFile → ℕ
place args = insert_place (accel_key ∷ machine ∷ []) true args

set_boot_menu-missing :
    (args : ArgsFile)
    → last_index boot args ≡ none
    → set_boot_menu true args
      ≡ insert_at (place args) (named_line option boot (codes "menu=on")) args
unfolding set_boot_menu insert_after
set_boot_menu-missing args e = rw (e, set_boot_menu) refl

-- The boot menu is on after it is turned on, if the -boot lines of the file are clean.
pub boot_menu-set_boot_menu_on :
    (args : ArgsFile) → AreClean boot args → boot_menu (set_boot_menu true args) ≡ true
boot_menu-set_boot_menu_on args clean = elim (Option-cases (last_index boot args)) [
  | inr (i, e) ↦
      let (lt, ok) = last_index-IsClean boot args i clean e in
      let t = to_string (set menu (codes "on") (parse (text_at args i))) in
      rw
        (
          set_boot_menu-found args i e,
          boot_menu-found (set_text_at i t args) i (last_index-set_text_at boot t i args ∙ e),
          text_at-set_text_at t i args lt,
        )
        (unfold flag text_eq in
          rw
            (get-reparse_self (text_at args i) menu (codes "on") ok
              ((λ q. cc), (unfold has_char in refl), refl) [])
            refl)
  | inl e ↦
      let l = named_line option boot (codes "menu=on") in
      let le = insert_place-le (accel_key ∷ machine ∷ []) true args in
      rw
        (
          set_boot_menu-missing args e,
          boot_menu-found (insert_at (place args) l args) (place args) (
              last_index-insert_at boot (place args) l args
                (unfold kind_eq text_eq canonical_name in refl) e le),
          text_at-insert_at (place args) l args le,
        )
        (unfold flag parse split_from get in refl)
]
