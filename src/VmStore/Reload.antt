-- ===== src/VmStore/Reload.antt =====
-- src/core/vmstore.cpp: Vm::reload after Vm::save, and again.
use qemu_gui_manager.Prelude.{
  ℕ, suc, ◌≡◌, refl, ap, inl, inr, true, none, List, if◌then◌else◌, Bool-cases,
}
use qemu_gui_manager.Text.{Text, text_eq}
use qemu_gui_manager.Text.Laws.{text_eq_iff}
use qemu_gui_manager.ArgsFile.{ArgsFile, to_text}
use qemu_gui_manager.ArgsFile.RoundTrip.{AreWritten, EndsFilled, parse-to_text}
use qemu_gui_manager.VmStore.{save, read_file, reload, Vm}

text_eq_self : (t : Text) → text_eq t t ≡ true
text_eq_self t = (text_eq_iff t t).1 refl

reload_same :
    (from_utf8 : List ℕ → Text) (vm : Vm)
    → to_text (read_file from_utf8 vm.file) ≡ to_text vm.args
    → reload from_utf8 vm ≡ vm
unfolding reload
reload_same from_utf8 vm e = rw (e, text_eq_self (to_text vm.args), reload, if◌then◌else◌) refl

-- Reloading again, with the file as it was, changes nothing and signals nothing, whatever the file
-- holds.
reload-reload :
    (from_utf8 : List ℕ → Text) (vm : Vm)
    → reload from_utf8 (reload from_utf8 vm) ≡ reload from_utf8 vm
unfolding reload
reload-reload from_utf8 vm =
    elim (Bool-cases (text_eq (to_text (read_file from_utf8 vm.file)) (to_text vm.args))) [
      | inl e ↦
          let same = reload_same from_utf8 vm ((text_eq_iff _ _).0 e) in ap (reload from_utf8) same
      | inr e ↦
          rw (e, reload, if◌then◌else◌)
            (reload_same from_utf8
              (record vm { args = read_file from_utf8 vm.file; changes = suc vm.changes }) refl)
    ]

-- After a save that succeeds, with lines that are read back from their text, the reload that the
-- new file causes changes nothing and signals nothing, if the bytes of the text are read as the
-- text.
pub reload-save :
    (to_utf8 : Text → List ℕ) (from_utf8 : List ℕ → Text) (args : ArgsFile) (vm : Vm)
    → from_utf8 (to_utf8 (to_text args)) ≡ to_text args
    → AreWritten args
    → EndsFilled args
    → reload from_utf8 (save to_utf8 none args vm).1 ≡ (save to_utf8 none args vm).1
reload-save to_utf8 from_utf8 args vm e h f =
    reload_same from_utf8 (save to_utf8 none args vm).1
      (unfold save in rw (e, parse-to_text args h f) refl)
