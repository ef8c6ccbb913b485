-- ===== src/VmStore.antt =====
-- src/core/vmstore.cpp: the Vm, which keeps the lines of its vm.args.
pub mod Reload
pub mod Folders
pub mod Followed
pub mod Created
use qemu_gui_manager.Prelude.{ℕ, suc, Option, none, some, List, [], if◌then◌else◌}
use qemu_gui_manager.Text.{Text, is_empty, text_eq}
use qemu_gui_manager.ArgsFile.{ArgsFile, parse, to_text}
use qemu_gui_manager.VmConfig.Name.{name}

-- A Vm and the bytes of its vm.args, `none` for one that cannot be opened; `changes` counts the
-- signals changed().
pub record Vm : Type 0 where
  pub id : Text
  pub args : ArgsFile
  pub changes : ℕ
  pub file : Option (List ℕ)

unfoldable pub vm_name : Vm → Text
unfolding name
vm_name vm = if is_empty (name vm.args) then vm.id else name vm.args

-- What QFile and QString do: QSaveFile replaces the whole file, or fails with a text and leaves it.
unfoldable pub save : (Text → List ℕ) → Option Text → ArgsFile → Vm → Option Text × Vm
unfolding to_text
save to_utf8 (some error) args vm = (some error, vm)
save to_utf8 none args vm = (
  none,
  record vm { args = args; changes = suc vm.changes; file = some (to_utf8 (to_text args)) },
)

abbrev pub read_file : (List ℕ → Text) → Option (List ℕ) → ArgsFile
read_file from_utf8 none = []
read_file from_utf8 (some bytes) = parse (from_utf8 bytes)

unfoldable pub reload : (List ℕ → Text) → Vm → Vm
unfolding to_text parse text_eq
reload from_utf8 vm =
    let args = read_file from_utf8 vm.file in
    if text_eq (to_text args) (to_text vm.args)
    then vm
    else record vm { args = args; changes = suc vm.changes }
