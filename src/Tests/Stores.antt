-- ===== src/Tests/Stores.antt =====
-- The store of the VMs: concrete folders.
use qemu_gui_manager.Prelude.{
  ℕ, ◌≡◌, refl, inr, true, false, not, ◌&&◌, ◌||◌, none, some, List, [], ◌∷◌, arith, ◌==◌,
  if◌then◌else◌, is_none,
}
use qemu_gui_manager.Text.Laws.{text_eq_sym}
use qemu_gui_manager.Text.{Text, codes, text_eq, one_of, has_char, trimmed}
use qemu_gui_manager.VmStore.{vm_name, Vm}
use qemu_gui_manager.VmStore.Folders.{
  add_vm, reload_vms, free_folder, create, create_disk_image, Disk, added, removed, watches, Store,
  failed,
}
use qemu_gui_manager.VmStore.Followed.{has_vm, is_distinct, reload-follows}
use qemu_gui_manager.VmStore.Created.{HaveFolders, create-adds}

-- Bytes that are the code units: enough for ASCII.
abbrev ascii : List ℕ → List ℕ
ascii bytes = bytes

abbrev vm : Text → Vm
vm id = record { id = id; args = []; changes = 0; file = none }

-- The folder `two` is new, that of `gone` is not there, and nor is that of `busy`, which runs.
abbrev disk : Disk
disk = record {
  folders = codes "one" ∷ codes "two" ∷ codes "empty" ∷ [];
  names = codes "one" ∷ codes "two" ∷ codes "empty" ∷ codes "my-vm" ∷ [];
  file = λ id. if text_eq id (codes "empty") then none else some (codes "-m 4G");
  active = λ id. text_eq id (codes "busy");
}

abbrev store : Store
store = record {
  dir = codes "/vms";
  vms = vm (codes "gone") ∷ vm (codes "one") ∷ vm (codes "busy") ∷ [];
  log = [];
}

tells :
    (reload_vms ascii disk store).log
    ≡ added (codes "two") ∷ watches (codes "two") ∷ removed (codes "gone") ∷ []
unfolding reload_vms text_eq
tells = refl

reload-follows_example :
    (is_distinct (reload_vms ascii disk store).vms ≡ true)
    × ((id : Text)
        → has_vm id (reload_vms ascii disk store).vms
          ≡ (one_of id disk.folders && not (is_none (disk.file id)))
            || (has_vm id store.vms && disk.active id))
unfolding text_eq
reload-follows_example = reload-follows ascii disk store refl

-- In place of the regular expression, for a text of letters and blanks.
abbrev dash_blanks : Text → Text
dash_blanks [] = []
dash_blanks (c ∷ cs) = (if c == b' ' then b'-' else c) ∷ dash_blanks cs

numbers_folder : free_folder dash_blanks disk (codes " my vm") ≡ some (codes "my-vm-2")
unfolding free_folder
numbers_folder = refl

abbrev one_vm : Store
one_vm = record store { vms = vm (codes "one") ∷ [] }

one_vm-HaveFolders : HaveFolders disk one_vm
unfolding one_of text_eq
one_vm-HaveFolders id h = ground (arith, text_eq_sym (codes "one") id)

create-adds_example :
    (v : Vm) × (create ascii ascii dash_blanks disk true none (codes " my vm") one_vm
      ≡ some (inr v.id, add_vm v one_vm))
    × (one_of v.id disk.names ≡ false)
    × (vm_name v ≡ trimmed (codes " my vm"))
    × (is_distinct (add_vm v one_vm).vms ≡ true)
unfolding trimmed has_char
create-adds_example =
    create-adds ascii ascii dash_blanks disk (codes " my vm") one_vm (λ e. cc) refl refl
      one_vm-HaveFolders

prints_error :
    create_disk_image
      (codes "qemu-img")
      (λ args. failed (codes " no space\n") (codes "x"))
      (codes "a")
      10
    ≡ codes "no space"
unfolding create_disk_image
prints_error = refl
