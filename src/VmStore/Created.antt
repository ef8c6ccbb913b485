-- ===== src/VmStore/Created.antt =====
-- VmStore::create: the folder that it finds, and the VM that it adds.
use qemu_gui_manager.Prelude.{
  ℕ, zero, suc, ◌≡◌, refl, sym, ap, ◌∙◌, ◌≢◌, inl, inr, true, false, none, some, List, [], ◌∷◌,
  ◌++◌, arith, Bool-cases, length, drop,
}
use qemu_gui_manager.Text.{Text, codes, one_of, has_char, trimmed}
use qemu_gui_manager.OptionValue.{equals}
use qemu_gui_manager.ArgsFile.{line_index, option}
use qemu_gui_manager.VmConfig.Name.{name_key, name, set_name}
use qemu_gui_manager.VmConfig.Naming.{name-set_name}
use qemu_gui_manager.VmStore.{vm_name, save, Vm}
use qemu_gui_manager.VmStore.Folders.{
  new_vm, add_vm, folder_base, folder_candidate, free_folder, create_in, create, Disk, Store,
}
use qemu_gui_manager.VmStore.Followed.{has_vm, is_distinct, new_vm-id, is_distinct-append}
use qemu_gui_manager.Numbers.{number}
use qemu_gui_manager.Numbers.Decimal.{number-injective}
use qemu_gui_manager.Fresh.{first_free_total, first_free-is_free}

append-cancel : (a b c : Text) → a ++ b ≡ a ++ c → b ≡ c
append-cancel [] b c e = e
append-cancel (x ∷ a) b c e = append-cancel a b c (ap (drop 1) e)

append-ne : (a b : Text) → b ≢ [] → a ≢ a ++ b
append-ne [] b n e = n (sym e)
append-ne (x ∷ a) b n e = append-ne a b n (ap (drop 1) e)

folder_candidate-injective :
    (base : Text) (m n : ℕ) → folder_candidate base m ≡ folder_candidate base n → m ≡ n
unfolding folder_candidate
folder_candidate-injective base zero zero e = refl
folder_candidate-injective base zero (suc n) e =
    absurd (append-ne base (codes "-" ++ number (suc (suc n))) (λ q. cc) e)
folder_candidate-injective base (suc m) zero e =
    absurd (append-ne base (codes "-" ++ number (suc (suc m))) (λ q. cc) (sym e))
folder_candidate-injective base (suc m) (suc n) e =
    let q =
      append-cancel base (codes "-" ++ number (suc (suc m))) (codes "-" ++ number (suc (suc n)))
        e in
    omega (arith, number-injective (suc (suc m)) (suc (suc n)) (ap (drop 1) q))

free_folder-total :
    (safe : Text → Text) (d : Disk) (name : Text)
    → (id : Text) × (free_folder safe d name ≡ some id) × (one_of id d.names ≡ false)
unfolding free_folder
free_folder-total safe d name =
    let base = folder_base safe name in
    let fuel = suc (length d.names) in
    let (n, e) =
      first_free_total (folder_candidate base) (folder_candidate-injective base) fuel d.names 0
        (omega arith) in
    (folder_candidate base n, e, first_free-is_free (folder_candidate base) fuel d.names 0 e)

-- The VMs of the store have folders.
abbrev pub HaveFolders : Disk → Store → Type 0
HaveFolders d s = (id : Text) → has_vm id s.vms ≡ true → one_of id d.names ≡ true

vm_name-name : (v : Vm) (t : Text) → t ≢ [] → name v.args ≡ t → vm_name v ≡ t
unfolding vm_name
vm_name-name v [] n e = absurd (n refl)
vm_name-name v (c ∷ cs) n e = rw e refl

free-has_vm :
    (d : Disk) (s : Store) (id : Text)
    → HaveFolders d s
    → one_of id d.names ≡ false
    → has_vm id s.vms ≡ false
free-has_vm d s id folders free = elim (Bool-cases (has_vm id s.vms)) [
  | inr q ↦ q
  | inl q ↦ q ∙ sym (folders id q) ∙ free
]

no_line : (i : ℕ) → line_index name_key option [] ≢ some i
unfolding line_index
no_line i q = cc

-- A VM can always be created where folders and files can be written: with a name that is not empty
-- and has no `=`, the store gets one VM more, in a folder with a name that nothing had, and the VM
-- has the name, without the blanks around it. No two VMs of the store have one id, if that was so
-- and each VM of the store had a folder.
pub create-adds :
    (to_utf8 : Text → List ℕ) (from_utf8 : List ℕ → Text) (safe : Text → Text) (d : Disk)
    (new_name : Text) (s : Store)
    → trimmed new_name ≢ []
    → has_char equals (trimmed new_name) ≡ false
    → is_distinct s.vms ≡ true
    → HaveFolders d s
    → (v : Vm) × (create to_utf8 from_utf8 safe d true none new_name s
        ≡ some (inr v.id, add_vm v s))
      × (one_of v.id d.names ≡ false)
      × (vm_name v ≡ trimmed new_name)
      × (is_distinct (add_vm v s).vms ≡ true)
unfolding create create_in save
create-adds to_utf8 from_utf8 safe d new_name s filled plain h folders =
    let (id, e, free) = free_folder-total safe d new_name in
    let v = (save to_utf8 none (set_name (trimmed new_name) []) (new_vm from_utf8 d id)).1 in
    let v_id = new_vm-id from_utf8 d id in
    let is_new = free-has_vm d s v.id folders (rw v_id free) in
    (
      v,
      rw (e, create) refl,
      rw v_id free,
      vm_name-name v (trimmed new_name) filled
          (name-set_name (trimmed new_name) [] filled plain (λ i q. elim (no_line i q) [ ])),
      is_distinct-append v s.vms h is_new,
    )
