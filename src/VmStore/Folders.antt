-- ===== src/VmStore/Folders.antt =====
-- src/core/vmstore.cpp: the VmStore, which follows the folders of the VMs.
use qemu_gui_manager.Prelude.{
  ℕ, zero, suc, ◌⊎◌, inl, inr, Bool, not, ◌&&◌, ◌||◌, Option, none, some, List, [], ◌∷◌, ◌++◌, ◌==◌,
  if◌then◌else◌, length, is_none,
}
use qemu_gui_manager.Text.{Text, codes, is_empty, text_eq, one_of, trimmed}
use qemu_gui_manager.Numbers.{number}
use qemu_gui_manager.Fresh.{first_free}
use qemu_gui_manager.VmConfig.Name.{name, set_name}
use qemu_gui_manager.VmStore.{vm_name, save, reload, Vm}

-- What the store reads at one moment: the folders of its folder in the order of entryList, every
-- name that exists there, the bytes of the vm.args of a folder, and which VMs are active.
pub record Disk : Type 0 where
  pub folders : List Text
  pub names : List Text
  pub file : Text → Option (List ℕ)
  pub active : Text → Bool

-- What the store tells, and what it asks of the file watcher.
pub data Told : Type 0 where
  added removed watches unwatches : Text → Told

pub record Store : Type 0 where
  pub dir : Text
  pub vms : List Vm
  pub log : List Told

abbrev pub tell : Told → Store → Store
tell t s = record s { log = t ∷ s.log }

unfoldable pub find_vm : Text → List Vm → Option Vm
unfolding text_eq
find_vm id [] = none
find_vm id (v ∷ vs) = if text_eq v.id id then some v else find_vm id vs

-- new Vm(dir), which reads its file
abbrev pub new_vm : (List ℕ → Text) → Disk → Text → Vm
new_vm from_utf8 d id =
    reload from_utf8 (record { id = id; args = []; changes = 0; file = d.file id })

abbrev pub present : Disk → List Text → List Text
present d [] = []
present d (id ∷ ids) =
    let rest = present d ids in if not (is_none (d.file id)) then id ∷ rest else rest

-- The first loop of reload: the VMs that stay, and what is told of the others.
unfoldable pub drop_missing : Disk → List Text → List Vm → Store → Store
unfolding one_of
drop_missing d here [] s = record s { vms = [] }
drop_missing d here (v ∷ vs) s =
    if not (one_of v.id here) && not (d.active v.id)
    then drop_missing d here vs (tell (removed v.id) s)
    else (let rest = drop_missing d here vs s in record rest { vms = v ∷ rest.vms })

abbrev pub add_vm : Vm → Store → Store
add_vm v s = tell (added v.id) (tell (watches v.id) (record s { vms = s.vms ++ (v ∷ []) }))

-- The second loop.
unfoldable pub add_present : (List ℕ → Text) → Disk → List Text → Store → Store
unfolding find_vm reload
add_present from_utf8 d [] s = s
add_present from_utf8 d (id ∷ ids) s =
    add_present from_utf8 d ids
      (if not (is_none (find_vm id s.vms)) then s else add_vm (new_vm from_utf8 d id) s)

unfoldable pub reload_vms : (List ℕ → Text) → Disk → Store → Store
unfolding drop_missing add_present
reload_vms from_utf8 d s =
    let here = present d d.folders in add_present from_utf8 d here (drop_missing d here s.vms s)

-- fileChanged, for the file of a VM
unfoldable pub reload_at : (List ℕ → Text) → Disk → Text → List Vm → List Vm
unfolding text_eq reload
reload_at from_utf8 d id [] = []
reload_at from_utf8 d id (v ∷ vs) =
    (if text_eq v.id id then reload from_utf8 (record v { file = d.file id }) else v)
    ∷ reload_at from_utf8 d id vs

unfoldable pub file_changed : (List ℕ → Text) → Disk → Text → Store → Store
unfolding reload_at find_vm
file_changed from_utf8 d id s =
    let next = record s { vms = reload_at from_utf8 d id s.vms } in
    if not (is_none (find_vm id s.vms)) && not (is_none (d.file id))
    then tell (watches id) next
    else next

-- The folder's name for a VM: `safe` replaces the runs of unsafe characters.
abbrev pub is_dash : ℕ → Bool
is_dash c = c == b'-'

unfoldable pub chop_front : Text → Text
chop_front [] = []
chop_front (c ∷ cs) = let rest = chop_front cs in if is_dash c || c == b'.' then rest else c ∷ cs

unfoldable pub chop_end : Text → Text
chop_end [] = []
chop_end (c ∷ cs) = let rest = chop_end cs in if is_dash c && is_empty rest then [] else c ∷ rest

unfoldable pub folder_base : (Text → Text) → Text → Text
unfolding trimmed chop_front chop_end
folder_base safe name =
    let base = chop_end (chop_front (safe (trimmed name))) in
    if is_empty base then codes "vm" else base

unfoldable pub folder_candidate : Text → ℕ → Text
unfolding number
folder_candidate base zero = base
folder_candidate base (suc n) = base ++ (codes "-" ++ number (suc (suc n)))

unfoldable pub free_folder : (Text → Text) → Disk → Text → Option Text
unfolding folder_base folder_candidate first_free
free_folder safe d name =
    first_free (suc (length d.names)) (folder_candidate (folder_base safe name)) d.names 0

abbrev pub file_path : Store → Text → Text
file_path s id = s.dir ++ (codes "/" ++ id)

-- create, with what mkpath and QSaveFile say; an error, or the id of the new VM
abbrev pub Created : Type 0
Created = Text ⊎ Text

abbrev create_saved : (Option Text × Vm) → Store → Created × Store
create_saved (some error, v) s = (inl error, s)
create_saved (none, v) s = (inr v.id, add_vm v s)

unfoldable pub create_in :
    (Text → List ℕ)
    → (List ℕ → Text)
    → Disk
    → Bool
    → Option Text
    → Text
    → Text
    → Store
    → Created × Store
unfolding save set_name reload trimmed
create_in to_utf8 from_utf8 d made save_error name id s =
    if made
    then create_saved (save to_utf8 save_error (set_name (trimmed name) []) (new_vm from_utf8 d id))
        s
    else (inl (codes "Cannot create " ++ file_path s id), s)

unfoldable pub create :
    (Text → List ℕ)
    → (List ℕ → Text)
    → (Text → Text)
    → Disk
    → Bool
    → Option Text
    → Text
    → Store
    → Option (Created × Store)
unfolding free_folder create_in
create to_utf8 from_utf8 safe d made save_error name s = elim (free_folder safe d name) [
  | none ↦ none
  | some id ↦ some (create_in to_utf8 from_utf8 d made save_error name id s)
]

-- m_vms.removeOne(vm)
unfoldable pub remove_one : Text → List Vm → List Vm
unfolding text_eq
remove_one id [] = []
remove_one id (v ∷ vs) = let rest = remove_one id vs in if text_eq v.id id then vs else v ∷ rest

-- remove, with what moveToTrash says; the error is empty on success
unfoldable pub remove_vm : Disk → Bool → Vm → Store → Text × Store
unfolding vm_name remove_one
remove_vm d trashed v s =
    if d.active v.id
    then (vm_name v ++ codes " is running", s)
    else if not trashed
    then (codes "Cannot move " ++ (file_path s v.id ++ codes " to the trash"), s)
    else (
      [],
      tell (removed v.id) (record (tell (unwatches v.id) s) { vms = remove_one v.id s.vms }),
    )

-- createDiskImage: the arguments of qemu-img, and the error, empty on success. A run that failed
-- has what it printed, and the error of the process.
pub data ImageRun : Type 0 where
  made : ImageRun
  failed : Text → Text → ImageRun

abbrev pub image_arguments : Text → ℕ → List Text
unfolding number
image_arguments path bytes =
    codes "create" ∷ codes "-q" ∷ codes "-f" ∷ codes "qcow2" ∷ path ∷ number bytes ∷ []

abbrev image_error : ImageRun → Text
image_error made = []
image_error (failed output error) = if is_empty (trimmed output) then error else trimmed output

unfoldable pub create_disk_image : Text → (List Text → ImageRun) → Text → ℕ → Text
unfolding number trimmed
create_disk_image qemu_img run path bytes =
    if is_empty qemu_img
    then codes "qemu-img not found"
    else image_error (run (image_arguments path bytes))
