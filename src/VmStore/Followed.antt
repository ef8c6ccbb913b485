-- ===== src/VmStore/Followed.antt =====
-- VmStore::reload: which VMs the store has.
use qemu_gui_manager.Prelude.{
  ℕ, ◌≡◌, refl, sym, ap, ◌∙◌, Bool, true, false, not, ◌&&◌, ◌||◌, List, [], ◌∷◌, ◌++◌, arith,
  if_cases, or_false, is_none,
}
use qemu_gui_manager.Text.Laws.{text_eq_iff, text_eq_sym}
use qemu_gui_manager.Text.{Text, text_eq, one_of}
use qemu_gui_manager.VmStore.{reload, Vm}
use qemu_gui_manager.VmStore.Folders.{
  tell, find_vm, new_vm, present, drop_missing, add_vm, add_present, reload_vms, Disk, removed,
  Store,
}

abbrev pub has_vm : Text → List Vm → Bool
has_vm id [] = false
has_vm id (v ∷ vs) = text_eq v.id id || has_vm id vs

-- No two VMs have one id.
abbrev pub is_distinct : List Vm → Bool
is_distinct [] = true
is_distinct (v ∷ vs) = not (has_vm v.id vs) && is_distinct vs

find_vm-has_vm : (id : Text) (vs : List Vm) → not (is_none (find_vm id vs)) ≡ has_vm id vs
unfolding find_vm
find_vm-has_vm id [] = refl
find_vm-has_vm id (v ∷ vs) = ground (arith, find_vm-has_vm id vs)

pub new_vm-id : (f : List ℕ → Text) (d : Disk) (id : Text) → (new_vm f d id).id ≡ id
unfolding reload
new_vm-id f d id = ground arith

same_by : (p : Text → Bool) (a b : Text) → text_eq a b ≡ true → p a ≡ p b
same_by p a b h = ap p ((text_eq_iff a b).0 h)

one_of-present :
    (d : Disk) (id : Text) (ids : List Text)
    → one_of id (present d ids) ≡ one_of id ids && not (is_none (d.file id))
unfolding one_of
one_of-present d id [] = refl
one_of-present d id (i ∷ ids) =
    ground (arith, one_of-present d id ids, same_by (λ (t : Text). not (is_none (d.file t))) id i)

-- What stays of the VMs when the folders `here` have a vm.args.
abbrev stays : Disk → List Text → Text → Bool
stays d here id = one_of id here || d.active id

has_vm-drop_missing :
    (d : Disk) (here : List Text) (id : Text) (vs : List Vm) (s : Store)
    → has_vm id (drop_missing d here vs s).vms ≡ has_vm id vs && stays d here id
unfolding drop_missing
has_vm-drop_missing d here id [] s = refl
has_vm-drop_missing d here id (v ∷ vs) s = ground (
  arith,
  has_vm-drop_missing d here id vs s,
  has_vm-drop_missing d here id vs (tell (removed v.id) s),
  same_by (stays d here) v.id id,
)

is_distinct-drop_missing :
    (d : Disk) (here : List Text) (vs : List Vm) (s : Store)
    → is_distinct vs ≡ true
    → is_distinct (drop_missing d here vs s).vms ≡ true
unfolding drop_missing
is_distinct-drop_missing d here [] s h = refl
is_distinct-drop_missing d here (v ∷ vs) s h = ground (
  arith,
  has_vm-drop_missing d here v.id vs s,
  is_distinct-drop_missing d here vs s,
  is_distinct-drop_missing d here vs (tell (removed v.id) s),
)

has_vm-append :
    (id : Text) (v : Vm) (vs : List Vm)
    → has_vm id (vs ++ (v ∷ [])) ≡ has_vm id vs || text_eq v.id id
has_vm-append id v [] = or_false (text_eq v.id id)
has_vm-append id v (w ∷ ws) = ground (arith, has_vm-append id v ws)

pub is_distinct-append :
    (v : Vm) (vs : List Vm)
    → is_distinct vs ≡ true
    → has_vm v.id vs ≡ false
    → is_distinct (vs ++ (v ∷ [])) ≡ true
is_distinct-append v [] h n = refl
is_distinct-append v (w ∷ ws) h n =
    ground (arith, is_distinct-append v ws, has_vm-append w.id v ws, text_eq_sym v.id w.id)

module _ (f : List ℕ → Text) (d : Disk) where
  has_vm-add_present :
      (id : Text) (ids : List Text) (s : Store)
      → has_vm id (add_present f d ids s).vms ≡ has_vm id s.vms || one_of id ids
  unfolding add_present one_of
  has_vm-add_present id [] s = sym (or_false (has_vm id s.vms))
  has_vm-add_present id (i ∷ ids) s =
      let v = new_vm f d i in
      let all = has_vm id s.vms || one_of id (i ∷ ids) in
      if_cases (λ (x : Store). has_vm id (add_present f d ids x).vms ≡ all)
        (not (is_none (find_vm i s.vms)))
        (λ e.
          has_vm-add_present id ids s
          ∙ ground (arith, find_vm-has_vm i s.vms, same_by (λ (t : Text). has_vm t s.vms) id i))
        (λ e.
          has_vm-add_present id ids (add_vm v s)
          ∙ rw (has_vm-append id v s.vms, new_vm-id f d i, text_eq_sym i id) (ground arith))

  is_distinct-add_present :
      (ids : List Text) (s : Store)
      → is_distinct s.vms ≡ true
      → is_distinct (add_present f d ids s).vms ≡ true
  unfolding add_present
  is_distinct-add_present [] s h = h
  is_distinct-add_present (i ∷ ids) s h =
      let v = new_vm f d i in
      if_cases (λ (x : Store). is_distinct (add_present f d ids x).vms ≡ true)
        (not (is_none (find_vm i s.vms))) (λ e. is_distinct-add_present ids s h)
        (λ e.
          is_distinct-add_present ids (add_vm v s) (
            is_distinct-append v s.vms h (rw (new_vm-id f d i) (sym (find_vm-has_vm i s.vms) ∙ e))))

-- After the store has looked at its folders, it has the VMs of the folders that have a vm.args, and
-- beside them those that it had and that are active, and no two VMs with one id if that was so.
pub reload-follows :
    (from_utf8 : List ℕ → Text) (d : Disk) (s : Store)
    → is_distinct s.vms ≡ true
    → (is_distinct (reload_vms from_utf8 d s).vms ≡ true)
      × ((id : Text)
          → has_vm id (reload_vms from_utf8 d s).vms
            ≡ (one_of id d.folders && not (is_none (d.file id)))
              || (has_vm id s.vms && d.active id))
unfolding reload_vms
reload-follows from_utf8 d s h =
    let here = present d d.folders in
    let left = drop_missing d here s.vms s in
    (
      is_distinct-add_present from_utf8 d here left (is_distinct-drop_missing d here s.vms s h),
      λ id.
          rw (has_vm-add_present from_utf8 d id here left, has_vm-drop_missing d here id s.vms s)
            (ground (arith, one_of-present d id d.folders)),
    )
