-- ===== src/VmHardware/Card.antt =====
-- src/core/vmhardware.cpp: the edit of the graphics card.
use qemu_gui_manager.Prelude.{
  ℕ, zero, suc, Bool, false, not, ◌&&◌, ◌||◌, Option, none, some, List, [], ◌∷◌, ltb, ◌==◌, bool_eq,
  if◌then◌else◌, get_first, insert_at, remove_at,
}
use qemu_gui_manager.Text.{Text, codes, is_empty, text_eq, one_of, starts_with}
use qemu_gui_manager.OptionValue.{
  OptionValue, implied, set_implied, has, get, flag, set, remove, to_string,
}
use qemu_gui_manager.ArgsFile.{
  ArgsFile, named_line, text_at, value_at, set_text_at, set_value_at, option,
}
use qemu_gui_manager.VmConfig.Sizes.{format_mib}
use qemu_gui_manager.VmHardware.Lines.{last_index, later, insert_after, insert_line}
use qemu_gui_manager.VmHardware.Machine.{
  machine, machine_type, accel_key, accel, accel_property, set_accel_property,
}
use qemu_gui_manager.VmHardware.Graphics.{
  kind_is, accelerated_cards, virtio_cards, standard_cards, counterparts, value_of, key_of,
  is_vga_device, has_default_vga, card_lines, accelerated, virtio, standard, no_card, Graphics,
}

abbrev pub none_text : Text
none_text = codes "none"

-- noVgaCard
unfoldable pub no_vga_card : Option ℕ → ArgsFile → ArgsFile
unfolding last_index set_text_at has_default_vga insert_line
no_vga_card after args = elim (last_index (codes "vga") args) [
  | some i ↦ set_text_at i none_text args
  | none ↦ if has_default_vga args then (insert_line after (codes "vga") none_text args).0 else args
]

abbrev pub one_before : ℕ → Option ℕ
one_before zero = none
one_before (suc n) = some n

-- `setCard` for no card at all; `card` is the line of the card.
unfoldable pub drop_card : Option ℕ → ArgsFile → ArgsFile
unfolding last_index no_vga_card
drop_card (some i) args = no_vga_card (one_before i) (remove_at i args)
drop_card none args = elim (last_index (codes "display") args) [
  | some i ↦ no_vga_card (one_before i) args
  | none ↦ no_vga_card (later (last_index accel_key args) (last_index machine args)) args
]

-- The driver that the switch of `setCard` chooses.
unfoldable pub wanted_driver : Bool → Graphics → Graphics → Text
unfolding one_of key_of value_of
wanted_driver pci_only now g = elim g.kind [
  | accelerated ↦
      if one_of g.device accelerated_cards
      then g.device
      else if kind_is now.kind accelerated
      then now.device
      else if kind_is now.kind virtio && not (is_empty now.device)
      then key_of now.device counterparts
      else if pci_only
      then codes "virtio-gpu-gl-pci"
      else codes "virtio-vga-gl"
  | virtio ↦
      if one_of g.device virtio_cards
      then g.device
      else if kind_is now.kind virtio && not (is_empty now.device)
      then now.device
      else if kind_is now.kind accelerated
      then value_of now.device counterparts
      else if pci_only
      then codes "virtio-gpu-pci"
      else codes "virtio-vga"
  | _ ↦
      if one_of g.device standard_cards
      then g.device
      else if kind_is now.kind standard && not (is_empty now.device)
      then now.device
      else codes "VGA"
]

unfoldable pub driver_of : Bool → Graphics → Graphics → Text
unfolding wanted_driver
driver_of pci_only now g =
    let driver = wanted_driver pci_only now g in
    if is_empty driver
    then if pci_only then codes "virtio-gpu-pci" else codes "virtio-vga"
    else driver

abbrev pub is_virtio : Text → Bool
is_virtio driver = one_of driver accelerated_cards || one_of driver virtio_cards

-- The loop over the properties that any device has.
unfoldable pub keep_keys : List Text → OptionValue → OptionValue → OptionValue
unfolding has get set
keep_keys [] v fresh = fresh
keep_keys (k ∷ ks) v fresh = keep_keys ks v (if has k v then set k (get k [] v) fresh else fresh)

-- The value before the properties of the new card are set.
unfoldable pub based_on : Text → OptionValue → OptionValue
unfolding implied text_eq one_of keep_keys set_implied
based_on driver v =
    let old = implied v in
    let another = not (text_eq old driver) && not (bool_eq (is_virtio old) (is_virtio driver)) in
    set_implied driver (
      if another
      then keep_keys (codes "id" ∷ codes "bus" ∷ codes "addr" ∷ []) v (set_implied driver [])
      else v)

abbrev pub set_on : Bool → Text → OptionValue → OptionValue
set_on on k v = if on then set k (codes "on") v else v

-- The memory window of blob resources.
abbrev pub wanted_mib : Graphics → Graphics → ℕ
wanted_mib now g =
    if ltb 0 g.hostmem_mib
    then g.hostmem_mib
    else if ltb 0 now.hostmem_mib
    then now.hostmem_mib
    else 4096

abbrev pub set_hostmem : ℕ → ℕ → OptionValue → OptionValue
set_hostmem before mib v =
    if not (has (codes "hostmem") v) || not (mib == before)
    then set (codes "hostmem") (format_mib mib) v
    else v

-- The properties of the card.
unfoldable pub card_value : Text → Graphics → Graphics → OptionValue → OptionValue
unfolding based_on one_of remove set flag has format_mib
card_value driver now g v =
    let plain = remove (codes "venus") (remove (codes "drm_native_context") (based_on driver v)) in
    let with_flags =
      set_on g.venus (codes "venus") (set_on g.native_context (codes "drm_native_context") plain) in
    if not (one_of driver accelerated_cards)
    then plain
    else if g.native_context || g.venus
    then set_hostmem now.hostmem_mib (wanted_mib now g) (
        if flag (codes "blob") false with_flags
        then with_flags
        else set (codes "blob") (codes "on") with_flags)
    else with_flags

-- Where the card is written: the file and the line.
unfoldable pub put_card : Option ℕ → OptionValue → ArgsFile → ArgsFile × ℕ
unfolding set_value_at last_index to_string insert_after
put_card (some i) v args = (set_value_at i v args, i)
put_card none v args = elim (last_index (codes "display") args) [
  | some i ↦ (insert_at i (named_line option (codes "device") (to_string v)) args, i)
  | none ↦
      insert_after (codes "vga" ∷ accel_key ∷ machine ∷ []) (codes "device") (to_string v) false
        args
]

-- The -vga that goes with the card.
unfoldable pub settle_vga : Text → ℕ → ArgsFile → ArgsFile
unfolding is_vga_device no_vga_card last_index text_at text_eq set_text_at
settle_vga driver i args =
    if not (is_vga_device driver)
    then no_vga_card (some i) args
    else elim (last_index (codes "vga") args) [
      | none ↦ args
      | some j ↦ if text_eq (text_at args j) none_text then args else set_text_at j none_text args
    ]

abbrev pub guest_pat : Text
guest_pat = codes "honor-guest-pat"

unfoldable pub settle_accel : Bool → ArgsFile → ArgsFile
unfolding accel starts_with accel_property set_accel_property
settle_accel native args =
    if native && starts_with (accel args) (codes "kvm") && is_empty (accel_property guest_pat args)
    then set_accel_property guest_pat (codes "on") args
    else args

-- setCard
unfoldable pub set_card : Graphics → Graphics → ArgsFile → ArgsFile
unfolding card_lines machine_type starts_with drop_card driver_of value_at card_value put_card
    settle_vga settle_accel
set_card now g args =
    let line = get_first (card_lines args) in
    let driver = driver_of (starts_with (machine_type args) (codes "virt")) now g in
    let before : OptionValue = elim line [ none ↦ [] | some i ↦ value_at args i ] in
    let (file, i) = put_card line (card_value driver now g before) args in
    if kind_is g.kind no_card
    then drop_card line args
    else settle_accel g.native_context (settle_vga driver i file)
