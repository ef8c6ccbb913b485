-- ===== src/VmHardware/Graphics.antt =====
-- src/core/vmhardware.cpp: the graphics card and its window, as the pages show them.
use qemu_gui_manager.Prelude.{
  ℕ, suc, ◌/◌, ◌^◌, Bool, true, false, not, ◌&&◌, ◌||◌, none, some, List, [], ◌∷◌, ◌++◌,
  if◌then◌else◌, length,
}
use qemu_gui_manager.Text.{Text, codes, is_empty, text_eq, one_of, starts_with, trimmed}
use qemu_gui_manager.Numbers.{number, ℤ, pos, negsuc, Conversions}
use qemu_gui_manager.OptionValue.{OptionValue, implied, has, get, flag}
use qemu_gui_manager.ArgsFile.{
  ArgsFile, indexes_from, indexes_of, line_index, text_at, value_at, option,
}
use qemu_gui_manager.VmConfig.Sizes.{parse_size}
use qemu_gui_manager.VmHardware.Lines.{last_index}
use qemu_gui_manager.VmHardware.Machine.{machine_type, has_line}

pub data GraphicsKind : Type 0 where
  accelerated virtio standard no_card custom : GraphicsKind

pub record Graphics : Type 0 where
  pub kind : GraphicsKind
  pub device : Text
  pub native_context : Bool
  pub venus : Bool
  pub hostmem_mib : ℕ
  pub display : Text
  pub reason : Text

abbrev pub kind_is : GraphicsKind → GraphicsKind → Bool
kind_is accelerated accelerated = true
kind_is virtio virtio = true
kind_is standard standard = true
kind_is no_card no_card = true
kind_is custom custom = true
kind_is _ _ = false

-- kAccelerated, kVirtio, kStandard, kOtherCards, kVgaDevices
abbrev pub accelerated_cards : List Text
accelerated_cards =
    codes "virtio-vga-gl"
    ∷ codes "virtio-gpu-gl-pci"
    ∷ codes "virtio-gpu-gl"
    ∷ codes "virtio-gpu-gl-device"
    ∷ []

abbrev pub virtio_cards : List Text
virtio_cards =
    codes "virtio-vga"
    ∷ codes "virtio-gpu-pci"
    ∷ codes "virtio-gpu"
    ∷ codes "virtio-gpu-device"
    ∷ []

abbrev pub standard_cards : List Text
standard_cards = codes "VGA" ∷ codes "bochs-display" ∷ []

abbrev pub other_cards : List Text
other_cards =
    codes "qxl"
    ∷ codes "qxl-vga"
    ∷ codes "cirrus-vga"
    ∷ codes "ramfb"
    ∷ codes "vmware-svga"
    ∷ codes "secondary-vga"
    ∷ codes "ati-vga"
    ∷ codes "vhost-user-gpu"
    ∷ codes "vhost-user-gpu-pci"
    ∷ codes "vhost-user-vga"
    ∷ codes "virtio-vga-rutabaga"
    ∷ codes "virtio-gpu-rutabaga"
    ∷ codes "virtio-gpu-rutabaga-pci"
    ∷ codes "virtio-gpu-rutabaga-device"
    ∷ []

abbrev pub vga_devices : List Text
vga_devices =
    codes "VGA"
    ∷ codes "virtio-vga"
    ∷ codes "virtio-vga-gl"
    ∷ codes "qxl-vga"
    ∷ codes "cirrus-vga"
    ∷ codes "ati-vga"
    ∷ codes "vhost-user-vga"
    ∷ codes "virtio-vga-rutabaga"
    ∷ codes "vmware-svga"
    ∷ []

-- k3dTo2d
abbrev pub counterparts : List (Text × Text)
counterparts =
    (codes "virtio-vga-gl", codes "virtio-vga")
    ∷ (codes "virtio-gpu-gl-pci", codes "virtio-gpu-pci")
    ∷ (codes "virtio-gpu-gl", codes "virtio-gpu")
    ∷ (codes "virtio-gpu-gl-device", codes "virtio-gpu-device")
    ∷ []

-- k3dTo2d.value(device), and k3dTo2d.key(device): empty where there is none
unfoldable pub value_of : Text → List (Text × Text) → Text
unfolding text_eq
value_of t [] = []
value_of t ((k, v) ∷ more) = if text_eq k t then v else value_of t more

unfoldable pub key_of : Text → List (Text × Text) → Text
unfolding text_eq
key_of t [] = []
key_of t ((k, v) ∷ more) = if text_eq v t then k else key_of t more

unfoldable pub has_key : Text → List (Text × Text) → Bool
unfolding text_eq
has_key t [] = false
has_key t ((k, v) ∷ more) = text_eq k t || has_key t more

unfoldable pub is_vga_device : Text → Bool
unfolding one_of
is_vga_device device = one_of device vga_devices

unfoldable pub gl_counterpart : Text → Text
unfolding has_key value_of key_of
gl_counterpart device =
    if has_key device counterparts then value_of device counterparts else key_of device counterparts

unfoldable pub has_default_vga : ArgsFile → Bool
unfolding machine_type starts_with line_index
has_default_vga args =
    not (starts_with (machine_type args) (codes "virt")) && not (has_line (codes "nodefaults") args)

abbrev pub is_card : Text → Bool
is_card driver =
    one_of driver accelerated_cards
    || one_of driver virtio_cards
    || one_of driver standard_cards
    || one_of driver other_cards

-- The loop of `cardLines`.
unfoldable pub cards_of : ArgsFile → List ℕ → List ℕ
unfolding value_at implied one_of
cards_of args [] = []
cards_of args (i ∷ is) =
    let rest = cards_of args is in if is_card (implied (value_at args i)) then i ∷ rest else rest

unfoldable pub card_lines : ArgsFile → List ℕ
unfolding cards_of indexes_from
card_lines args = cards_of args (indexes_of (codes "device") option args)

-- `parseSize(...) >> 20`, not below 0
abbrev pub mib_or_zero : ℤ → ℕ
mib_or_zero (pos n) = n / 2 ^ 20
mib_or_zero (negsuc n) = 0

abbrev pub hostmem_of : Conversions → OptionValue → ℕ
hostmem_of q v =
    if has (codes "hostmem") v then mib_or_zero (parse_size q (get (codes "hostmem") [] v) 1) else 0

-- What `graphics` makes of one card; `vga` is the value of -vga and `shown` that of -display.
unfoldable pub graphics_of_card : Conversions → Text → Text → OptionValue → Graphics
unfolding implied text_eq is_vga_device one_of flag has get parse_size
graphics_of_card q vga shown v =
    let device = implied v in
    let both =
      not (is_empty vga) && not (text_eq vga (codes "none")) && not (is_vga_device device) in
    if both
    then record {
      kind = custom;
      device = device;
      native_context = false;
      venus = false;
      hostmem_mib = 0;
      display = shown;
      reason = codes "-vga " ++ (vga ++ (codes ", " ++ device));
    }
    else record {
      kind =
          if one_of device accelerated_cards
          then accelerated
          else if one_of device virtio_cards
          then virtio
          else if one_of device standard_cards
          then standard
          else custom;
      device = device;
      native_context = one_of device accelerated_cards && flag (codes "drm_native_context") false v;
      venus = one_of device accelerated_cards && flag (codes "venus") false v;
      hostmem_mib = hostmem_of q v;
      display = shown;
      reason =
          if one_of device accelerated_cards
            || one_of device virtio_cards
            || one_of device standard_cards
          then []
          else device;
    }

abbrev pub no_device : GraphicsKind → Text → Text → Graphics
no_device k shown reason = record {
  kind = k;
  device = [];
  native_context = false;
  venus = false;
  hostmem_mib = 0;
  display = shown;
  reason = reason;
}

-- Without a -device that is a card.
unfoldable pub graphics_of_vga : ArgsFile → Text → Text → Graphics
unfolding text_eq has_default_vga
graphics_of_vga args vga shown =
    if text_eq vga (codes "virtio")
    then no_device virtio shown []
    else if text_eq vga (codes "none") || (is_empty vga && not (has_default_vga args))
    then no_device no_card shown []
    else if is_empty vga || text_eq vga (codes "std")
    then no_device standard shown []
    else no_device custom shown (codes "-vga " ++ vga)

-- The value of the last -vga, trimmed, and the implied value of the last -display.
unfoldable pub vga_value : ArgsFile → Text
unfolding last_index text_at trimmed
vga_value args = elim (last_index (codes "vga") args) [
  | none ↦ []
  | some i ↦ trimmed (text_at args i)
]

unfoldable pub shown_display : ArgsFile → Text
unfolding last_index value_at implied
shown_display args = elim (last_index (codes "display") args) [
  | none ↦ []
  | some i ↦ implied (value_at args i)
]

-- The text for several cards is in English here, as it is where nothing translates it.
unfoldable pub graphics : Conversions → ArgsFile → Graphics
unfolding card_lines vga_value shown_display line_index graphics_of_card graphics_of_vga value_at
    number
graphics q args =
    let vga = vga_value args in
    let shown = shown_display args in
    if has_line (codes "nographic") args
    then no_device custom shown (codes "-nographic")
    else elim (card_lines args) [
      | [] ↦ graphics_of_vga args vga shown
      | i ∷ [] ↦ graphics_of_card q vga shown (value_at args i)
      | i ∷ j ∷ more ↦
          no_device custom shown (number (suc (suc (length more))) ++ codes " graphics cards")
    ]
