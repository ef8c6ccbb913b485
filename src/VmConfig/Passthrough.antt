-- ===== src/VmConfig/Passthrough.antt =====
-- src/core/vmconfig.cpp: host devices passed through, PCI by address and USB by ID.
use qemu_gui_manager.Prelude.{
  ℕ, ◌%◌, ◌^◌, Bool, true, false, not, ◌&&◌, ◌||◌, Option, none, some, List, [], ◌∷◌, ◌++◌, ◌==◌,
  if◌then◌else◌, drop, remove_at,
}
use qemu_gui_manager.Text.{Text, codes, text_eq, one_of, starts_with, count_char}
use qemu_gui_manager.Numbers.{hex4, Conversions}
use qemu_gui_manager.OptionValue.{OptionValue, implied, has, get}
use qemu_gui_manager.ArgsFile.{
  ArgsFile, indexes_from, indexes_of, line_index, value_at, index_of_device, add, option,
}
use qemu_gui_manager.VmConfig.Memory.{machine_key}

-- fullPciAddress
unfoldable pub full_pci_address : Text → Text
unfolding count_char
full_pci_address address =
    if count_char b':' address == 1 then codes "0000:" ++ address else address

host_key : Text
host_key = codes "host"

is_vfio : OptionValue → Bool
unfolding implied has text_eq host_key
is_vfio v = text_eq (implied v) (codes "vfio-pci") && has host_key v

pci_host : OptionValue → Text
unfolding full_pci_address get host_key
pci_host v = full_pci_address (get host_key [] v)

pci_hosts : ArgsFile → List ℕ → List Text
unfolding value_at is_vfio pci_host
pci_hosts args [] = []
pci_hosts args (i ∷ is) =
    let rest = pci_hosts args is in
    let v = value_at args i in if is_vfio v then pci_host v ∷ rest else rest

abbrev device_indexes : ArgsFile → List ℕ
device_indexes args = indexes_of (codes "device") option args

unfoldable pub pci_passthrough : ArgsFile → List Text
unfolding pci_hosts indexes_from
pci_passthrough args = pci_hosts args (device_indexes args)

-- list.removeAll(t)
unfoldable pub without_text : Text → List Text → List Text
unfolding text_eq
without_text t [] = []
without_text t (u ∷ us) = let rest = without_text t us in if text_eq u t then rest else u ∷ rest

-- One round of the loop of `setPciPassthrough`: the file and the addresses still missing.
pci_step : List Text → ℕ → ArgsFile × List Text → ArgsFile × List Text
unfolding value_at is_vfio pci_host one_of without_text
pci_step addresses i (args, missing) =
    let v = value_at args i in
    let host = pci_host v in
    if not (is_vfio v)
    then (args, missing)
    else if one_of host addresses
    then (args, without_text host missing)
    else (remove_at i args, missing)

-- The loop, from the last device to the first.
pci_loop : List Text → List ℕ → ArgsFile × List Text → ArgsFile × List Text
unfolding pci_step
pci_loop addresses [] s = s
pci_loop addresses (i ∷ is) s = pci_step addresses i (pci_loop addresses is s)

add_hosts : List Text → ArgsFile → ArgsFile
unfolding add
add_hosts [] args = args
add_hosts (h ∷ hs) args =
    add_hosts hs (add (codes "device") (codes "vfio-pci,host=" ++ h) option args).0

unfoldable pub set_pci_passthrough : List Text → ArgsFile → ArgsFile
unfolding pci_loop add_hosts indexes_from
set_pci_passthrough addresses args =
    let (edited, missing) = pci_loop addresses (device_indexes args) (args, addresses) in
    add_hosts missing edited

pub record UsbId : Type 0 where
  pub vendor : ℕ
  pub product : ℕ

abbrev usb_eq : UsbId → UsbId → Bool
usb_eq a b = a.vendor == b.vendor && a.product == b.product

-- `text.startsWith("0x", Qt::CaseInsensitive)`
abbrev starts_hex : Text → Bool
starts_hex t = starts_with t (codes "0x") || starts_with t (codes "0X")

-- parseId: a quint16, 0 for what is no number.
unfoldable pub parse_id : Conversions → Text → ℕ
unfolding starts_with
parse_id q t = elim (if starts_hex t then q.to_uint (drop 2 t) 16 else q.to_uint t 0) [
  | none ↦ 0
  | some n ↦ n % 2 ^ 16
]

is_usb_host : OptionValue → Bool
unfolding implied has text_eq
is_usb_host v =
    text_eq (implied v) (codes "usb-host") && has (codes "vendorid") v && has (codes "productid") v

usb_id : Conversions → OptionValue → UsbId
unfolding parse_id get
usb_id q v = record {
  vendor = parse_id q (get (codes "vendorid") [] v);
  product = parse_id q (get (codes "productid") [] v);
}

usb_ids : Conversions → ArgsFile → List ℕ → List UsbId
unfolding value_at is_usb_host usb_id
usb_ids q args [] = []
usb_ids q args (i ∷ is) =
    let rest = usb_ids q args is in
    let v = value_at args i in if is_usb_host v then usb_id q v ∷ rest else rest

unfoldable pub usb_passthrough : Conversions → ArgsFile → List UsbId
unfolding usb_ids indexes_from
usb_passthrough q args = usb_ids q args (device_indexes args)

has_usb : UsbId → List UsbId → Bool
has_usb u [] = false
has_usb u (w ∷ ws) = usb_eq w u || has_usb u ws

without_usb : UsbId → List UsbId → List UsbId
without_usb u [] = []
without_usb u (w ∷ ws) = let rest = without_usb u ws in if usb_eq w u then rest else w ∷ rest

usb_step : Conversions → List UsbId → ℕ → ArgsFile × List UsbId → ArgsFile × List UsbId
unfolding value_at is_usb_host usb_id has_usb without_usb
usb_step q ids i (args, missing) =
    let v = value_at args i in
    let id = usb_id q v in
    if not (is_usb_host v)
    then (args, missing)
    else if has_usb id ids
    then (args, without_usb id missing)
    else (remove_at i args, missing)

usb_loop : Conversions → List UsbId → List ℕ → ArgsFile × List UsbId → ArgsFile × List UsbId
unfolding usb_step
usb_loop q ids [] s = s
usb_loop q ids (i ∷ is) s = usb_step q ids i (usb_loop q ids is s)

abbrev usb_value : UsbId → Text
usb_value u =
    codes "usb-host,vendorid=0x" ++ (hex4 u.vendor ++ (codes ",productid=0x" ++ hex4 u.product))

add_usb : List UsbId → ArgsFile → ArgsFile
unfolding add hex4
add_usb [] args = args
add_usb (u ∷ us) args = add_usb us (add (codes "device") (usb_value u) option args).0

unfoldable pub set_usb_passthrough : Conversions → List UsbId → ArgsFile → ArgsFile
unfolding usb_loop add_usb indexes_from
set_usb_passthrough q ids args =
    let (edited, missing) = usb_loop q ids (device_indexes args) (args, ids) in
    add_usb missing edited

abbrev usb_controllers : List Text
usb_controllers =
    codes "qemu-xhci"
    ∷ codes "nec-usb-xhci"
    ∷ codes "usb-ehci"
    ∷ codes "ich9-usb-ehci1"
    ∷ codes "ich9-usb-ehci2"
    ∷ codes "ich9-usb-uhci1"
    ∷ codes "piix3-usb-uhci"
    ∷ codes "piix4-usb-uhci"
    ∷ codes "pci-ohci"
    ∷ []

abbrev is_found {ℓ} : {A : Type ℓ} → Option A → Bool
is_found none = false
is_found (some a) = true

unfoldable pub has_usb_controller : ArgsFile → Bool
unfolding line_index machine_key text_eq one_of index_of_device
has_usb_controller args =
    is_found (line_index (codes "usb") option args)
    || text_eq (machine_key (codes "usb") args) (codes "on")
    || is_found (index_of_device (λ driver. one_of driver usb_controllers) args)
