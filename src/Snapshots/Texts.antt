-- ===== src/Snapshots/Texts.antt =====
-- src/core/snapshots.cpp: names, monitor commands and messages. What tr() gives is the English text.
use qemu_gui_manager.Prelude.{
  ℕ, Bool, true, false, not, ◌&&◌, ◌||◌, Option, none, some, [], ◌∷◌, ◌++◌, ◌==◌, if◌then◌else◌,
  drop,
}
use qemu_gui_manager.Text.{Text, codes, is_empty, text_eq, starts_with, trimmed, to_lower, contains}
use qemu_gui_manager.Numbers.{is_digit}

-- hmpError
unfoldable pub hmp_error : Text → Text
unfolding trimmed starts_with
hmp_error output =
    let text = trimmed output in
    if starts_with text (codes "Error:") then trimmed (drop 6 text) else []

abbrev pub backslash : ℕ
backslash = b'\\'

abbrev pub double_quote : ℕ
double_quote = b'"'

-- text.replace('\\', "\\\\").replace('"', "\\\"")
unfoldable pub double_backslashes : Text → Text
double_backslashes [] = []
double_backslashes (c ∷ cs) =
    let rest = double_backslashes cs in
    if c == backslash then backslash ∷ backslash ∷ rest else c ∷ rest

unfoldable pub escape_double_quotes : Text → Text
escape_double_quotes [] = []
escape_double_quotes (c ∷ cs) =
    let rest = escape_double_quotes cs in
    if c == double_quote then backslash ∷ double_quote ∷ rest else c ∷ rest

unfoldable pub hmp_quote : Text → Text
unfolding double_backslashes escape_double_quotes
hmp_quote t = double_quote ∷ (escape_double_quotes (double_backslashes t) ++ (double_quote ∷ []))

-- `^[0-9]+$` for a text with no newline at its end, as there is none behind trimmed()
unfoldable pub all_digits : Text → Bool
unfolding is_digit
all_digits [] = true
all_digits (c ∷ cs) = is_digit c && all_digits cs

unfoldable pub is_valid_name : Text → Bool
unfolding trimmed text_eq all_digits
is_valid_name name =
    not (is_empty (trimmed name)) && text_eq name (trimmed name) && not (all_digits name)

unfoldable pub needs_disks_only : Text → Bool
unfolding contains to_lower
needs_disks_only error =
    contains (to_lower error) (codes "migrat")
    || contains error (codes "does not support snapshots")

-- `([^']+)'`: what is before the next quote, and what is behind it
unfoldable pub up_to_quote : Text → Option (Text × Text)
up_to_quote [] = none
up_to_quote (c ∷ cs) = elim (c == b'\'') [
  | true ↦ some ([], cs)
  | false ↦ elim (up_to_quote cs) [ none ↦ none | some (a, b) ↦ some (c ∷ a, b) ]
]

abbrev device_here : Text → Option Text
device_here t = elim (starts_with t (codes "Device '")) [
  | false ↦ none
  | true ↦ elim (up_to_quote (drop 8 t)) [
    | none ↦ none
    | some (device, rest) ↦
        if not (is_empty device)
          && starts_with rest (codes " is writable but does not support snapshots")
        then some device
        else none
  ]
]

-- The device that the regular expression `writable` finds.
unfoldable pub writable_device : Text → Option Text
unfolding starts_with up_to_quote
writable_device [] = none
writable_device (c ∷ cs) = elim (device_here (c ∷ cs)) [
  | some device ↦ some device
  | none ↦ writable_device cs
]

abbrev pub no_state : Text
no_state = codes "cannot save the running state"

unfoldable pub disks_only_reason : Text → Text
unfolding contains writable_device starts_with trimmed
disks_only_reason error =
    if contains error (codes "virgl")
    then codes "This snapshot holds the disks only: QEMU "
      ++ (no_state ++ codes " of a VM with 3D graphics (virgl).")
    else elim (writable_device error) [
      | some device ↦
          codes "This snapshot holds the qcow2 disks only: "
          ++ ((if starts_with device (codes "pflash") then codes "the UEFI variables" else device)
              ++ (codes " is not in qcow2, so QEMU " ++ (no_state ++ codes ".")))
      | none ↦
          codes "This snapshot holds the disks only: QEMU "
          ++ (no_state ++ (codes " of this VM (" ++ (trimmed error ++ codes ").")))
    ]

unfoldable pub explain : Text → Text
unfolding writable_device starts_with contains
explain error = elim (writable_device error) [
  | some device ↦
      if starts_with device (codes "pflash")
      then codes
          "The UEFI variables of the VM are in a raw file, and a snapshot of a running VM needs "
        ++ (codes
              "every file it writes to in qcow2. Take snapshots with the VM stopped, of the disks "
            ++ codes "only, or give it UEFI variables in qcow2, as new VMs have.")
      else codes "The disk "
        ++ (device
            ++ (codes
                  " is not in qcow2, and a snapshot of a running VM needs every disk it writes to "
                ++ codes "in qcow2."))
  | none ↦
      if contains error (codes "disk-only snapshot")
      then codes "This snapshot holds the disks only, not the running state: stop the VM "
        ++ codes "to go back to it."
      else if contains error (codes "does not exist in one or more devices")
      then codes "Not all the disks of the VM have this snapshot: " ++ error
      else error
]
