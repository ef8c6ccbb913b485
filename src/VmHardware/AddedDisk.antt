-- ===== src/VmHardware/AddedDisk.antt =====
-- src/core/vmhardware.cpp: a disk after addDisk, and removeDisk after that.
use qemu_gui_manager.Prelude.{
  ℕ, zero, suc, ◌+◌, ◌≤◌, ◌≡◌, refl, ap, ◌∙◌, inl, inr, Bool, true, false, ◌||◌, Option, none, some,
  [], ◌∷◌, ◌++◌, append_assoc, arith, ltb, ◌==◌, if◌then◌else◌, ltb→lt, Bool-cases, Option-cases,
  length, get_elem?, insert_at, remove_at-insert_at, get_elem?-insert_at,
}
use qemu_gui_manager.VmHardware.DiskEdits.{disk_anchor, bus_is, disk_value, add_disk, remove_disk}
use qemu_gui_manager.Text.Laws.{one_of-AllOf}
use qemu_gui_manager.VmHardware.Lines.{insert_line}
use qemu_gui_manager.OptionValue.Parts.{escape-eq_self}
use qemu_gui_manager.OptionValue.RoundTrip.{parse-to_string}
use qemu_gui_manager.Text.{Text, codes, is_empty, text_eq, one_of, has_char, join, to_lower}
use qemu_gui_manager.OptionValue.{
  OptionValue, comma, parse, get, escape, item_text, to_string, Item,
}
use qemu_gui_manager.OptionValue.Readable.{raw, IsReadable}
use qemu_gui_manager.ArgsFile.{ArgsFile, kind_eq, named_line, option, Line}
use qemu_gui_manager.VmHardware.Disks.{
  plain_disk, no_disks, iface, drive_disk, disk_of, disks_from, disks, suffix, disk_format, Bus,
  virtio, sata, scsi, Disk,
}

-- The formats are plain words.
disk_format-plain : (file : Text) → has_char comma (disk_format file) ≡ false
unfolding disk_format has_char
disk_format-plain file = ground (
  arith,
  one_of-AllOf (λ (w : Text). has_char comma w ≡ false) (to_lower (suffix file))
      (codes "qcow2" ∷ codes "vdi" ∷ codes "vmdk" ∷ codes "vhdx" ∷ [])
      (refl, (refl, (refl, (refl, tt)))),
)

abbrev keyed : Text → Text → Item
keyed k v = record { key = k; value = v; bare = false }

-- The items of a new -drive.
abbrev drive_items : Text → Text → Text → OptionValue
drive_items file format f =
    keyed (codes "file") file
    ∷ ((if is_empty format then [] else keyed (codes "format") format ∷ [])
        ++ (keyed (codes "if") f ∷ keyed (codes "discard") (codes "unmap") ∷ []))

abbrev new_iface : Bus → Text
new_iface bus = if bus_is bus sata then codes "ide" else codes "virtio"

drive_items-IsReadable : (file format f : Text) → IsReadable (drive_items file format f)
unfolding has_char raw
drive_items-IsReadable file [] f = (
  inl (refl, (λ q. cc), refl),
  refl,
  (λ q r. cc),
  (
    inl (refl, (λ q. cc), refl),
    refl,
    (λ q. cc),
    (inl (refl, (λ q. cc), refl), refl, (λ q. cc), tt),
  ),
)
drive_items-IsReadable file (c ∷ cs) f = (
  inl (refl, (λ q. cc), refl),
  refl,
  (λ q r. cc),
  (
    inl (refl, (λ q. cc), refl),
    refl,
    (λ q. cc),
    (
      inl (refl, (λ q. cc), refl),
      refl,
      (λ q. cc),
      (inl (refl, (λ q. cc), refl), refl, (λ q. cc), tt),
    ),
  ),
)

-- The value as it is written, for a format that is a plain word.
abbrev written : Text → Text → Text → Text
written file format rest =
    (if is_empty format
      then codes "file=" ++ escape file
      else (codes "file=" ++ escape file) ++ (codes ",format=" ++ format))
    ++ (rest ++ codes ",discard=unmap")

or-false : (a b : Bool) → (a || b) ≡ false → (a ≡ false) × (b ≡ false)
or-false true b h = cc
or-false false b h = (refl, h)

written-items :
    (file format : Text) (is_sata : Bool)
    → has_char comma format ≡ false
    → written file format (if is_sata then codes ",if=ide" else codes ",if=virtio")
      ≡ to_string (drive_items file format (if is_sata then codes "ide" else codes "virtio"))
unfolding to_string item_text join
written-items file [] true h = refl
written-items file [] false h = refl
written-items file (c ∷ cs) true h =
    let (n, m) = or-false (c == comma) (has_char comma cs) (unfold has_char in h) in
    rw (n, if◌then◌else◌, escape-eq_self cs m) (rw append_assoc refl)
written-items file (c ∷ cs) false h =
    let (n, m) = or-false (c == comma) (has_char comma cs) (unfold has_char in h) in
    rw (n, if◌then◌else◌, escape-eq_self cs m) (rw append_assoc refl)

disk_value-written :
    (file rest : Text)
    → disk_value file ++ (rest ++ codes ",discard=unmap") ≡ written file (disk_format file) rest
unfolding disk_value
disk_value-written file rest = refl

-- What the value of the new line is read as.
parse-drive :
    (file : Text) (bus : Bus)
    → parse (
        disk_value file
        ++ ((if bus_is bus sata then codes ",if=ide" else codes ",if=virtio")
            ++ codes ",discard=unmap"))
      ≡ drive_items file (disk_format file) (new_iface bus)
parse-drive file bus =
    ap parse (
      disk_value-written file (if bus_is bus sata then codes ",if=ide" else codes ",if=virtio")
      ∙ written-items file (disk_format file) (bus_is bus sata) (disk_format-plain file))
    ∙ parse-to_string _ (drive_items-IsReadable file (disk_format file) (new_iface bus))

-- The disk that a page shows for it.
abbrev pub new_disk : ℕ → Text → Bus → Disk
new_disk i file bus = record (plain_disk i file false (if bus_is bus sata then sata else virtio)) {
  format = disk_format file;
}

drive_disk-items :
    (args : ArgsFile) (i : ℕ) (file format : Text) (is_sata : Bool)
    → drive_disk args i (drive_items file format (if is_sata then codes "ide" else codes "virtio"))
      ≡ record (plain_disk i file false (if is_sata then sata else virtio)) { format = format }
unfolding drive_disk get text_eq
drive_disk-items args i file [] true = refl
drive_disk-items args i file [] false = refl
drive_disk-items args i file (c ∷ cs) true = refl
drive_disk-items args i file (c ∷ cs) false = refl

iface-items :
    (file format : Text) (is_sata : Bool)
    → one_of
        (iface (drive_items file format (if is_sata then codes "ide" else codes "virtio")))
        no_disks
      ≡ false
unfolding get text_eq one_of
iface-items file [] true = refl
iface-items file [] false = refl
iface-items file (c ∷ cs) true = refl
iface-items file (c ∷ cs) false = refl

module _ (file : Text) (bus : Bus) (args : ArgsFile) (i : ℕ) where
  abbrev new_line : Line
  new_line = named_line option (codes "drive") (
      disk_value file
      ++ ((if bus_is bus sata then codes ",if=ide" else codes ",if=virtio")
          ++ codes ",discard=unmap"))

  disk_of-new_line : disk_of args i (new_line) ≡ some (new_disk i file bus)
  unfolding disk_of
  disk_of-new_line =
      (unfold text_eq in
        rw
          (
            parse-drive file bus,
            iface-items file (disk_format file) (bus_is bus sata),
            if◌then◌else◌,
          )
          refl)
      ∙ ap some (drive_disk-items args i file (disk_format file) (bus_is bus sata))

-- A line of the file that is a disk stands in the list of the disks.
disks_from-at :
    (args : ArgsFile) (s j : ℕ) (ls : ArgsFile) (l : Line) (d : Disk)
    → get_elem? ls j ≡ some l
    → kind_eq l.kind option ≡ true
    → disk_of args (s + j) l ≡ some d
    → (n : ℕ) × (get_elem? (disks_from args s ls) n ≡ some d)
unfolding disks_from
disks_from-at args s j [] l d e k h = cc
disks_from-at args s zero (m ∷ ms) l d e k h =
    let same : m ≡ l = cc (e) in
    let found : disk_of args s l ≡ some d = ap (λ (n : ℕ). disk_of args n l) (omega arith) ∙ h in
    (0, rw same (rw (k, if◌then◌else◌, found) refl))
disks_from-at args s (suc j) (m ∷ ms) l d e k h =
    let found : disk_of args (suc s + j) l ≡ some d =
      ap (λ (n : ℕ). disk_of args n l) (omega arith) ∙ h in
    let (n, r) = disks_from-at args (suc s) j ms l d e k found in
    elim (Bool-cases (kind_eq m.kind option)) [
      | inr q ↦ (n, rw (q, if◌then◌else◌) r)
      | inl q ↦ elim (Option-cases (disk_of args s m)) [
        | inl o ↦ (n, rw (q, if◌then◌else◌, o) r)
        | inr (b, o) ↦ (suc n, rw (q, if◌then◌else◌, o) r)
      ]
    ]

append-insert_at : (l : Line) (args : ArgsFile) → args ++ (l ∷ []) ≡ insert_at (length args) l args
append-insert_at l [] = refl
append-insert_at l (m ∷ ms) = ap (◌∷◌ m) (append-insert_at l ms)

-- `insertLine` puts the line at the index that it gives.
pub insert_line-insert_at :
    (at : Option ℕ) (n v : Text) (args : ArgsFile)
    → (i : ℕ) × (insert_line at n v args ≡ (insert_at i (named_line option n v) args, i))
      × (i ≤ length args)
unfolding insert_line
insert_line-insert_at none n v args = (
  length args,
  ap (λ (f : ArgsFile). (f, length args)) (append-insert_at (named_line option n v) args),
  omega arith,
)
insert_line-insert_at (some a) n v args = elim (Bool-cases (ltb a (length args))) [
  | inl e ↦ (suc a, rw (e, if◌then◌else◌) refl, omega (arith, ltb→lt a (length args) e))
  | inr e ↦ (
    length args,
    rw (e, if◌then◌else◌)
        (ap (λ (f : ArgsFile). (f, length args)) (append-insert_at (named_line option n v) args)),
    omega arith,
  )
]

-- A disk that is added on the virtio or the SATA bus is in the list of the disks, with its file, its
-- bus and the format of its name, and to take that disk out again gives the file that there was.
pub remove_disk-add_disk :
    (file : Text) (bus : Bus) (args : ArgsFile)
    → bus_is bus scsi ≡ false
    → (out : ArgsFile) × (i : ℕ) × (n : ℕ) × (add_disk file bus args ≡ some out)
      × (get_elem? (disks out) n ≡ some (new_disk i file bus))
      × (remove_disk (new_disk i file bus) out ≡ args)
unfolding add_disk disks remove_disk
remove_disk-add_disk file bus args h =
    let v =
      disk_value file
      ++ ((if bus_is bus sata then codes ",if=ide" else codes ",if=virtio")
          ++ codes ",discard=unmap") in
    let (i, e, le) = insert_line-insert_at (disk_anchor args) (codes "drive") v args in
    let out = insert_at i (named_line option (codes "drive") v) args in
    let (n, found) =
      disks_from-at out 0 i out (named_line option (codes "drive") v) (new_disk i file bus)
        (get_elem?-insert_at i (named_line option (codes "drive") v) args le)
        (unfold kind_eq in refl)
        (disk_of-new_line file bus out (0 + i)
          ∙ ap (λ (m : ℕ). some (new_disk m file bus)) (omega arith)) in
    (
      out,
      i,
      n,
      rw (h, add_disk, if◌then◌else◌) (ap (λ (r : ArgsFile × ℕ). some r.0) e),
      found,
      remove_at-insert_at i (named_line option (codes "drive") v) args le,
    )
