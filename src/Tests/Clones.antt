-- ===== src/Tests/Clones.antt =====
-- The clones: concrete files.
use qemu_gui_manager.Prelude.{
  ◌≡◌, refl, ap, true, not, some, List, [], ◌∷◌, ◌++◌, if◌then◌else◌, drop,
}
use qemu_gui_manager.Text.{Text, codes, starts_with}
use qemu_gui_manager.Numbers.{number}
use qemu_gui_manager.ArgsFile.{ArgsFile, named_line, option}
use qemu_gui_manager.VmHardware.Disks.{suffix}
use qemu_gui_manager.Cloner.{complete_base, numbered, plan, Folders}
use qemu_gui_manager.Cloner.Copies.{is_distinct, targets, plan-copies}

-- The folder /a; what is not in it starts with another slash.
abbrev folders : Folders
folders = record {
  source = λ t. if starts_with t (codes "/") then t else codes "/a/" ++ t;
  inside = λ t. if starts_with t (codes "/a/") then drop 3 t else codes ".." ++ t;
  target = λ t. codes "/b/" ++ t;
  is_relative = λ t. not (starts_with t (codes "/"));
  exists = λ t. true;
  uuid = λ i. codes "new";
  bytes = λ i. (1, 2, 171);
}

abbrev cloned : ArgsFile
cloned =
    named_line option (codes "name") (codes "one")
    ∷ named_line option (codes "hda") (codes "x.img")
    ∷ named_line option (codes "drive") (codes "file=/c/x.img,if=virtio")
    ∷ named_line option (codes "cdrom") (codes "os.iso")
    ∷ named_line option (codes "device") (codes "e1000,mac=52:54:00:00:00:00")
    ∷ named_line option (codes "uuid") (codes "old")
    ∷ []

plans :
    plan folders cloned (codes "two")
    ≡ some (
      named_line option (codes "name") (codes "two")
          ∷ named_line option (codes "hda") (codes "x.img")
          ∷ named_line option (codes "drive") (codes "file=x-2.img,if=virtio")
          ∷ named_line option (codes "cdrom") (codes "/a/os.iso")
          ∷ named_line option (codes "device") (codes "e1000,mac=52:54:00:01:02:ab")
          ∷ named_line option (codes "uuid") (codes "new")
          ∷ [],
      (codes "/a/x.img", codes "/b/x.img") ∷ (codes "/c/x.img", codes "/b/x-2.img") ∷ [],
    )
unfolding plan
plans = refl

-- Without a -name line, setName adds one before the first option, and the file of the first line is
-- written over the new name.
misplaces :
    plan folders (named_line option (codes "hda") (codes "x.img") ∷ []) (codes "two")
    ≡ some (
      named_line option (codes "name") (codes "x.img")
          ∷ named_line option (codes "hda") (codes "x.img")
          ∷ [],
      (codes "/a/x.img", codes "/b/x.img") ∷ [],
    )
unfolding plan
misplaces = refl

numbers_plain : numbered (codes "disk") 2 ≡ codes "disk-2."
unfolding complete_base suffix number
numbers_plain = refl

plan-copies_example :
    (out : ArgsFile) × (copies : List (Text × Text)) × (plan folders cloned (codes "two")
      ≡ some (out, copies))
    × (is_distinct (targets copies) ≡ true)
plan-copies_example = plan-copies folders cloned (codes "two") (λ a b e. ap (drop 3) e)
