-- ===== src/Snapshots/Actions.antt =====
-- src/core/snapshots.cpp: what take(), restore() and remove() begin.
use qemu_gui_manager.Prelude.{
  Bool, true, false, not, ◌&&◌, Option, none, some, List, [], ◌∷◌, ◌++◌, ◌==◌, if◌then◌else◌,
}
use qemu_gui_manager.Text.{Text, codes, is_empty, text_eq, one_of}
use qemu_gui_manager.Snapshots.Texts.{hmp_quote, is_valid_name, explain}
use qemu_gui_manager.Snapshots.Images.{Drive, Snapshot}
use qemu_gui_manager.Snapshots.Machine.{
  Command, emit, set_busy, snapshot_drives, find_in, no_tool, run_commands, run_removals,
  snapshot_command, run_hmp, nothing_to_use, World, saving, last_command, finished, Snapshots,
}

-- The error of `cannot`, empty if there is none.
unfoldable pub why_not : World → Text → Bool → Snapshots → Text
unfolding is_valid_name snapshot_drives
why_not w name needs_name s =
    if s.busy
    then codes "Another snapshot action is under way"
    else if needs_name && not (is_valid_name name)
    then codes "A snapshot needs a name that is not only digits"
    else if not w.live && w.active
    then codes "The VM is starting or stopping: wait for it"
    else if not w.live && is_empty w.image_tool
    then no_tool
    else if not w.live && is_empty (snapshot_drives w s)
    then nothing_to_use
    else []

-- The commands of `take`: those that delete the old snapshots of the name, and the new ones.
abbrev pub has_old : Option Snapshot → Text → Bool
has_old none file = false
has_old (some s) file = one_of file s.files

unfoldable pub take_removals : Text → Option Snapshot → List Drive → List Command
unfolding one_of
take_removals name old [] = []
take_removals name old (d ∷ ds) =
    let rest = take_removals name old ds in
    if has_old old d.file then snapshot_command (codes "-d") name d.file ∷ rest else rest

unfoldable pub take_creations : Text → List Drive → List Command
take_creations name [] = []
take_creations name (d ∷ ds) = snapshot_command (codes "-c") name d.file ∷ take_creations name ds

-- take, behind its guard
unfoldable pub start_take : World → Text → Snapshots → Snapshots
unfolding hmp_quote text_eq snapshot_drives take_removals take_creations run_removals
start_take w name s =
    let ds = snapshot_drives w s in
    if w.live
    then run_hmp (codes "savevm ") name (saving name) s
    else run_removals w name (take_removals name (find_in name s.list) ds) (take_creations name ds)
        s

unfoldable pub take_snapshot : World → Text → Snapshots → Snapshots
unfolding why_not set_busy start_take
take_snapshot w name s =
    let error = why_not w name true s in
    if is_empty error then start_take w name (set_busy true s) else emit (finished error) s

unfoldable pub file_commands : Text → Text → List Text → List Command
file_commands flag name [] = []
file_commands flag name (f ∷ fs) = snapshot_command flag name f ∷ file_commands flag name fs

abbrev pub missing : Text → Text
missing name = codes "There is no snapshot " ++ name

-- restore and remove, behind their guards
unfoldable pub start_with : World → Text → Text → Text → Snapshot → Snapshots → Snapshots
unfolding hmp_quote file_commands run_commands
start_with w command flag name found s =
    if w.live
    then run_hmp command name last_command s
    else run_commands w (file_commands flag name found.files) s

unfoldable pub restore : World → Text → Snapshots → Snapshots
unfolding why_not set_busy text_eq start_with explain
restore w name s =
    let error = why_not w name false s in
    if not (is_empty error) then emit (finished error) s else elim (find_in name s.list) [
      | none ↦ emit (finished (missing name)) s
      | some found ↦
          if w.live && found.state_bytes == 0
          then emit (finished (explain (codes "This is a disk-only snapshot"))) s
          else start_with w (codes "loadvm ") (codes "-a") name found (set_busy true s)
    ]

unfoldable pub remove_snapshot : World → Text → Snapshots → Snapshots
unfolding why_not set_busy text_eq start_with
remove_snapshot w name s =
    let error = why_not w name false s in
    if not (is_empty error) then emit (finished error) s else elim (find_in name s.list) [
      | none ↦ emit (finished (missing name)) s
      | some found ↦ start_with w (codes "delvm ") (codes "-d") name found (set_busy true s)
    ]
