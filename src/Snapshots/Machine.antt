-- ===== src/Snapshots/Machine.antt =====
-- src/core/snapshots.cpp: taking, restoring, deleting and listing, as steps on the state.
use qemu_gui_manager.Prelude.{
  ℕ, suc, Bool, false, ◌&&◌, Option, none, some, List, [], ◌∷◌, ◌++◌, bool_eq, if◌then◌else◌, last,
}
use qemu_gui_manager.Text.{Text, codes, is_empty, text_eq}
use qemu_gui_manager.ArgsFile.{ArgsFile}
use qemu_gui_manager.Snapshots.Texts.{hmp_quote, explain}
use qemu_gui_manager.Snapshots.Images.{can_snapshot, drives, merge, Drive, Entry, Snapshot}

-- What the VM, its runner and the disk tell at one moment: live(), isActive(), qemuImg(), and
-- QFileInfo::exists; `absolute` is QDir(dir).absoluteFilePath.
pub record World : Type 0 where
  pub live : Bool
  pub active : Bool
  pub image_tool : Text
  pub exists : Text → Bool
  pub absolute : Text → Text

-- The arguments of qemu-img.
abbrev pub Command : Type 0
Command = List Text

-- What an action that is under way waits for. Offline, a run of qemu-img, with the commands that
-- come behind it; live, the answer to a command of QMP.
pub data Job : Type 0 where
  removals : Text → List Command → List Command → Job
  creations : Text → List Command → List Command → Job
  undoing : List Command → Text → Job
  commands : List Command → Job
  saving : Text → Job
  asking_blocks : Text → Text → Job
  deleting_old : List Text → Text → Text → Job
  transacting : Text → Job
  last_command : Job

-- What a listing waits for: the answer to query-block, or a run of `qemu-img info` on the first
-- drive, with the drives behind it and the images so far.
pub data Listing : Type 0 where
  asked : ℕ → Listing
  reading : ℕ → Drive → List Drive → List (Text × List Entry) → Listing

pub data Output : Type 0 where
  ran : Command → Output
  hmp : Text → Output
  queried_blocks : Output
  transaction : List Text → Text → Output
  listed finished notice : Text → Output
  busy_changed : Bool → Output

-- VmSnapshots::Private; `listings` are those in flight, and `log` is what was done, the last first.
pub record Snapshots : Type 0 where
  pub args : ArgsFile
  pub list : List Snapshot
  pub busy : Bool
  pub generation : ℕ
  pub job : Option Job
  pub listings : List Listing
  pub log : List Output

abbrev pub emit : Output → Snapshots → Snapshots
emit o s = record s { log = o ∷ s.log }

-- setBusy
unfoldable pub set_busy : Bool → Snapshots → Snapshots
set_busy on s = if bool_eq s.busy on then s else emit (busy_changed on) (record s { busy = on })

-- snapshotDrives
abbrev pub usable : World → List Drive → List Drive
usable w [] = []
usable w (d ∷ ds) =
    let rest = usable w ds in if can_snapshot d && w.exists d.file then d ∷ rest else rest

unfoldable pub snapshot_drives : World → Snapshots → List Drive
unfolding drives text_eq
snapshot_drives w s = usable w (drives w.absolute s.args)

abbrev pub find_in : Text → List Snapshot → Option Snapshot
find_in name [] = none
find_in name (s ∷ ss) = if text_eq s.name name then some s else find_in name ss

-- The listing of the stopped VM, from a drive on; `generation` was checked.
unfoldable pub info : ℕ → List Drive → List (Text × List Entry) → Snapshots → Snapshots
unfolding merge
info g [] found s = emit (listed []) (record s { list = merge found })
info g (d ∷ ds) found s =
    emit (ran (codes "info" ∷ codes "--output=json" ∷ codes "-U" ∷ d.file ∷ []))
      (record s { listings = reading g d ds found ∷ s.listings })

abbrev pub list_nothing : Text → Snapshots → Snapshots
list_nothing error s = emit (listed error) (record s { list = [] })

abbrev pub no_tool : Text
no_tool = codes "qemu-img was not found: install it with QEMU (the qemu-img package)"

-- refresh, once the generation is counted
unfoldable pub refresh_from : World → Snapshots → Snapshots
unfolding snapshot_drives info
refresh_from w s =
    let ds = snapshot_drives w s in
    if w.live
    then emit queried_blocks (record s { listings = asked s.generation ∷ s.listings })
    else if w.active
    then list_nothing [] s
    else if is_empty ds
    then list_nothing [] s
    else if is_empty w.image_tool
    then list_nothing no_tool s
    else info s.generation ds [] s

unfoldable pub refresh : World → Snapshots → Snapshots
unfolding refresh_from
refresh w s = refresh_from w (record s { generation = suc s.generation })

-- end: the action is over.
unfoldable pub end_action : World → Text → Snapshots → Snapshots
unfolding set_busy refresh explain
end_action w error s =
    emit (finished (explain error)) (refresh w (set_busy false (record s { job = none })))

abbrev pub run_command : Command → Job → Snapshots → Snapshots
run_command c j s = emit (ran c) (record s { job = some j })

-- runAll, for each of the lists that it is called with
unfoldable pub run_commands : World → List Command → Snapshots → Snapshots
unfolding end_action
run_commands w [] s = end_action w [] s
run_commands w (c ∷ cs) s = run_command c (commands cs) s

unfoldable pub run_undo : World → List Command → Text → Snapshots → Snapshots
unfolding end_action
run_undo w [] error s = end_action w error s
run_undo w (c ∷ cs) error s = run_command c (undoing cs error) s

unfoldable pub run_creations : World → Text → List Command → List Command → Snapshots → Snapshots
unfolding end_action
run_creations w name [] all s = end_action w [] s
run_creations w name (c ∷ cs) all s = run_command c (creations name cs all) s

unfoldable pub run_removals : World → Text → List Command → List Command → Snapshots → Snapshots
unfolding run_creations
run_removals w name [] all s = run_creations w name all all s
run_removals w name (c ∷ cs) all s = run_command c (removals name cs all) s

abbrev pub snapshot_command : Text → Text → Text → Command
snapshot_command flag name file = codes "snapshot" ∷ flag ∷ name ∷ file ∷ []

-- The commands that undo creations: `c.last()` is the file.
unfoldable pub undo_commands : Text → List Command → List Command
undo_commands name [] = []
undo_commands name (c ∷ cs) =
    snapshot_command (codes "-d") name (elim (last c) [ none ↦ [] | some file ↦ file ])
    ∷ undo_commands name cs

-- The error of a run of qemu-img in runAll, empty if it succeeded; `code` is the number as a text.
abbrev pub run_error : Bool → Text → Text → Text
run_error ok code err =
    if ok then [] else if is_empty err then codes "qemu-img ended with " ++ code else err

-- hmp, for an action
abbrev pub run_hmp : Text → Text → Job → Snapshots → Snapshots
run_hmp command name j s = emit (hmp (command ++ hmp_quote name)) (record s { job = some j })

abbrev pub nothing_to_use : Text
nothing_to_use = codes "The VM has no qcow2 disk to keep snapshots in"
