-- ===== src/Snapshots/Replies.antt =====
-- src/core/snapshots.cpp: what ends a run of qemu-img or answers a command, and the events in order.
use qemu_gui_manager.Prelude.{
  ℕ, Bool, false, not, ◌||◌, Option, none, some, List, [], ◌∷◌, ◌++◌, ◌==◌, if◌then◌else◌,
  get_elem?, remove_at,
}
use qemu_gui_manager.Snapshots.Actions.{take_snapshot, restore, remove_snapshot}
use qemu_gui_manager.Text.{Text, codes, is_empty, file_name}
use qemu_gui_manager.ArgsFile.{ArgsFile}
use qemu_gui_manager.Snapshots.Texts.{hmp_error, hmp_quote, needs_disks_only, disks_only_reason}
use qemu_gui_manager.Snapshots.Images.{merge, images, disk_actions, Drive, Entry, Block}
use qemu_gui_manager.Snapshots.Machine.{
  emit, info, list_nothing, refresh, end_action, run_commands, run_undo, run_creations,
  run_removals, undo_commands, run_error, run_hmp, World, Job, removals, creations, undoing,
  commands, saving, asking_blocks, deleting_old, transacting, last_command, Listing, asked, reading,
  queried_blocks, transaction, listed, notice, Snapshots,
}

-- The callbacks of runAll, where `error` is that of the run.
unfoldable pub command_ended : World → Text → Job → Snapshots → Snapshots
unfolding end_action run_removals run_creations run_undo undo_commands run_commands
command_ended w error (removals name left all) s =
    if is_empty error then run_removals w name left all s else end_action w error s
command_ended w error (creations name left all) s =
    if is_empty error
    then run_creations w name left all s
    else run_undo w (undo_commands name all) error s
command_ended w error (undoing left first) s = run_undo w left first s
command_ended w error (commands left) s =
    if is_empty error then run_commands w left s else end_action w error s
command_ended w error (saving name) s = s
command_ended w error (asking_blocks name first) s = s
command_ended w error (deleting_old actions name first) s = s
command_ended w error (transacting first) s = s
command_ended w error last_command s = s

-- An answer of QMP: the result, as a text or as the block devices, and the error.
pub record Reply : Type 0 where
  pub text : Text
  pub blocks : List Block
  pub error : Text

-- The error that hmp() tells.
abbrev pub reply_error : Reply → Text
reply_error r = if is_empty r.error then hmp_error r.text else r.error

-- takeDisks
abbrev pub take_disks : Text → Text → Snapshots → Snapshots
take_disks name error s = emit queried_blocks (record s { job = some (asking_blocks name error) })

abbrev pub delete_old : List Text → Text → Text → Snapshots → Snapshots
delete_old actions name error s = run_hmp (codes "delvm ") name (deleting_old actions name error) s

-- The callbacks of QMP.
unfoldable pub replied : World → Reply → Job → Snapshots → Snapshots
unfolding hmp_error needs_disks_only end_action disk_actions hmp_quote disks_only_reason
replied w r (saving name) s =
    let error = reply_error r in
    if needs_disks_only error then take_disks name error s else end_action w error s
replied w r (asking_blocks name first) s =
    let actions = disk_actions r.blocks in
    if not (is_empty r.error) || is_empty actions || not w.live
    then end_action w (if is_empty r.error then first else r.error) s
    else delete_old actions name first s
replied w r (deleting_old actions name first) s =
    if not w.live
    then end_action w first s
    else emit (transaction actions name) (record s { job = some (transacting first) })
replied w r (transacting first) s =
    if is_empty r.error
    then end_action w r.error (emit (notice (disks_only_reason first)) s)
    else end_action w r.error s
replied w r last_command s = end_action w (reply_error r) s
replied w r (removals name left all) s = s
replied w r (creations name left all) s = s
replied w r (undoing left first) s = s
replied w r (commands left) s = s

-- The answer to query-block for a listing.
unfoldable pub blocks_listed : ℕ → List Block → Text → Snapshots → Snapshots
unfolding merge images
blocks_listed g blocks error s =
    if g == s.generation
    then emit (listed error)
        (record s { list = if is_empty error then merge (images blocks) else [] })
    else s

-- The end of `qemu-img info` for a listing; `image_error` is its message with the file's name.
unfoldable pub info_ended :
    ℕ
    → Drive
    → List Drive
    → List (Text × List Entry)
    → Bool
    → List Entry
    → Text
    → Snapshots
    → Snapshots
unfolding file_name info
info_ended g d ds found ok entries err s =
    if g == s.generation
    then if ok
      then info g ds (found ++ ((d.file, entries) ∷ [])) s
      else list_nothing (file_name d.file ++ (codes ": " ++ err)) s
    else s

pub data Event : Type 0 where
  take_asked restore_asked remove_asked : Text → Event
  refresh_asked : Event
  vm_set : ArgsFile → Event
  run_ended : Bool → Text → Text → Event
  qmp_replied : Reply → Event
  blocks_answered : ℕ → List Block → Text → Event
  image_read : ℕ → Bool → List Entry → Text → Event

-- An event for the listing at an index, which is then no longer in flight.
abbrev pub answer_blocks : Option Listing → List Block → Text → Snapshots → Snapshots
answer_blocks (some (asked g)) blocks error s = blocks_listed g blocks error s
answer_blocks (some (reading g d ds found)) blocks error s = s
answer_blocks none blocks error s = s

abbrev pub answer_image : Option Listing → Bool → List Entry → Text → Snapshots → Snapshots
answer_image (some (reading g d ds found)) ok entries err s =
    info_ended g d ds found ok entries err s
answer_image (some (asked g)) ok entries err s = s
answer_image none ok entries err s = s

abbrev pub with_job : (Job → Snapshots → Snapshots) → Snapshots → Snapshots
with_job f s = elim s.job [ none ↦ s | some j ↦ f j s ]

-- One event, in the world of that moment.
unfoldable pub step : World → Event → Snapshots → Snapshots
unfolding take_snapshot restore remove_snapshot refresh command_ended replied blocks_listed
    info_ended
step w (take_asked name) s = take_snapshot w name s
step w (restore_asked name) s = restore w name s
step w (remove_asked name) s = remove_snapshot w name s
step w refresh_asked s = refresh w s
step w (vm_set args) s = record s { args = args }
step w (run_ended ok code err) s = with_job (command_ended w (run_error ok code err)) s
step w (qmp_replied r) s = with_job (replied w r) s
step w (blocks_answered i blocks error) s =
    answer_blocks (get_elem? s.listings i) blocks error
      (record s { listings = remove_at i s.listings })
step w (image_read i ok entries err) s =
    answer_image (get_elem? s.listings i) ok entries err
      (record s { listings = remove_at i s.listings })

-- Events in order, each in its world.
unfoldable pub run : List (World × Event) → Snapshots → Snapshots
unfolding step
run [] s = s
run ((w, e) ∷ es) s = run es (step w e s)

abbrev pub new_snapshots : Snapshots
new_snapshots = record {
  args = [];
  list = [];
  busy = false;
  generation = 0;
  job = none;
  listings = [];
  log = [];
}
