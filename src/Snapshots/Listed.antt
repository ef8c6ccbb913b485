-- ===== src/Snapshots/Listed.antt =====
-- src/core/snapshots.cpp: the listings in flight, through the actions.
use qemu_gui_manager.Prelude.{
  Bool, true, false, not, ◌&&◌, ◌||◌, none, some, List, [], ◌∷◌, arith, ◌==◌, if◌then◌else◌,
  if_cases,
}
use qemu_gui_manager.Snapshots.Actions.{
  why_not, take_removals, take_creations, start_take, take_snapshot, file_commands, missing,
  start_with, restore, remove_snapshot,
}
use qemu_gui_manager.Text.{Text, codes, is_empty}
use qemu_gui_manager.Snapshots.Texts.{needs_disks_only, disks_only_reason, explain}
use qemu_gui_manager.Snapshots.Images.{disk_actions, Snapshot}
use qemu_gui_manager.Snapshots.Machine.{
  Command, emit, set_busy, snapshot_drives, find_in, end_action, run_commands, run_undo,
  run_creations, run_removals, undo_commands, World, Job, removals, creations, undoing, commands,
  saving, asking_blocks, deleting_old, transacting, last_command, finished, notice, Snapshots,
}
use qemu_gui_manager.Snapshots.Replies.{command_ended, reply_error, replied, with_job, Reply}
use qemu_gui_manager.Snapshots.Listings.{IsListing, end_action-IsListing}

module _ (w : World) (s : Snapshots) (h : IsListing s) where
  ends : (error : Text) → IsListing (end_action w error s)
  ends error = end_action-IsListing w error s h

  run_commands-IsListing : (cs : List Command) → IsListing (run_commands w cs s)
  run_commands-IsListing [] = unfold run_commands in ends []
  run_commands-IsListing (c ∷ cs) = unfold run_commands in ground arith

  run_undo-IsListing : (cs : List Command) (error : Text) → IsListing (run_undo w cs error s)
  run_undo-IsListing [] error = unfold run_undo in ends error
  run_undo-IsListing (c ∷ cs) error = unfold run_undo in ground arith

  run_creations-IsListing :
      (name : Text) (cs all : List Command) → IsListing (run_creations w name cs all s)
  run_creations-IsListing name [] all = unfold run_creations in ends []
  run_creations-IsListing name (c ∷ cs) all = unfold run_creations in ground arith

  run_removals-IsListing :
      (name : Text) (cs all : List Command) → IsListing (run_removals w name cs all s)
  run_removals-IsListing name [] all = unfold run_removals in run_creations-IsListing name all all
  run_removals-IsListing name (c ∷ cs) all = unfold run_removals in ground arith

  start_with-IsListing :
      (command flag name : Text) (found : Snapshot)
      → IsListing (start_with w command flag name found s)
  start_with-IsListing command flag name found =
      unfold start_with in
      if_cases IsListing w.live (λ e. ground arith)
        (λ e. run_commands-IsListing (file_commands flag name found.files))

  start_take-IsListing : (name : Text) → IsListing (start_take w name s)
  start_take-IsListing name =
      unfold start_take in
      if_cases IsListing w.live (λ e. ground arith)
        (λ e.
          run_removals-IsListing name
            (take_removals name (find_in name s.list) (snapshot_drives w s))
            (take_creations name (snapshot_drives w s)))

  pub command_ended-IsListing : (error : Text) (j : Job) → IsListing (command_ended w error j s)
  unfolding command_ended
  command_ended-IsListing error (removals name left all) =
      if_cases IsListing (is_empty error) (λ q. run_removals-IsListing name left all)
        (λ q. ends error)
  command_ended-IsListing error (creations name left all) =
      if_cases IsListing (is_empty error) (λ q. run_creations-IsListing name left all)
        (λ q. run_undo-IsListing (undo_commands name all) error)
  command_ended-IsListing error (undoing left first) = run_undo-IsListing left first
  command_ended-IsListing error (commands left) =
      if_cases IsListing (is_empty error) (λ q. run_commands-IsListing left) (λ q. ends error)
  command_ended-IsListing error (saving name) = h
  command_ended-IsListing error (asking_blocks name first) = h
  command_ended-IsListing error (deleting_old acts name first) = h
  command_ended-IsListing error (transacting first) = h
  command_ended-IsListing error last_command = h

  pub replied-IsListing : (r : Reply) (j : Job) → IsListing (replied w r j s)
  unfolding replied
  replied-IsListing r (saving name) =
      if_cases IsListing (needs_disks_only (reply_error r)) (λ q. ground arith)
        (λ q. ends (reply_error r))
  replied-IsListing r (asking_blocks name first) =
      if_cases IsListing (not (is_empty r.error) || is_empty (disk_actions r.blocks) || not w.live)
        (λ q. ends (if is_empty r.error then first else r.error)) (λ q. ground arith)
  replied-IsListing r (deleting_old acts name first) =
      if_cases IsListing (not w.live) (λ q. ends first) (λ q. ground arith)
  replied-IsListing r (transacting first) =
      if_cases IsListing (is_empty r.error)
        (λ q. end_action-IsListing w r.error (emit (notice (disks_only_reason first)) s) h)
        (λ q. ends r.error)
  replied-IsListing r last_command = ends (reply_error r)
  replied-IsListing r (removals name left all) = h
  replied-IsListing r (creations name left all) = h
  replied-IsListing r (undoing left first) = h
  replied-IsListing r (commands left) = h

set_busy-IsListing : (on : Bool) (s : Snapshots) → IsListing s → IsListing (set_busy on s)
unfolding set_busy
set_busy-IsListing on s h = ground arith

module _ (w : World) (s : Snapshots) (h : IsListing s) where
  pub take_snapshot-IsListing : (name : Text) → IsListing (take_snapshot w name s)
  unfolding take_snapshot
  take_snapshot-IsListing name =
      if_cases IsListing (is_empty (why_not w name true s))
        (λ e. start_take-IsListing w (set_busy true s) (set_busy-IsListing true s h) name) (λ e. h)

  started :
      (command flag name : Text) (found : Snapshot)
      → IsListing (start_with w command flag name found (set_busy true s))
  started = start_with-IsListing w (set_busy true s) (set_busy-IsListing true s h)

  pub restore-IsListing : (name : Text) → IsListing (restore w name s)
  unfolding restore
  restore-IsListing name =
      if_cases IsListing (not (is_empty (why_not w name false s))) (λ e. h)
        (λ e.
          elim (find_in name s.list)
            as (λ o. IsListing (elim o [
              | none ↦ emit (finished (missing name)) s
              | some found ↦
                  if w.live && found.state_bytes == 0
                  then emit (finished (explain (codes "This is a disk-only snapshot"))) s
                  else start_with w (codes "loadvm ") (codes "-a") name found (set_busy true s)
            ])) [
              | none ↦ h
              | some found ↦
                  if_cases IsListing (w.live && found.state_bytes == 0) (λ q. h)
                    (λ q. started (codes "loadvm ") (codes "-a") name found)
            ])

  pub remove_snapshot-IsListing : (name : Text) → IsListing (remove_snapshot w name s)
  unfolding remove_snapshot
  remove_snapshot-IsListing name =
      if_cases IsListing (not (is_empty (why_not w name false s))) (λ e. h)
        (λ e.
          elim (find_in name s.list)
            as (λ o. IsListing (elim o [
              | none ↦ emit (finished (missing name)) s
              | some found ↦ start_with w (codes "delvm ") (codes "-d") name found (set_busy true s)
            ])) [ none ↦ h | some found ↦ started (codes "delvm ") (codes "-d") name found ])

  pub with_job-IsListing :
      (f : Job → Snapshots → Snapshots) → ((j : Job) → IsListing (f j s)) → IsListing (with_job f s)
  with_job-IsListing f k = elim s.job as (λ o. IsListing (elim o [ none ↦ s | some j ↦ f j s ])) [
    | none ↦ h
    | some j ↦ k j
  ]
