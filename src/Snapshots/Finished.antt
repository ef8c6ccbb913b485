-- ===== src/Snapshots/Finished.antt =====
-- src/core/snapshots.cpp: lemmas on the busy flag and the count of the actions.
use qemu_gui_manager.Prelude.{
  ℕ, suc, ◌+◌, ◌≡◌, subst, Bool, true, false, not, ◌||◌, Option, none, some, List, [], ◌∷◌, arith,
  if◌then◌else◌, if_cases, is_none,
}
use qemu_gui_manager.Snapshots.Actions.{
  take_removals, take_creations, start_take, file_commands, start_with,
}
use qemu_gui_manager.Snapshots.Texts.{needs_disks_only, disks_only_reason}
use qemu_gui_manager.Snapshots.Replies.{command_ended, reply_error, replied, Reply}
use qemu_gui_manager.Text.{Text, is_empty}
use qemu_gui_manager.Snapshots.Images.{disk_actions, Drive, Entry, Snapshot}
use qemu_gui_manager.Snapshots.Machine.{
  Command, emit, set_busy, snapshot_drives, find_in, info, refresh_from, refresh, end_action,
  run_command, run_commands, run_undo, run_creations, run_removals, undo_commands, World, Job,
  removals, creations, undoing, commands, saving, asking_blocks, deleting_old, transacting,
  last_command, Output, ran, hmp, queried_blocks, transaction, listed, finished, notice,
  busy_changed, Snapshots,
}

-- How often finished() was emitted.
abbrev pub finished_count : List Output → ℕ
finished_count [] = 0
finished_count (finished t ∷ os) = suc (finished_count os)
finished_count (ran c ∷ os) = finished_count os
finished_count (hmp c ∷ os) = finished_count os
finished_count (queried_blocks ∷ os) = finished_count os
finished_count (transaction a n ∷ os) = finished_count os
finished_count (listed t ∷ os) = finished_count os
finished_count (notice t ∷ os) = finished_count os
finished_count (busy_changed b ∷ os) = finished_count os

abbrev pub under_way : Option Job → ℕ
under_way none = 0
under_way (some j) = 1

-- The actions that have ended, and the one that is under way.
abbrev pub actions : Snapshots → ℕ
actions s = finished_count s.log + under_way s.job

abbrev pub IsConsistent : Snapshots → Type 0
IsConsistent s = s.busy ≡ not (is_none s.job)

-- What a call leaves: the flag in order, and one action more or less.
abbrev pub Counts : ℕ → Snapshots → Type 0
Counts n s = (IsConsistent s) × (actions s ≡ n)

pub info-Counts :
    (n g : ℕ) (ds : List Drive) (found : List (Text × List Entry)) (s : Snapshots)
    → Counts n s
    → Counts n (info g ds found s)
unfolding info
info-Counts n g [] found s h = ground arith
info-Counts n g (d ∷ ds) found s h = ground arith

pub refresh-Counts : (n : ℕ) (w : World) (s : Snapshots) → Counts n s → Counts n (refresh w s)
unfolding refresh refresh_from
refresh-Counts n w s h = ground (
  arith,
  info-Counts n (suc s.generation) (snapshot_drives w (record s { generation = suc s.generation }))
      [] (record s { generation = suc s.generation }),
)

pub set_busy_lem :
    (on : Bool) (s : Snapshots)
    → ((set_busy on s).busy ≡ on)
      × ((set_busy on s).job ≡ s.job)
      × (finished_count (set_busy on s).log ≡ finished_count s.log)
unfolding set_busy
set_busy_lem on s = ground arith

end_action-Counts :
    (w : World) (error : Text) (s : Snapshots)
    → Counts (suc (finished_count s.log)) (end_action w error s)
unfolding end_action
end_action-Counts w error s =
    let freed = record s { job = none } in
    let (b, j, f) = set_busy_lem false freed in
    let h = refresh-Counts (finished_count s.log) w (set_busy false freed) (ground arith) in
    ground (arith, h)

-- A state in which an action goes on, `n` actions having ended.
abbrev pub Busy : ℕ → Snapshots → Type 0
Busy n s = (s.busy ≡ true) × (finished_count s.log ≡ n)

module _ (n : ℕ) (w : World) (s : Snapshots) (b : Busy n s) where
  ends : (error : Text) → Counts (suc n) (end_action w error s)
  ends error =
      subst (λ (k : ℕ). Counts (suc k) (end_action w error s)) b.1 (end_action-Counts w error s)

  runs : (c : Command) (j : Job) → Counts (suc n) (run_command c j s)
  runs c j = ground arith

  run_commands-Counts : (cs : List Command) → Counts (suc n) (run_commands w cs s)
  run_commands-Counts [] = unfold run_commands in ends []
  run_commands-Counts (c ∷ cs) = unfold run_commands in runs c (commands cs)

  run_undo-Counts : (cs : List Command) (error : Text) → Counts (suc n) (run_undo w cs error s)
  run_undo-Counts [] error = unfold run_undo in ends error
  run_undo-Counts (c ∷ cs) error = unfold run_undo in runs c (undoing cs error)

  run_creations-Counts :
      (name : Text) (cs all : List Command) → Counts (suc n) (run_creations w name cs all s)
  run_creations-Counts name [] all = unfold run_creations in ends []
  run_creations-Counts name (c ∷ cs) all = unfold run_creations in runs c (creations name cs all)

  run_removals-Counts :
      (name : Text) (cs all : List Command) → Counts (suc n) (run_removals w name cs all s)
  run_removals-Counts name [] all = unfold run_removals in run_creations-Counts name all all
  run_removals-Counts name (c ∷ cs) all = unfold run_removals in runs c (removals name cs all)

  pub start_take-Counts : (name : Text) → Counts (suc n) (start_take w name s)
  start_take-Counts name =
      unfold start_take in
      if_cases (Counts (suc n)) w.live (λ e. ground arith)
        (λ e.
          run_removals-Counts name (take_removals name (find_in name s.list) (snapshot_drives w s))
            (take_creations name (snapshot_drives w s)))

  pub start_with-Counts :
      (command flag name : Text) (found : Snapshot)
      → Counts (suc n) (start_with w command flag name found s)
  start_with-Counts command flag name found =
      unfold start_with in
      if_cases (Counts (suc n)) w.live (λ e. ground arith)
        (λ e. run_commands-Counts (file_commands flag name found.files))

  pub command_ended-Counts :
      (error : Text) (j : Job) → s.job ≡ some j → Counts (suc n) (command_ended w error j s)
  unfolding command_ended
  command_ended-Counts error (removals name left all) e =
      if_cases (Counts (suc n)) (is_empty error) (λ q. run_removals-Counts name left all)
        (λ q. ends error)
  command_ended-Counts error (creations name left all) e =
      if_cases (Counts (suc n)) (is_empty error) (λ q. run_creations-Counts name left all)
        (λ q. run_undo-Counts (undo_commands name all) error)
  command_ended-Counts error (undoing left first) e = run_undo-Counts left first
  command_ended-Counts error (commands left) e =
      if_cases (Counts (suc n)) (is_empty error) (λ q. run_commands-Counts left) (λ q. ends error)
  command_ended-Counts error (saving name) e = ground arith
  command_ended-Counts error (asking_blocks name first) e = ground arith
  command_ended-Counts error (deleting_old acts name first) e = ground arith
  command_ended-Counts error (transacting first) e = ground arith
  command_ended-Counts error last_command e = ground arith

  notice_ends : (t error : Text) → Counts (suc n) (end_action w error (emit (notice t) s))
  notice_ends t error =
      subst (λ (k : ℕ). Counts (suc k) (end_action w error (emit (notice t) s))) b.1
        (end_action-Counts w error (emit (notice t) s))

  pub replied-Counts : (r : Reply) (j : Job) → s.job ≡ some j → Counts (suc n) (replied w r j s)
  unfolding replied
  replied-Counts r (saving name) e =
      if_cases (Counts (suc n)) (needs_disks_only (reply_error r)) (λ q. ground arith)
        (λ q. ends (reply_error r))
  replied-Counts r (asking_blocks name first) e =
      if_cases (Counts (suc n))
        (not (is_empty r.error) || is_empty (disk_actions r.blocks) || not w.live)
        (λ q. ends (if is_empty r.error then first else r.error)) (λ q. ground arith)
  replied-Counts r (deleting_old acts name first) e =
      if_cases (Counts (suc n)) (not w.live) (λ q. ends first) (λ q. ground arith)
  replied-Counts r (transacting first) e =
      if_cases (Counts (suc n)) (is_empty r.error)
        (λ q. notice_ends (disks_only_reason first) r.error) (λ q. ends r.error)
  replied-Counts r last_command e = ends (reply_error r)
  replied-Counts r (removals name left all) e = ground arith
  replied-Counts r (creations name left all) e = ground arith
  replied-Counts r (undoing left first) e = ground arith
  replied-Counts r (commands left) e = ground arith
