-- ===== src/Snapshots/Undo.antt =====
-- src/core/snapshots.cpp: the commands behind a creation that failed.
use qemu_gui_manager.Snapshots.Ended.{with_job_lem}
use qemu_gui_manager.Snapshots.Actions.{take_creations, file_commands}
use qemu_gui_manager.Prelude.{
  ◌≡◌, refl, sym, ap, ◌∙◌, Bool, false, some, List, [], ◌∷◌, map, arith, if◌then◌else◌, length,
}
use qemu_gui_manager.Text.{Text, codes, is_empty}
use qemu_gui_manager.Snapshots.Machine.{
  Command, emit, end_action, run_undo, undo_commands, run_error, World, creations, undoing, Output,
  ran, Snapshots,
}
use qemu_gui_manager.Snapshots.Replies.{command_ended, with_job, step, run, Event, run_ended}
use qemu_gui_manager.Snapshots.Images.{Drive}

-- What is done in a run of commands, the last first, on top of what was done.
abbrev pub logged : List Command → List Output → List Output
logged [] log = log
logged (c ∷ cs) log = logged cs (ran c ∷ log)

-- How a run of qemu-img ended, and the world at its end.
pub record End : Type 0 where
  pub world : World
  pub ok : Bool
  pub code : Text
  pub err : Text

abbrev pub end_event : End → World × Event
end_event e = (e.world, run_ended e.ok e.code e.err)

abbrev pub last_world : World → List End → World
last_world w [] = w
last_world w (e ∷ es) = last_world e.world es

run_undo_lem :
    (cs : List Command) (es : List End) (w : World) (error : Text) (s : Snapshots)
    → length es ≡ length cs
    → run (map end_event es) (run_undo w cs error s)
      ≡ end_action (last_world w es) error (record s { log = logged cs s.log })
unfolding run step command_ended run_undo end_action
run_undo_lem [] [] w error s h = refl
run_undo_lem (c ∷ cs) (e ∷ es) w error s h =
    run_undo_lem cs es e.world error (emit (ran c) (record s { job = some (undoing cs error) }))
      (omega (arith, h))
run_undo_lem [] (e ∷ es) w error s h = ground arith
run_undo_lem (c ∷ cs) [] w error s h = ground arith

undo_commands-take_creations :
    (name : Text) (ds : List Drive)
    → undo_commands name (take_creations name ds)
      ≡ file_commands (codes "-d") name (map (λ (d : Drive). d.file) ds)
unfolding undo_commands take_creations file_commands
undo_commands-take_creations name [] = refl
undo_commands-take_creations name (d ∷ ds) = rw (undo_commands-take_creations name ds) refl

length-file_commands :
    (flag name : Text) (ds : List Drive)
    → length (file_commands flag name (map (λ (d : Drive). d.file) ds)) ≡ length ds
unfolding file_commands
length-file_commands flag name [] = refl
length-file_commands flag name (d ∷ ds) = rw (length-file_commands flag name ds) refl

failed_creation :
    (w : World) (error name : Text) (left all : List Command) (s : Snapshots)
    → s.job ≡ some (creations name left all)
    → is_empty error ≡ false
    → with_job (command_ended w error) s ≡ run_undo w (undo_commands name all) error s
unfolding command_ended
failed_creation w error name left all s j q =
    with_job_lem (command_ended w error) s s.job (creations name left all) j
    ∙ rw (q, if◌then◌else◌) refl

-- When a creation of a snapshot of the stopped VM fails, the runs of qemu-img that follow delete
-- the snapshot from each of the files, in their order and whether these runs succeed or not, and
-- then the action ends with the error of the creation.
pub creation-undoes :
    (name : Text) (left : List Command) (ds : List Drive) (e : End) (es : List End) (s : Snapshots)
    → s.job ≡ some (creations name left (take_creations name ds))
    → is_empty (run_error e.ok e.code e.err) ≡ false
    → length es ≡ length ds
    → run (map end_event (e ∷ es)) s
      ≡ end_action (last_world e.world es) (run_error e.ok e.code e.err) (record s {
        log = logged (file_commands (codes "-d") name (map (λ (d : Drive). d.file) ds)) s.log;
      })
unfolding run step command_ended
creation-undoes name left ds e es s j q h =
    let error = run_error e.ok e.code e.err in
    let undo = file_commands (codes "-d") name (map (λ (d : Drive). d.file) ds) in
    ap (run (map end_event es)) (
      failed_creation e.world error name left (take_creations name ds) s j q
      ∙ ap (λ (cs : List Command). run_undo e.world cs error s)
          (undo_commands-take_creations name ds))
    ∙ run_undo_lem undo es e.world error s (h ∙ sym (length-file_commands (codes "-d") name ds))
