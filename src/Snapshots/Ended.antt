-- ===== src/Snapshots/Ended.antt =====
-- src/core/snapshots.cpp: the actions that are asked for, and the events in any order.
use qemu_gui_manager.Prelude.{
  ℕ, suc, ◌+◌, ◌≡◌, refl, sym, subst, inl, inr, Bool, true, false, ◌&&◌, Option, none, some, List,
  [], ◌∷◌, ◌++◌, arith, ◌==◌, if◌then◌else◌, Bool-cases, Option-cases, if_cases, get_elem?,
  remove_at,
}
use qemu_gui_manager.Snapshots.Actions.{why_not, take_snapshot, missing, restore, remove_snapshot}
use qemu_gui_manager.Text.{Text, codes, is_empty}
use qemu_gui_manager.Snapshots.Texts.{explain}
use qemu_gui_manager.Snapshots.Images.{Drive, Entry, Block}
use qemu_gui_manager.Snapshots.Machine.{
  emit, set_busy, find_in, run_error, World, Job, Listing, asked, reading, finished, Snapshots,
}
use qemu_gui_manager.Snapshots.Replies.{
  command_ended, replied, blocks_listed, info_ended, answer_blocks, answer_image, with_job, step,
  run, Event, take_asked, restore_asked, remove_asked, refresh_asked, vm_set, run_ended,
  qmp_replied, blocks_answered, image_read,
}
use qemu_gui_manager.Snapshots.Finished.{
  finished_count, actions, IsConsistent, Counts, info-Counts, refresh-Counts, set_busy_lem, Busy,
  start_take-Counts, start_with-Counts, command_ended-Counts, replied-Counts,
}
use native.Mathlib.Nat.{zero-add}

one_more : (n : ℕ) → 1 + n ≡ suc n
one_more n = omega arith

-- The requests among the events.
abbrev pub asks : Event → ℕ
asks (take_asked name) = 1
asks (restore_asked name) = 1
asks (remove_asked name) = 1
asks refresh_asked = 0
asks (vm_set args) = 0
asks (run_ended ok code err) = 0
asks (qmp_replied r) = 0
asks (blocks_answered i blocks error) = 0
asks (image_read i ok entries err) = 0

why_not-free :
    (w : World) (name : Text) (b : Bool) (s : Snapshots)
    → is_empty (why_not w name b s) ≡ true
    → s.busy ≡ false
unfolding why_not
why_not-free w name b s h = ground arith

module _ (w : World) (s : Snapshots) (h : IsConsistent s) where
  refused : (t : Text) → Counts (suc (actions s)) (emit (finished t) s)
  refused t = ground arith

  free_Busy : s.busy ≡ false → Busy (actions s) (set_busy true s)
  free_Busy f = let (b, j, c) = set_busy_lem true s in ground arith

  take_snapshot-Counts : (name : Text) → Counts (suc (actions s)) (take_snapshot w name s)
  unfolding take_snapshot
  take_snapshot-Counts name =
      if_cases (Counts (suc (actions s))) (is_empty (why_not w name true s))
        (λ e.
          start_take-Counts (actions s) w (set_busy true s)
            (free_Busy (why_not-free w name true s e)) name)
        (λ e. refused (why_not w name true s))

  restore-Counts : (name : Text) → Counts (suc (actions s)) (restore w name s)
  unfolding restore
  restore-Counts name = elim (Bool-cases (is_empty (why_not w name false s))) [
    | inr e ↦ rw (e, restore, if◌then◌else◌) (refused (why_not w name false s))
    | inl e ↦ elim (Option-cases (find_in name s.list)) [
      | inl f ↦ rw (e, f, restore, if◌then◌else◌) (refused (missing name))
      | inr (found, f) ↦
          rw (e, f, restore, if◌then◌else◌)
            (if_cases (Counts (suc (actions s))) (w.live && found.state_bytes == 0)
              (λ q. refused (explain (codes "This is a disk-only snapshot")))
              (λ q.
                start_with-Counts (actions s) w (set_busy true s)
                  (free_Busy (why_not-free w name false s e)) (codes "loadvm ") (codes "-a") name
                  found))
    ]
  ]

  remove_snapshot-Counts : (name : Text) → Counts (suc (actions s)) (remove_snapshot w name s)
  unfolding remove_snapshot
  remove_snapshot-Counts name = elim (Bool-cases (is_empty (why_not w name false s))) [
    | inr e ↦ rw (e, remove_snapshot, if◌then◌else◌) (refused (why_not w name false s))
    | inl e ↦ elim (Option-cases (find_in name s.list)) [
      | inl f ↦ rw (e, f, remove_snapshot, if◌then◌else◌) (refused (missing name))
      | inr (found, f) ↦
          rw (e, f, remove_snapshot, if◌then◌else◌)
            (start_with-Counts (actions s) w (set_busy true s)
              (free_Busy (why_not-free w name false s e)) (codes "delvm ") (codes "-d") name found)
    ]
  ]

  job_Busy :
      (j : Job)
      → s.job ≡ some j
      → (Busy (finished_count s.log) s) × (actions s ≡ suc (finished_count s.log))
  job_Busy j e = ground arith

-- Option's case on a value that is known.
pub with_job_lem :
    (f : Job → Snapshots → Snapshots) (s : Snapshots) (o : Option Job) (j : Job)
    → o ≡ some j
    → elim o [ none ↦ s | some k ↦ f k s ] ≡ f j s
with_job_lem f s o j e = rw e refl

module _ (w : World) (s : Snapshots) (h : IsConsistent s) where
  with_job-Counts :
      (f : Job → Snapshots → Snapshots)
      → ((j : Job) → s.job ≡ some j → Counts (suc (finished_count s.log)) (f j s))
      → Counts (actions s) (with_job f s)
  with_job-Counts f k = elim (Option-cases s.job) [
    | inl e ↦ rw (e, with_job) (ground arith)
    | inr (j, e) ↦
        let (b, n) = job_Busy w s h j e in
        subst (λ (m : ℕ). Counts m (with_job f s)) (sym n)
          (subst (λ (x : Snapshots). Counts (suc (finished_count s.log)) x)
            (sym (with_job_lem f s s.job j e)) (k j e))
  ]

blocks_listed-Counts :
    (n g : ℕ) (blocks : List Block) (error : Text) (s : Snapshots)
    → Counts n s
    → Counts n (blocks_listed g blocks error s)
unfolding blocks_listed
blocks_listed-Counts n g blocks error s c = ground arith

info_ended-Counts :
    (n g : ℕ) (d : Drive) (ds : List Drive) (found : List (Text × List Entry)) (ok : Bool)
    (entries : List Entry) (err : Text) (s : Snapshots)
    → Counts n s
    → Counts n (info_ended g d ds found ok entries err s)
unfolding info_ended
info_ended-Counts n g d ds found ok entries err s c =
    ground (arith, info-Counts n g ds (found ++ ((d.file, entries) ∷ [])) s)

answer_blocks-Counts :
    (n : ℕ) (l : Option Listing) (blocks : List Block) (error : Text) (s : Snapshots)
    → Counts n s
    → Counts n (answer_blocks l blocks error s)
answer_blocks-Counts n none blocks error s c = c
answer_blocks-Counts n (some (asked g)) blocks error s c = blocks_listed-Counts n g blocks error s c
answer_blocks-Counts n (some (reading g d ds found)) blocks error s c = c

answer_image-Counts :
    (n : ℕ) (l : Option Listing) (ok : Bool) (entries : List Entry) (err : Text) (s : Snapshots)
    → Counts n s
    → Counts n (answer_image l ok entries err s)
answer_image-Counts n none ok entries err s c = c
answer_image-Counts n (some (asked g)) ok entries err s c = c
answer_image-Counts n (some (reading g d ds found)) ok entries err s c =
    info_ended-Counts n g d ds found ok entries err s c

step-Counts :
    (w : World) (e : Event) (s : Snapshots)
    → IsConsistent s
    → Counts (asks e + actions s) (step w e s)
unfolding step
step-Counts w (take_asked name) s h = rw one_more (take_snapshot-Counts w s h name)
step-Counts w (restore_asked name) s h = rw one_more (restore-Counts w s h name)
step-Counts w (remove_asked name) s h = rw one_more (remove_snapshot-Counts w s h name)
step-Counts w refresh_asked s h = rw zero-add (refresh-Counts (actions s) w s (h, refl))
step-Counts w (vm_set args) s h = (h, omega arith)
step-Counts w (run_ended ok code err) s h = rw zero-add (
    with_job-Counts w s h (command_ended w (run_error ok code err)) (λ j e.
      command_ended-Counts (finished_count s.log) w s (job_Busy w s h j e).0 (run_error ok code err)
        j e))
step-Counts w (qmp_replied r) s h = rw zero-add (
    with_job-Counts w s h (replied w r)
      (λ j e. replied-Counts (finished_count s.log) w s (job_Busy w s h j e).0 r j e))
step-Counts w (blocks_answered i blocks error) s h = rw zero-add (
    answer_blocks-Counts (actions s) (get_elem? s.listings i) blocks error
      (record s { listings = remove_at i s.listings }) (h, refl))
step-Counts w (image_read i ok entries err) s h = rw zero-add (
    answer_image-Counts (actions s) (get_elem? s.listings i) ok entries err
      (record s { listings = remove_at i s.listings }) (h, refl))

-- How many of the events ask for an action.
abbrev pub asked_in : List (World × Event) → ℕ
asked_in [] = 0
asked_in ((w, e) ∷ es) = asks e + asked_in es

-- Whatever happens, in any order and in any world, a snapshot action is under way exactly while the
-- manager says that it is busy, and the actions that have ended, with that one, are as many as have
-- been asked for: each taking, restoring or deleting ends once, with finished().
pub run-finishes :
    (es : List (World × Event)) (s : Snapshots)
    → IsConsistent s
    → (IsConsistent (run es s)) × (actions (run es s) ≡ asked_in es + actions s)
unfolding run
run-finishes [] s h = (h, omega arith)
run-finishes ((w, e) ∷ es) s h =
    let (k, n) = step-Counts w e s h in
    let (c, m) = run-finishes es (step w e s) k in (c, omega (arith, m, n))
