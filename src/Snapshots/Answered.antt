-- ===== src/Snapshots/Answered.antt =====
-- src/core/snapshots.cpp: the answers to the listings, and the runs in which they come.
use qemu_gui_manager.Prelude.{
  ℕ, zero, suc, ◌+◌, ◌≤◌, ◌≡◌, refl, Bool, true, Option, none, some, List, [], ◌∷◌, ◌++◌, arith,
  ◌==◌, if◌then◌else◌, get_elem?, remove_at,
}
use qemu_gui_manager.Text.{Text}
use qemu_gui_manager.Snapshots.Images.{Entry, Block}
use qemu_gui_manager.Snapshots.Machine.{run_error, World, Listing, asked, reading, Snapshots}
use qemu_gui_manager.Snapshots.Replies.{
  command_ended, replied, blocks_listed, info_ended, answer_blocks, answer_image, step, run, Event,
  take_asked, restore_asked, remove_asked, refresh_asked, vm_set, run_ended, qmp_replied,
  blocks_answered, image_read,
}
use qemu_gui_manager.Snapshots.Listings.{
  generation_of, current, is_up_to, listed_count, IsListing, info-IsListing, refresh-IsListing,
}
use qemu_gui_manager.Snapshots.Listed.{
  command_ended-IsListing, replied-IsListing, take_snapshot-IsListing, restore-IsListing,
  remove_snapshot-IsListing, with_job-IsListing,
}

-- One for a listing of a generation.
abbrev is_current : ℕ → Option Listing → ℕ
is_current g none = 0
is_current g (some l) = if generation_of l == g then 1 else 0

current-remove_at :
    (g i : ℕ) (ls : List Listing)
    → current g (remove_at i ls) + is_current g (get_elem? ls i) ≡ current g ls
current-remove_at g i [] = refl
current-remove_at g zero (l ∷ ls) = ground arith
current-remove_at g (suc i) (l ∷ ls) = ground (arith, current-remove_at g i ls)

is_up_to-remove_at :
    (g i : ℕ) (ls : List Listing) → is_up_to g ls ≡ true → is_up_to g (remove_at i ls) ≡ true
is_up_to-remove_at g i [] h = h
is_up_to-remove_at g zero (l ∷ ls) h = ground arith
is_up_to-remove_at g (suc i) (l ∷ ls) h = ground (arith, is_up_to-remove_at g i ls)

-- The state behind an answer to the listing `l`, which is no longer in flight.
abbrev IsTaken : Option Listing → Snapshots → Type 0
IsTaken l s =
    (is_up_to s.generation s.listings ≡ true)
    × (current s.generation s.listings + is_current s.generation l ≤ 1)
    × (listed_count s.log + (current s.generation s.listings + is_current s.generation l)
        ≤ s.generation)

IsTaken-remove_at :
    (i : ℕ) (s : Snapshots)
    → IsListing s
    → IsTaken (get_elem? s.listings i) (record s { listings = remove_at i s.listings })
IsTaken-remove_at i s h =
    let c = current-remove_at s.generation i s.listings in
    let u = is_up_to-remove_at s.generation i s.listings h.0 in
    (u, omega (arith, c, h.1), omega (arith, c, h.2))

answer_blocks-IsListing :
    (l : Option Listing) (blocks : List Block) (error : Text) (s : Snapshots)
    → IsTaken l s
    → IsListing (answer_blocks l blocks error s)
unfolding blocks_listed
answer_blocks-IsListing none blocks error s h = ground arith
answer_blocks-IsListing (some (asked g)) blocks error s h = ground arith
answer_blocks-IsListing (some (reading g d ds found)) blocks error s h = ground arith

answer_image-IsListing :
    (l : Option Listing) (ok : Bool) (entries : List Entry) (err : Text) (s : Snapshots)
    → IsTaken l s
    → IsListing (answer_image l ok entries err s)
unfolding info_ended
answer_image-IsListing none ok entries err s h = ground arith
answer_image-IsListing (some (asked g)) ok entries err s h = ground arith
answer_image-IsListing (some (reading g d ds found)) ok entries err s h =
    ground (arith, info-IsListing g ds (found ++ ((d.file, entries) ∷ [])) s)

step-IsListing : (w : World) (e : Event) (s : Snapshots) → IsListing s → IsListing (step w e s)
unfolding step
step-IsListing w (take_asked name) s h = take_snapshot-IsListing w s h name
step-IsListing w (restore_asked name) s h = restore-IsListing w s h name
step-IsListing w (remove_asked name) s h = remove_snapshot-IsListing w s h name
step-IsListing w refresh_asked s h = refresh-IsListing w s h
step-IsListing w (vm_set args) s h = h
step-IsListing w (run_ended ok code err) s h =
    with_job-IsListing w s h (command_ended w (run_error ok code err))
      (command_ended-IsListing w s h (run_error ok code err))
step-IsListing w (qmp_replied r) s h =
    with_job-IsListing w s h (replied w r) (replied-IsListing w s h r)
step-IsListing w (blocks_answered i blocks error) s h =
    answer_blocks-IsListing (get_elem? s.listings i) blocks error
      (record s { listings = remove_at i s.listings }) (IsTaken-remove_at i s h)
step-IsListing w (image_read i ok entries err) s h =
    answer_image-IsListing (get_elem? s.listings i) ok entries err
      (record s { listings = remove_at i s.listings }) (IsTaken-remove_at i s h)

-- Whatever happens, in any order and in any world, no listing in flight is of a later generation
-- than the last that was asked for, at most one is of that generation, and listed() has been
-- emitted at most once each time the list was asked for, counting that one.
pub run-IsListing : (es : List (World × Event)) (s : Snapshots) → IsListing s → IsListing (run es s)
unfolding run
run-IsListing [] s h = h
run-IsListing ((w, e) ∷ es) s h = run-IsListing es (step w e s) (step-IsListing w e s h)
