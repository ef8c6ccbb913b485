-- ===== src/Tests/Snapshots.antt =====
-- Snapshots: concrete worlds and events.
use qemu_gui_manager.Prelude.{
  ℕ, ◌+◌, ◌≡◌, refl, Bool, true, false, none, some, List, [], ◌∷◌, ◌++◌, map, arith, ◌==◌,
  if◌then◌else◌, drop,
}
use qemu_gui_manager.Snapshots.Actions.{take_creations, file_commands}
use qemu_gui_manager.Text.{Text, codes}
use qemu_gui_manager.ArgsFile.{ArgsFile, named_line, option}
use qemu_gui_manager.Snapshots.Texts.{backslash, double_quote, hmp_quote, is_valid_name, explain}
use qemu_gui_manager.Snapshots.Images.{drives, merge, Drive, Entry, Snapshot}
use qemu_gui_manager.Snapshots.Machine.{
  end_action, run_error, World, creations, ran, queried_blocks, listed, finished, busy_changed,
  Snapshots,
}
use qemu_gui_manager.Snapshots.Replies.{
  run, new_snapshots, Reply, Event, take_asked, remove_asked, refresh_asked, vm_set, run_ended,
  blocks_answered,
}
use qemu_gui_manager.Snapshots.Finished.{actions, IsConsistent}
use qemu_gui_manager.Snapshots.Ended.{asked_in, run-finishes}
use qemu_gui_manager.Snapshots.Quoting.{Reader, with_char, read-hmp_quote, IsReader}
use qemu_gui_manager.Snapshots.Merging.{is_listed, is_in_images}
use qemu_gui_manager.Snapshots.Order.{is_sorted, is_distinct, merge-lists}
use qemu_gui_manager.Snapshots.Undo.{logged, end_event, last_world, creation-undoes, End}
use qemu_gui_manager.Snapshots.Listings.{IsListing}
use qemu_gui_manager.Snapshots.Answered.{run-IsListing}

abbrev offline : World
offline = record {
  live = false;
  active = false;
  image_tool = codes "/usr/bin/qemu-img";
  exists = λ t. true;
  absolute = λ t. codes "/vm/" ++ t;
}

abbrev online : World
online = record {
  live = true;
  active = true;
  image_tool = [];
  exists = λ t. true;
  absolute = λ t. t;
}

abbrev two_disks : ArgsFile
two_disks =
    named_line option (codes "drive") (codes "file=a.qcow2,if=virtio")
    ∷ named_line option (codes "hda") (codes "b.qcow2")
    ∷ []

abbrev answer : Text → Reply
answer error = record { text = []; blocks = []; error = error }

-- The second creation fails, and both are undone.
abbrev failing_take : List (World × Event)
failing_take =
    (offline, vm_set two_disks)
    ∷ (offline, take_asked (codes "one"))
    ∷ (offline, run_ended true (codes "0") [])
    ∷ (offline, remove_asked (codes "one"))
    ∷ (offline, run_ended false (codes "1") (codes "no space"))
    ∷ (offline, run_ended true (codes "0") [])
    ∷ (online, run_ended false (codes "1") [])
    ∷ []

finds_drives :
    drives (λ t. t) two_disks
    ≡ record { file = codes "a.qcow2"; format = codes "qcow2"; pflash = false }
      ∷ record { file = codes "b.qcow2"; format = codes "qcow2"; pflash = false }
      ∷ []
unfolding drives
finds_drives = refl

fails :
    (run failing_take new_snapshots).log
    ≡ finished (codes "no space")
      ∷ queried_blocks
      ∷ busy_changed false
      ∷ ran (codes "snapshot" ∷ codes "-d" ∷ codes "one" ∷ codes "/vm/b.qcow2" ∷ [])
      ∷ ran (codes "snapshot" ∷ codes "-d" ∷ codes "one" ∷ codes "/vm/a.qcow2" ∷ [])
      ∷ finished (codes "Another snapshot action is under way")
      ∷ ran (codes "snapshot" ∷ codes "-c" ∷ codes "one" ∷ codes "/vm/b.qcow2" ∷ [])
      ∷ ran (codes "snapshot" ∷ codes "-c" ∷ codes "one" ∷ codes "/vm/a.qcow2" ∷ [])
      ∷ busy_changed true
      ∷ []
unfolding run
fails = refl

explains :
    explain (codes "Device 'ide0' is writable but does not support snapshots")
    ≡ codes
        "The disk ide0 is not in qcow2, and a snapshot of a running VM needs every disk it writes to in qcow2."
unfolding explain
explains = refl

quotes : hmp_quote (codes "a\"b\\") ≡ codes "\"a\\\"b\\\\\""
unfolding hmp_quote
quotes = refl

rejects_digits : is_valid_name (codes "12") ≡ false
unfolding is_valid_name
rejects_digits = refl

run-finishes_example :
    (IsConsistent (run failing_take new_snapshots))
    × (actions (run failing_take new_snapshots) ≡ asked_in failing_take + actions new_snapshots)
run-finishes_example = run-finishes failing_take new_snapshots refl

abbrev entry : ℕ → Entry
entry sec = record {
  name = codes "one";
  date_sec = sec;
  date_nsec = 0;
  clock_sec = 0;
  clock_nsec = 0;
  state_size = 0;
}

abbrev image_list : List (Text × List Entry)
image_list =
    (codes "a", entry 9 ∷ [])
    ∷ (codes "b", record (entry 7) { name = codes "old" } ∷ entry 8 ∷ [])
    ∷ []

abbrev listed_images : List Snapshot
listed_images =
    record {
      name = codes "old";
      date = 7000;
      clock_ms = 0;
      state_bytes = 0;
      files = codes "b" ∷ [];
    }
    ∷ record {
      name = codes "one";
      date = 9000;
      clock_ms = 0;
      state_bytes = 0;
      files = codes "a" ∷ codes "b" ∷ [];
    }
    ∷ []

merges : merge image_list ≡ listed_images
unfolding merge
merges = refl

merge-lists_example :
    (is_sorted (merge image_list) ≡ true)
    × (is_distinct (merge image_list) ≡ true)
    × ((name file : Text)
        → is_listed name file (merge image_list) ≡ is_in_images name file image_list)
merge-lists_example = merge-lists image_list

-- A reader as the monitor's: a backslash is before a character that stands for itself.
abbrev read_from : Bool → Reader
read_from escaped [] = none
read_from true (c ∷ cs) = with_char c (read_from false cs)
read_from false (c ∷ cs) =
    let escaped = read_from true cs in
    let plain = with_char c (read_from false cs) in
    if c == backslash then escaped else if c == double_quote then some ([], cs) else plain

read_from-IsReader : IsReader (read_from false)
read_from-IsReader = record {
  ends = λ rest. refl;
  backslashes = λ rest. refl;
  quotes = λ rest. refl;
  plain = λ c rest e q. rw (e, q, if◌then◌else◌) refl;
}

read-hmp_quote_example :
    (hmp_quote (codes "a\"b\\") ++ codes " x"
      ≡ double_quote ∷ (drop 1 (hmp_quote (codes "a\"b\\")) ++ codes " x"))
    × (read_from false (drop 1 (hmp_quote (codes "a\"b\\")) ++ codes " x")
        ≡ some (codes "a\"b\\", codes " x"))
read-hmp_quote_example =
    read-hmp_quote (read_from false) read_from-IsReader (codes "a\"b\\") (codes " x")

abbrev disk_a : Drive
disk_a = record { file = codes "a"; format = codes "qcow2"; pflash = false }

abbrev creating : Snapshots
creating = record new_snapshots {
  busy = true;
  job = some (creations (codes "one") [] (take_creations (codes "one") (disk_a ∷ [])));
}

abbrev bad_end : End
bad_end = record { world = offline; ok = false; code = codes "1"; err = codes "no space" }

creation-undoes_example :
    run (map end_event (bad_end ∷ bad_end ∷ [])) creating
    ≡ end_action
        (last_world offline (bad_end ∷ []))
        (run_error false (codes "1") (codes "no space"))
        (record creating {
          log = logged (file_commands (codes "-d") (codes "one") (codes "a" ∷ [])) creating.log;
        })
creation-undoes_example =
    creation-undoes (codes "one") [] (disk_a ∷ []) bad_end (bad_end ∷ []) creating refl refl refl

-- An answer to a list that was asked for again comes late.
abbrev two_refreshes : List (World × Event)
two_refreshes =
    (online, refresh_asked)
    ∷ (online, refresh_asked)
    ∷ (online, blocks_answered 1 [] (codes "late"))
    ∷ (online, blocks_answered 0 [] [])
    ∷ []

drops_late :
    (run two_refreshes new_snapshots).log ≡ listed [] ∷ queried_blocks ∷ queried_blocks ∷ []
unfolding run
drops_late = refl

run-IsListing_example : IsListing (run two_refreshes new_snapshots)
run-IsListing_example = run-IsListing two_refreshes new_snapshots (refl, omega arith, omega arith)
