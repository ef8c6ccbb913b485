-- ===== src/Snapshots/Listings.antt =====
-- src/core/snapshots.cpp: the listings in flight, and how often listed() is emitted.
use qemu_gui_manager.Prelude.{
  ℕ, suc, ◌+◌, ◌≤◌, ◌≡◌, refl, Bool, true, false, ◌&&◌, none, List, [], ◌∷◌, arith, leb, ◌==◌,
  if◌then◌else◌,
}
use qemu_gui_manager.Text.{Text}
use qemu_gui_manager.Snapshots.Images.{Drive, Entry}
use qemu_gui_manager.Snapshots.Machine.{
  set_busy, snapshot_drives, info, refresh_from, refresh, end_action, World, Listing, asked,
  reading, Output, ran, hmp, queried_blocks, transaction, listed, finished, notice, busy_changed,
  Snapshots,
}

abbrev pub generation_of : Listing → ℕ
generation_of (asked g) = g
generation_of (reading g d ds found) = g

-- The listings of a generation.
abbrev pub current : ℕ → List Listing → ℕ
current g [] = 0
current g (l ∷ ls) = let rest = current g ls in if generation_of l == g then suc rest else rest

-- No listing is of a later generation.
abbrev pub is_up_to : ℕ → List Listing → Bool
is_up_to g [] = true
is_up_to g (l ∷ ls) = leb (generation_of l) g && is_up_to g ls

-- How often listed() was emitted.
abbrev pub listed_count : List Output → ℕ
listed_count [] = 0
listed_count (listed t ∷ os) = suc (listed_count os)
listed_count (ran c ∷ os) = listed_count os
listed_count (hmp c ∷ os) = listed_count os
listed_count (queried_blocks ∷ os) = listed_count os
listed_count (transaction a n ∷ os) = listed_count os
listed_count (finished t ∷ os) = listed_count os
listed_count (notice t ∷ os) = listed_count os
listed_count (busy_changed b ∷ os) = listed_count os

-- No listing in flight is of a later generation, at most one is of this one, and with it listed()
-- was not emitted more often than the list was asked for.
abbrev pub IsListing : Snapshots → Type 0
IsListing s =
    (is_up_to s.generation s.listings ≡ true)
    × (current s.generation s.listings ≤ 1)
    × (listed_count s.log + current s.generation s.listings ≤ s.generation)

-- The same, with room for one more.
abbrev pub IsFree : Snapshots → Type 0
IsFree s =
    (is_up_to s.generation s.listings ≡ true)
    × (current s.generation s.listings ≡ 0)
    × (suc (listed_count s.log) ≤ s.generation)

is_up_to-suc : (g : ℕ) (ls : List Listing) → is_up_to g ls ≡ true → is_up_to (suc g) ls ≡ true
is_up_to-suc g [] h = refl
is_up_to-suc g (l ∷ ls) h = ground (arith, is_up_to-suc g ls)

current-suc : (g : ℕ) (ls : List Listing) → is_up_to g ls ≡ true → current (suc g) ls ≡ 0
current-suc g [] h = refl
current-suc g (l ∷ ls) h = ground (arith, current-suc g ls)

pub info-IsListing :
    (g : ℕ) (ds : List Drive) (found : List (Text × List Entry)) (s : Snapshots)
    → (g == s.generation) ≡ true
    → IsFree s
    → IsListing (info g ds found s)
unfolding info
info-IsListing g [] found s e h = ground arith
info-IsListing g (d ∷ ds) found s e h = ground arith

pub refresh-IsListing : (w : World) (s : Snapshots) → IsListing s → IsListing (refresh w s)
unfolding refresh refresh_from
refresh-IsListing w s h =
    let u = is_up_to-suc s.generation s.listings h.0 in
    let c = current-suc s.generation s.listings h.0 in
    let next = record s { generation = suc s.generation } in
    ground (arith, info-IsListing next.generation (snapshot_drives w next) [] next)

pub end_action-IsListing :
    (w : World) (error : Text) (s : Snapshots) → IsListing s → IsListing (end_action w error s)
unfolding end_action set_busy
end_action-IsListing w error s h =
    let freed = set_busy false (record s { job = none }) in
    let k = refresh-IsListing w freed (ground arith) in ground (arith, k)
