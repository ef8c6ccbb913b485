-- ===== src/Snapshots/Order.antt =====
-- src/core/snapshots.cpp: the list of merge(), its order and its names.
use qemu_gui_manager.Prelude.{
  ◌≡◌, refl, sym, ap, inl, inr, Bool, true, false, not, ◌&&◌, ◌||◌, List, [], ◌∷◌, arith, ltb,
  if◌then◌else◌, Bool-cases, or_exchange, or_false,
}
use qemu_gui_manager.Text.Laws.{text_eq_iff, text_eq_sym}
use qemu_gui_manager.Text.{Text, text_eq, one_of}
use qemu_gui_manager.Snapshots.Merging.{is_listed, is_in_images, is_listed-merge_images}
use qemu_gui_manager.Snapshots.Images.{
  merge_entry, merge_entries, merge_images, insert_by_date, sort_by_date, merge, images, Entry,
  Snapshot,
}

-- No snapshot is dated before the one in front of it.
abbrev pub is_sorted : List Snapshot → Bool
is_sorted [] = true
is_sorted (s ∷ []) = true
is_sorted (s ∷ t ∷ ss) = not (ltb t.date s.date) && is_sorted (t ∷ ss)

abbrev pub has_name : Text → List Snapshot → Bool
has_name name [] = false
has_name name (s ∷ ss) = text_eq s.name name || has_name name ss

-- No two snapshots have one name.
abbrev pub is_distinct : List Snapshot → Bool
is_distinct [] = true
is_distinct (s ∷ ss) = not (has_name s.name ss) && is_distinct ss

is_sorted-insert_by_date :
    (s : Snapshot) (ss : List Snapshot)
    → is_sorted ss ≡ true
    → is_sorted (insert_by_date s ss) ≡ true
unfolding insert_by_date
is_sorted-insert_by_date s [] h = refl
is_sorted-insert_by_date s (t ∷ []) h = ground arith
is_sorted-insert_by_date s (t ∷ u ∷ ss) h = ground (arith, is_sorted-insert_by_date s (u ∷ ss))

is_sorted-sort_by_date : (ss : List Snapshot) → is_sorted (sort_by_date ss) ≡ true
unfolding sort_by_date
is_sorted-sort_by_date [] = refl
is_sorted-sort_by_date (s ∷ ss) =
    is_sorted-insert_by_date s (sort_by_date ss) (is_sorted-sort_by_date ss)

has_name-insert_by_date :
    (name : Text) (s : Snapshot) (ss : List Snapshot)
    → has_name name (insert_by_date s ss) ≡ text_eq s.name name || has_name name ss
unfolding insert_by_date
has_name-insert_by_date name s [] = refl
has_name-insert_by_date name s (t ∷ ts) = elim (Bool-cases (ltb t.date s.date)) [
  | inr e ↦ rw (e, if◌then◌else◌) refl
  | inl e ↦
      rw (e, if◌then◌else◌, has_name-insert_by_date name s ts)
        (or_exchange (text_eq t.name name) (text_eq s.name name) (has_name name ts))
]

is_distinct-insert_by_date :
    (s : Snapshot) (ss : List Snapshot)
    → is_distinct (s ∷ ss) ≡ true
    → is_distinct (insert_by_date s ss) ≡ true
unfolding insert_by_date
is_distinct-insert_by_date s [] h = refl
is_distinct-insert_by_date s (t ∷ ts) h = ground (
  arith,
  has_name-insert_by_date t.name s ts,
  is_distinct-insert_by_date s ts,
  text_eq_sym s.name t.name,
)

has_name-sort_by_date :
    (name : Text) (ss : List Snapshot) → has_name name (sort_by_date ss) ≡ has_name name ss
unfolding sort_by_date
has_name-sort_by_date name [] = refl
has_name-sort_by_date name (s ∷ ss) =
    rw (has_name-insert_by_date name s (sort_by_date ss), has_name-sort_by_date name ss) refl

is_distinct-sort_by_date :
    (ss : List Snapshot) → is_distinct ss ≡ true → is_distinct (sort_by_date ss) ≡ true
unfolding sort_by_date
is_distinct-sort_by_date [] h = refl
is_distinct-sort_by_date (s ∷ ss) h = ground (
  arith,
  is_distinct-insert_by_date s (sort_by_date ss),
  has_name-sort_by_date s.name ss,
  is_distinct-sort_by_date ss,
)

or_idem : (a b : Bool) → a || b ≡ a || (a || b)
or_idem true b = refl
or_idem false b = refl

has_name-merge_entry :
    (name g : Text) (e : Entry) (ss : List Snapshot)
    → has_name name (merge_entry g e ss) ≡ text_eq e.name name || has_name name ss
unfolding merge_entry
has_name-merge_entry name g e [] = refl
has_name-merge_entry name g e (s ∷ ss) = elim (Bool-cases (text_eq s.name e.name)) [
  | inl q ↦
      rw
        (
          q,
          if◌then◌else◌,
          ap (λ (t : Text). text_eq t name) (sym ((text_eq_iff s.name e.name).0 q)),
        )
        (or_idem (text_eq s.name name) (has_name name ss))
  | inr q ↦
      rw (q, if◌then◌else◌, has_name-merge_entry name g e ss)
        (or_exchange (text_eq s.name name) (text_eq e.name name) (has_name name ss))
]

is_distinct-merge_entry :
    (g : Text) (e : Entry) (ss : List Snapshot)
    → is_distinct ss ≡ true
    → is_distinct (merge_entry g e ss) ≡ true
unfolding merge_entry
is_distinct-merge_entry g e [] h = refl
is_distinct-merge_entry g e (s ∷ ss) h = ground (
  arith,
  has_name-merge_entry s.name g e ss,
  is_distinct-merge_entry g e ss,
  text_eq_sym s.name e.name,
)

is_distinct-merge_entries :
    (g : Text) (es : List Entry) (ss : List Snapshot)
    → is_distinct ss ≡ true
    → is_distinct (merge_entries g es ss) ≡ true
unfolding merge_entries
is_distinct-merge_entries g [] ss h = h
is_distinct-merge_entries g (e ∷ es) ss h =
    is_distinct-merge_entries g es (merge_entry g e ss) (is_distinct-merge_entry g e ss h)

is_distinct-merge_images :
    (images : List (Text × List Entry)) (ss : List Snapshot)
    → is_distinct ss ≡ true
    → is_distinct (merge_images images ss) ≡ true
unfolding merge_images
is_distinct-merge_images [] ss h = h
is_distinct-merge_images ((g, es) ∷ more) ss h =
    is_distinct-merge_images more (merge_entries g es ss) (is_distinct-merge_entries g es ss h)

is_listed-insert_by_date :
    (name file : Text) (s : Snapshot) (ss : List Snapshot)
    → is_listed name file (insert_by_date s ss) ≡ is_listed name file (s ∷ ss)
unfolding insert_by_date
is_listed-insert_by_date name file s [] = refl
is_listed-insert_by_date name file s (t ∷ ts) = elim (Bool-cases (ltb t.date s.date)) [
  | inr e ↦ rw (e, if◌then◌else◌) refl
  | inl e ↦
      rw (e, if◌then◌else◌, is_listed-insert_by_date name file s ts)
        (or_exchange (text_eq t.name name && one_of file t.files)
          (text_eq s.name name && one_of file s.files) (is_listed name file ts))
]

is_listed-sort_by_date :
    (name file : Text) (ss : List Snapshot)
    → is_listed name file (sort_by_date ss) ≡ is_listed name file ss
unfolding sort_by_date
is_listed-sort_by_date name file [] = refl
is_listed-sort_by_date name file (s ∷ ss) =
    rw (is_listed-insert_by_date name file s (sort_by_date ss), is_listed-sort_by_date name file ss)
      refl

-- What merge lists is in the order of the dates, with each name once, and it tells of each name and
-- each file that the snapshot is in the file exactly if the image of that file has one of that name.
pub merge-lists :
    (images : List (Text × List Entry))
    → (is_sorted (merge images) ≡ true)
      × (is_distinct (merge images) ≡ true)
      × ((name file : Text) → is_listed name file (merge images) ≡ is_in_images name file images)
unfolding merge
merge-lists images = (
  is_sorted-sort_by_date (merge_images images []),
  is_distinct-sort_by_date (merge_images images []) (is_distinct-merge_images images [] refl),
  λ name file.
      rw
        (
          is_listed-sort_by_date name file (merge_images images []),
          is_listed-merge_images name file images [],
        )
        (or_false (is_in_images name file images)),
)
