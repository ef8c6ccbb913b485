-- ===== src/Snapshots/Merging.antt =====
-- src/core/snapshots.cpp: the names and the files of the snapshots that merge() lists.
use qemu_gui_manager.Text.Laws.{text_eq_iff, text_eq_sym, one_of-append}
use qemu_gui_manager.Prelude.{
  ◌≡◌, refl, sym, ap, subst, inl, inr, Bool, true, false, ◌&&◌, ◌||◌, List, [], ◌∷◌, ◌++◌,
  if◌then◌else◌, Bool-cases, or_exchange,
}
use qemu_gui_manager.Text.{Text, text_eq, one_of}
use qemu_gui_manager.Snapshots.Images.{merge_entry, merge_entries, merge_images, Entry, Snapshot}

-- Whether a snapshot of a name is listed on a file.
abbrev pub is_listed : Text → Text → List Snapshot → Bool
is_listed name file [] = false
is_listed name file (s ∷ ss) =
    (text_eq s.name name && one_of file s.files) || is_listed name file ss

-- Whether a snapshot of a name is among those of a file.
abbrev pub is_among : Text → List Entry → Bool
is_among name [] = false
is_among name (e ∷ es) = text_eq e.name name || is_among name es

abbrev pub is_in_images : Text → Text → List (Text × List Entry) → Bool
is_in_images name file [] = false
is_in_images name file ((f, es) ∷ more) =
    (text_eq f file && is_among name es) || is_in_images name file more

-- Rearrangements of alternatives.
or_pull : (p q r s : Bool) → (p && q) || ((p && r) || s) ≡ (p && (r || q)) || s
or_pull true true true s = refl
or_pull true true false s = refl
or_pull true false true s = refl
or_pull true false false s = refl
or_pull false q r s = refl

or_swap : (a b c : Bool) → a || (b || c) ≡ (b || a) || c
or_swap true true c = refl
or_swap true false c = refl
or_swap false true c = refl
or_swap false false c = refl

and_pull : (n g o r : Bool) → (n && (g || o)) || r ≡ (g && n) || ((n && o) || r)
and_pull true true o r = refl
and_pull true false o r = refl
and_pull false true o r = refl
and_pull false false o r = refl

and_swap : (n g : Bool) → (n && (g || false)) || false ≡ (g && n) || false
and_swap true true = refl
and_swap true false = refl
and_swap false true = refl
and_swap false false = refl

or_and_false : (g r : Bool) → r ≡ (g && false) || r
or_and_false true r = refl
or_and_false false r = refl

one_of-add :
    (file g : Text) (fs : List Text)
    → one_of file (if one_of g fs then fs else fs ++ (g ∷ [])) ≡ text_eq g file || one_of file fs
one_of-add file g fs = elim (Bool-cases (one_of g fs)) [
  | inr e ↦ rw (e, if◌then◌else◌) (one_of-append file g fs)
  | inl e ↦ elim (Bool-cases (text_eq g file)) [
    | inr q ↦ rw (e, q, if◌then◌else◌) refl
    | inl q ↦
        let o = subst (λ (t : Text). one_of t fs ≡ true) ((text_eq_iff g file).0 q) e in
        rw (e, q, if◌then◌else◌) o
  ]
]

module _ (name file g : Text) where
  is_listed-merge_entry :
      (e : Entry) (ss : List Snapshot)
      → is_listed name file (merge_entry g e ss)
        ≡ (text_eq g file && text_eq e.name name) || is_listed name file ss
  unfolding merge_entry
  is_listed-merge_entry e [] =
      rw (text_eq_sym file g) (and_swap (text_eq e.name name) (text_eq g file))
  is_listed-merge_entry e (s ∷ ss) = elim (Bool-cases (text_eq s.name e.name)) [
    | inl q ↦
        rw
          (
            q,
            if◌then◌else◌,
            one_of-add file g s.files,
            ap (λ (t : Text). text_eq t name) (sym ((text_eq_iff s.name e.name).0 q)),
          )
          (and_pull (text_eq s.name name) (text_eq g file) (one_of file s.files)
            (is_listed name file ss))
    | inr q ↦
        rw (q, if◌then◌else◌, is_listed-merge_entry e ss)
          (or_exchange (text_eq s.name name && one_of file s.files)
            (text_eq g file && text_eq e.name name) (is_listed name file ss))
  ]

  is_listed-merge_entries :
      (es : List Entry) (ss : List Snapshot)
      → is_listed name file (merge_entries g es ss)
        ≡ (text_eq g file && is_among name es) || is_listed name file ss
  unfolding merge_entries
  is_listed-merge_entries [] ss = or_and_false (text_eq g file) (is_listed name file ss)
  is_listed-merge_entries (e ∷ es) ss =
      rw (is_listed-merge_entries es (merge_entry g e ss), is_listed-merge_entry e ss)
        (or_pull (text_eq g file) (is_among name es) (text_eq e.name name) (is_listed name file ss))

pub is_listed-merge_images :
    (name file : Text) (images : List (Text × List Entry)) (ss : List Snapshot)
    → is_listed name file (merge_images images ss)
      ≡ is_in_images name file images || is_listed name file ss
unfolding merge_images
is_listed-merge_images name file [] ss = refl
is_listed-merge_images name file ((g, es) ∷ more) ss =
    rw
      (
        is_listed-merge_images name file more (merge_entries g es ss),
        is_listed-merge_entries name file g es ss,
      )
      (or_swap (is_in_images name file more) (text_eq g file && is_among name es)
        (is_listed name file ss))
