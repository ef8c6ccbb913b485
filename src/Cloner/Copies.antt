-- ===== src/Cloner/Copies.antt =====
-- src/core/vmcloner.cpp: the names and places of the copies.
use qemu_gui_manager.Cloner.{
  writes, complete_base, numbered, free_copy, first_copy, put_copy, copy_file, copy_files,
  renew_lines, plan, Folders, Clone,
}
use qemu_gui_manager.Text.{Text, codes, text_eq, one_of, file_name}
use qemu_gui_manager.Text.Laws.{text_eq_iff, text_eq_sym, one_of-append}
use qemu_gui_manager.Prelude.{
  ℕ, suc, ◌≡◌, refl, ap, inl, inr, Bool, true, false, not, ◌&&◌, some, List, [], ◌∷◌, ◌++◌, arith,
  if◌then◌else◌, Bool-cases, if_cases, length, length-append, drop,
}
use qemu_gui_manager.ArgsFile.{ArgsFile}
use qemu_gui_manager.VmConfig.Files.{files, set_file, FileRef}
use qemu_gui_manager.VmConfig.Name.{name, set_name}
use qemu_gui_manager.Numbers.{number}
use qemu_gui_manager.Numbers.Decimal.{number-injective}
use qemu_gui_manager.Fresh.{first_free_total, first_free-is_free}
use qemu_gui_manager.VmHardware.Disks.{suffix}

append-injective : (a b c : Text) → a ++ c ≡ b ++ c → a ≡ b
append-injective [] [] c e = refl
append-injective [] (y ∷ b) c e = absurd (omega (arith, ap length e, length-append (y ∷ b) c))
append-injective (x ∷ a) [] c e = absurd (omega (arith, ap length e, length-append (x ∷ a) c))
append-injective (x ∷ a) (y ∷ b) c e = cc (append-injective a b c (ap (drop 1) e), e)

prefix-injective : (a b c : Text) → a ++ b ≡ a ++ c → b ≡ c
prefix-injective [] b c e = e
prefix-injective (x ∷ a) b c e = prefix-injective a b c (ap (drop 1) e)

numbered-injective : (name : Text) (m n : ℕ) → numbered name m ≡ numbered name n → m ≡ n
numbered-injective name m n e =
    let behind = codes "." ++ suffix name in
    let numbers =
      prefix-injective (complete_base name) (codes "-" ++ (number m ++ behind))
        (codes "-" ++ (number n ++ behind)) e in
    number-injective m n (append-injective (number m) (number n) behind (ap (drop 1) numbers))

free_copy-total :
    (copy name : Text) (taken : List Text)
    → (t : Text) × (free_copy copy name taken ≡ some t) × (one_of t taken ≡ false)
unfolding free_copy
free_copy-total copy name taken = elim (Bool-cases (one_of copy taken)) [
  | inr e ↦ (copy, rw (e, if◌then◌else◌) refl, e)
  | inl e ↦
      let fuel = suc (length taken) in
      let (n, f) =
        first_free_total (numbered name) (numbered-injective name) fuel taken 2 (omega arith) in
      (numbered name n, rw (e, if◌then◌else◌) f, first_free-is_free (numbered name) fuel taken 2 f)
]

abbrev pub is_distinct : List Text → Bool
is_distinct [] = true
is_distinct (t ∷ ts) = not (one_of t ts) && is_distinct ts

is_distinct-append :
    (t : Text) (ts : List Text)
    → is_distinct ts ≡ true
    → one_of t ts ≡ false
    → is_distinct (ts ++ (t ∷ [])) ≡ true
unfolding one_of
is_distinct-append t [] h n = refl
is_distinct-append t (u ∷ us) h n =
    ground (arith, is_distinct-append t us, one_of-append u t us, text_eq_sym t u)

-- Where the copies go.
abbrev pub targets : List (Text × Text) → List Text
targets [] = []
targets ((from, to) ∷ cs) = to ∷ targets cs

targets-append :
    (cs : List (Text × Text)) (from to : Text)
    → targets (cs ++ ((from, to) ∷ [])) ≡ targets cs ++ (to ∷ [])
targets-append [] from to = refl
targets-append ((f, t) ∷ cs) from to = rw (targets-append cs from to) refl

-- The targets so far are different, and are those of names that are taken.
abbrev IsApart : Folders → Clone → Type 0
IsApart d c =
    (is_distinct (targets c.copies) ≡ true)
    × ((t : Text) → one_of (d.target t) (targets c.copies) ≡ true → one_of t c.taken ≡ true)

module _ (d : Folders) (inj : (a b : Text) → d.target a ≡ d.target b → a ≡ b) where
  target-free :
      (c : Clone) (copy : Text)
      → IsApart d c
      → one_of copy c.taken ≡ false
      → one_of (d.target copy) (targets c.copies) ≡ false
  target-free c copy (distinct, known) free =
      elim (Bool-cases (one_of (d.target copy) (targets c.copies))) [
        | inr e ↦ e
        | inl e ↦ cc (known copy e, free)
      ]

  one_of-taken :
      (c : Clone) (copy t : Text)
      → IsApart d c
      → one_of (d.target t) (targets c.copies) ≡ true
      → one_of t (c.taken ++ (copy ∷ [])) ≡ true
  one_of-taken c copy t (distinct, known) h =
      rw (one_of-append t copy c.taken) (ground (arith, known t h))

  one_of-target :
      (c : Clone) (copy t : Text)
      → IsApart d c
      → one_of (d.target t) (targets c.copies ++ (d.target copy ∷ [])) ≡ true
      → one_of t (c.taken ++ (copy ∷ [])) ≡ true
  one_of-target c copy t a h = elim (Bool-cases (text_eq (d.target copy) (d.target t))) [
    | inl e ↦
        let same =
          (text_eq_iff copy t).1 (inj copy t ((text_eq_iff (d.target copy) (d.target t)).0 e)) in
        rw (one_of-append t copy c.taken) (ground (arith, same))
    | inr e ↦
        one_of-taken c copy t a
          (ground (arith, one_of-append (d.target t) (d.target copy) (targets c.copies)))
  ]

  put_copy-IsApart :
      (file : FileRef) (path : Text) (c : Clone) (copy : Text)
      → IsApart d c
      → one_of copy c.taken ≡ false
      → IsApart d (put_copy d file path c copy)
  put_copy-IsApart file path c copy a free =
      if_cases
        (λ (copies : List (Text × Text)).
          (is_distinct (targets copies) ≡ true)
          × ((t : Text)
              → one_of (d.target t) (targets copies) ≡ true
              → one_of t (c.taken ++ (copy ∷ [])) ≡ true))
        (d.exists path)
        (λ e. rw (targets-append c.copies path (d.target copy)) (
          is_distinct-append (d.target copy) (targets c.copies) a.0 (target-free c copy a free),
          λ t h. one_of-target c copy t a h,
        ))
        (λ e. (a.0, λ t h. one_of-taken c copy t a h))

  copy_file-IsApart :
      (args : ArgsFile) (file : FileRef) (c : Clone)
      → IsApart d c
      → (out : Clone) × (copy_file d args file c ≡ some out) × (IsApart d out)
  unfolding copy_file
  copy_file-IsApart args file c a = elim (Bool-cases (writes args file)) [
    | inr e ↦
        let shared =
          if d.is_relative file.path
          then record c { args = set_file file (d.source file.path) c.args }
          else c in
        (
          shared,
          rw (e, copy_file, if◌then◌else◌) refl,
          if_cases (λ (x : Clone). IsApart d x) (d.is_relative file.path) (λ q. a) (λ q. a),
        )
    | inl e ↦
        let path = d.source file.path in
        let (copy, f, free) = free_copy-total (first_copy d path) (file_name path) c.taken in
        (
          put_copy d file path c copy,
          rw (e, f, copy_file, if◌then◌else◌) refl,
          put_copy-IsApart file path c copy a free,
        )
  ]

  copy_files-IsApart :
      (args : ArgsFile) (fs : List FileRef) (c : Clone)
      → IsApart d c
      → (out : Clone) × (copy_files d args fs c ≡ some out) × (IsApart d out)
  unfolding copy_files
  copy_files-IsApart args [] c a = (c, refl, a)
  copy_files-IsApart args (f ∷ fs) c a =
      let (next, e, b) = copy_file-IsApart args f c a in
      let (out, q, r) = copy_files-IsApart args fs next b in (out, rw (e, copy_files) q, r)

-- A clone is always planned, and no two of the files that are copied for it are copied to the same
-- place, if different names in the folder of the clone are different places.
pub plan-copies :
    (d : Folders) (args : ArgsFile) (new_name : Text)
    → ((a b : Text) → d.target a ≡ d.target b → a ≡ b)
    → (out : ArgsFile) × (copies : List (Text × Text)) × (plan d args new_name ≡ some (out, copies))
      × (is_distinct (targets copies) ≡ true)
unfolding plan
plan-copies d args new_name inj =
    let start : Clone = record { args = set_name new_name args; taken = []; copies = [] } in
    let (c, e, a) = copy_files-IsApart d inj args (files args) start (refl, λ t h. cc h) in
    (renew_lines d 0 c.args, c.copies, rw (e, plan) refl, a.0)
