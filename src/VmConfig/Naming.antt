-- ===== src/VmConfig/Naming.antt =====
-- VmConfig::name and setName, qemuBinary and setQemuBinary, one after the other.
use qemu_gui_manager.Prelude.{
  ℕ, zero, suc, ◌≤◌, ◌<◌, ◌≡◌, refl, ◌∙◌, ◌≢◌, inl, inr, true, false, ◌&&◌, none, some, [], ◌∷◌,
  arith, if◌then◌else◌, Bool-cases, Option-cases, length, insert_at, get_elem?-insert_at,
}
use qemu_gui_manager.OptionValue.Lookup.{implied-set}
use qemu_gui_manager.OptionValue.RoundTrip.{parse-to_string}
use qemu_gui_manager.Text.{Text, codes, is_empty, text_eq, has_char, starts_with}
use qemu_gui_manager.OptionValue.{equals, parse, implied, has, set, escape, to_string}
use qemu_gui_manager.OptionValue.Clean.{IsClean, parse-IsReadable}
use qemu_gui_manager.OptionValue.Edits.{
  IsKeyName, set-IsReadable, is_empty-eq-false, get-reparse_self, implied-reparse, implied-escape,
}
use qemu_gui_manager.ArgsFile.{
  ArgsFile, kind_eq, named_line, canonical_name, is_line, line_index, text_at, value_at,
  set_text_at, set_value_at, Kind, option, directive, Line,
}
use qemu_gui_manager.ArgsFile.Index.{
  line_index-cons, line_index-bound, line_index-set_text_at, text_at-set_text_at,
}
use qemu_gui_manager.VmConfig.Name.{
  name_key, guest_key, implied_or, set_implied_or, name, first_option, set_name, qemu_key,
  qemu_binary, leading_comments, set_qemu_binary,
}

-- A value that the implied key or the key `k` gives is read back after the edit.
pub implied_or-reparse :
    (t k x : Text)
    → IsClean t
    → IsKeyName k
    → x ≢ []
    → has_char equals x ≡ false
    → implied_or k (parse (to_string (set_implied_or k x (parse t)))) ≡ x
unfolding implied_or set_implied_or
implied_or-reparse t k x clean key filled plain =
    elim (Bool-cases (is_empty (implied (parse t)) && has k (parse t))) [
      | inr e ↦
          rw (e, if◌then◌else◌, implied-reparse t x clean filled plain, is_empty-eq-false x filled)
            refl
      | inl e ↦
          rw (e, if◌then◌else◌)
            (rw
              (
                get-reparse_self t k x clean key,
                parse-to_string (set k x (parse t))
                    (set-IsReadable k x (parse t) key (parse-IsReadable t clean)),
                implied-set k x (parse t) key.0,
              )
              (ground arith))
    ]

module _ (n : Text) (k : Kind) (l : Line) where
  -- A line put into a file that has none of its kind is found where it was put.
  pub line_index-insert_at :
      (i : ℕ) (file : ArgsFile)
      → is_line n k l ≡ true
      → line_index n k file ≡ none
      → i ≤ length file
      → line_index n k (insert_at i l file) ≡ some i
  line_index-insert_at zero file h e le = rw (line_index-cons, h) refl
  line_index-insert_at (suc i) [] h e le = absurd (omega (arith, le))
  line_index-insert_at (suc i) (m ∷ ls) h e le = ground (
    arith,
    line_index-cons n k m ls,
    line_index-cons n k m (insert_at i l ls),
    line_index-insert_at i ls h,
  )

pub text_at-insert_at :
    (i : ℕ) (l : Line) (file : ArgsFile)
    → i ≤ length file
    → text_at (insert_at i l file) i ≡ l.value
unfolding text_at
text_at-insert_at i l file le = ground (arith, get_elem?-insert_at i l file le)

pub first_option-le : (args : ArgsFile) → first_option args ≤ length args
unfolding first_option
first_option-le [] = omega arith
first_option-le (l ∷ ls) = ground (arith, first_option-le ls)

leading_comments-le : (args : ArgsFile) → leading_comments args ≤ length args
unfolding leading_comments
leading_comments-le [] = omega arith
leading_comments-le (l ∷ ls) = ground (arith, leading_comments-le ls)

name-found :
    (args : ArgsFile) (i : ℕ)
    → line_index name_key option args ≡ some i
    → name args ≡ implied_or guest_key (parse (text_at args i))
unfolding name value_at
name-found args i e = rw (e, name) refl

set_name-found :
    (x : Text) (args : ArgsFile) (i : ℕ)
    → line_index name_key option args ≡ some i
    → set_name x args
      ≡ set_text_at i (to_string (set_implied_or guest_key x (parse (text_at args i)))) args
unfolding set_name value_at set_value_at
set_name-found x args i e = rw (e, set_name) refl

set_name-missing :
    (x : Text) (args : ArgsFile)
    → line_index name_key option args ≡ none
    → set_name x args ≡ insert_at (first_option args) (named_line option name_key (escape x)) args
unfolding set_name
set_name-missing x args e = rw (e, set_name) refl

guest_key-IsKeyName : IsKeyName guest_key
unfolding has_char
guest_key-IsKeyName = ((λ e. cc), refl, refl)

-- A name that is not empty and has no `=` is read back after it is set, whether the file has a
-- -name line or not. If it has one, the value of the first is clean: none of its parts starts
-- with `=`, the first starts with no comma, and no later part is empty.
pub name-set_name :
    (x : Text) (args : ArgsFile)
    → x ≢ []
    → has_char equals x ≡ false
    → ((i : ℕ) → line_index name_key option args ≡ some i → IsClean (text_at args i))
    → name (set_name x args) ≡ x
unfolding kind_eq text_eq canonical_name
name-set_name x args filled plain clean = elim (Option-cases (line_index name_key option args)) [
  | inl e ↦
      let l = named_line option name_key (escape x) in
      let le = first_option-le args in
      let at =
        name-found (insert_at (first_option args) l args) (first_option args)
          (line_index-insert_at name_key option l (first_option args) args refl e le) in
      rw (set_name-missing x args e, at, text_at-insert_at (first_option args) l args le)
        (unfold implied_or in rw (implied-escape x plain, is_empty-eq-false x filled) refl)
  | inr (i, e) ↦
      let v = to_string (set_implied_or guest_key x (parse (text_at args i))) in
      let at =
        name-found (set_text_at i v args) i (line_index-set_text_at name_key option v i args ∙ e) in
      rw
        (
          set_name-found x args i e,
          at,
          text_at-set_text_at v i args (line_index-bound name_key option args i e),
        )
        (implied_or-reparse (text_at args i) guest_key x (clean i e) guest_key-IsKeyName filled
          plain)
]

qemu_binary-found :
    (home : Text) (args : ArgsFile) (i : ℕ)
    → line_index qemu_key directive args ≡ some i
    → starts_with (text_at args i) (codes "~/") ≡ false
    → qemu_binary home args ≡ text_at args i
unfolding qemu_binary
qemu_binary-found home args i e p = rw (e, p, qemu_binary) refl

set_qemu_binary-found :
    (path : Text) (args : ArgsFile) (i : ℕ)
    → path ≢ []
    → line_index qemu_key directive args ≡ some i
    → set_qemu_binary path args ≡ set_text_at i path args
unfolding set_qemu_binary
set_qemu_binary-found path args i n e = rw (e, is_empty-eq-false path n, set_qemu_binary) refl

set_qemu_binary-missing :
    (path : Text) (args : ArgsFile)
    → path ≢ []
    → line_index qemu_key directive args ≡ none
    → set_qemu_binary path args
      ≡ set_text_at
          (leading_comments args)
          path
          (insert_at (leading_comments args) (named_line directive qemu_key []) args)
unfolding set_qemu_binary
set_qemu_binary-missing path args n e = rw (e, is_empty-eq-false path n, set_qemu_binary) refl

length-insert_at :
    (i : ℕ) (l : Line) (file : ArgsFile) → i ≤ length file → i < length (insert_at i l file)
length-insert_at zero l file h = omega arith
length-insert_at (suc i) l [] h = omega (arith, h)
length-insert_at (suc i) l (m ∷ ls) h = omega (arith, length-insert_at i l ls (omega (arith, h)))

-- The path of the QEMU binary that is set, if it is not empty and does not start
-- with `~/`, is read back, whether the file has a #qemu line or not.
qemu_binary-set_qemu_binary :
    (home path : Text) (args : ArgsFile)
    → path ≢ []
    → starts_with path (codes "~/") ≡ false
    → qemu_binary home (set_qemu_binary path args) ≡ path
unfolding kind_eq text_eq canonical_name
qemu_binary-set_qemu_binary home path args filled plain =
    elim (Option-cases (line_index qemu_key directive args)) [
      | inl e ↦
          let top = leading_comments args in
          let l = named_line directive qemu_key [] in
          let file = insert_at top l args in
          let same =
            text_at-set_text_at path top file
              (length-insert_at top l args (leading_comments-le args)) in
          let at =
            line_index-set_text_at qemu_key directive path top file
            ∙ line_index-insert_at qemu_key directive l top args refl e
                (leading_comments-le args) in
          rw (set_qemu_binary-missing path args filled e)
            (qemu_binary-found home _ top at (rw same plain) ∙ same)
      | inr (i, e) ↦
          let same =
            text_at-set_text_at path i args (line_index-bound qemu_key directive args i e) in
          let at = line_index-set_text_at qemu_key directive path i args ∙ e in
          rw (set_qemu_binary-found path args i filled e)
            (qemu_binary-found home _ i at (rw same plain) ∙ same)
    ]
