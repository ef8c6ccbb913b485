-- ===== src/ArgsFile/Lines.antt =====
-- ArgsFile::parse and ArgsFile::toText on one line.
use qemu_gui_manager.Prelude.{
  ℕ, ◌≡◌, refl, ◌∙◌, ◌⊎◌, inl, inr, true, false, none, some, [], ◌∷◌, ◌++◌, append-nil, arith,
  if◌then◌else◌, Option-cases, take,
}
use qemu_gui_manager.Text.{
  Text, codes, one_of, has_char, index_of, starts_with_char, is_space, is_ascii_space, trimmed,
  has_space, ends_blank,
}
use qemu_gui_manager.Text.Laws.{
  text_eq_iff, index_of-append, index_of-eq-none, take-append_length, drop-append_length,
}
use qemu_gui_manager.Text.Trim.{
  IsTrimmed, trimmed-eq_self, ends_blank-append, index_of_space-append, index_of_space-eq-none,
}
use qemu_gui_manager.ArgsFile.{
  kind_eq, comment_line, named_line, directives, hash, dash, space, strip_dashes, parse_hash,
  parse_option, parse_line, hash_line, spaced_value, kind_text, Kind, blank, comment, option,
  directive, Line,
}

-- The word behind `#`.
abbrev pub hash_word : Text → Text
hash_word body = elim (index_of space body) [ none ↦ body | some at ↦ take at body ]

-- The lines of each kind that the file can hold.
abbrev pub IsWrittenAs : Kind → Line → Type 0
IsWrittenAs blank l = (l.name ≡ []) × (l.value ≡ []) × (l.text ≡ [])
IsWrittenAs comment l =
    (l.name ≡ [])
    × (l.value ≡ [])
    × IsTrimmed l.text
    × (body : Text) × (l.text ≡ hash ∷ body)
    × (one_of (hash_word body) directives ≡ false)
IsWrittenAs option l =
    (l.text ≡ [])
    × (has_space l.name ≡ false)
    × (starts_with_char l.name dash ≡ false)
    × IsTrimmed l.value
    × (l.value ≡ [] → ends_blank (dash ∷ l.name) ≡ false)
IsWrittenAs directive l = (l.text ≡ []) × (one_of l.name directives ≡ true) × IsTrimmed l.value

abbrev pub IsWritten : Line → Type 0
IsWritten l = IsWrittenAs l.kind l

is_space-dash : is_space dash ≡ false
unfolding is_space
is_space-dash = refl

is_space-hash : is_space hash ≡ false
unfolding is_space
is_space-hash = refl

ends_blank-value :
    (name v : Text) (x : ℕ)
    → IsTrimmed v
    → (v ≡ [] → ends_blank (x ∷ name) ≡ false)
    → ends_blank (x ∷ (name ++ spaced_value v)) ≡ false
ends_blank-value name [] x t h = rw append-nil (h refl)
ends_blank-value name (c ∷ v) x (s, e) h = ends_blank-append (x ∷ name) space (c ∷ v) ∙ e

pub strip_dashes-dash :
    (name : Text) → starts_with_char name dash ≡ false → strip_dashes (dash ∷ name) ≡ name
unfolding strip_dashes
strip_dashes-dash [] h = refl
strip_dashes-dash (c ∷ name) h = ground arith

has_space-dash : (name : Text) → has_space name ≡ false → has_space (dash ∷ name) ≡ false
unfolding has_space is_ascii_space
has_space-dash name h = h

parse_option-text :
    (name v : Text)
    → has_space name ≡ false
    → starts_with_char name dash ≡ false
    → IsTrimmed v
    → parse_option (dash ∷ (name ++ spaced_value v)) ≡ named_line option name v
unfolding parse_option
parse_option-text name [] h d t =
    rw append-nil
      (rw (index_of_space-eq-none (dash ∷ name) (has_space-dash name h), strip_dashes-dash name d))
parse_option-text name (c ∷ v) h d t =
    let plain = has_space-dash name h in
    let found =
      index_of_space-append (dash ∷ name) space (c ∷ v) plain (unfold is_ascii_space in refl) in
    rw (found, parse_option)
      (rw (
        take-append_length name (space ∷ c ∷ v),
        drop-append_length space name (c ∷ v),
        strip_dashes-dash name d,
        trimmed-eq_self (c ∷ v) t,
      ))

directive_word :
    (name : Text) → one_of name directives ≡ true → (name ≡ codes "share") ⊎ (name ≡ codes "qemu")
unfolding one_of
directive_word name h =
    ground (arith, text_eq_iff name (codes "share"), text_eq_iff name (codes "qemu"))

directive_plain : (name : Text) → one_of name directives ≡ true → has_char space name ≡ false
unfolding has_char
directive_plain name h = elim (directive_word name h) [ inl e ↦ rw e | inr e ↦ rw e ]

directive_ends : (name : Text) → one_of name directives ≡ true → ends_blank (hash ∷ name) ≡ false
unfolding is_space
directive_ends name h = elim (directive_word name h) [ inl e ↦ rw e | inr e ↦ rw e ]

parse_hash-text :
    (name v : Text)
    → one_of name directives ≡ true
    → IsTrimmed v
    → parse_hash (hash ∷ (name ++ spaced_value v)) (name ++ spaced_value v)
      ≡ named_line directive name v
unfolding parse_hash hash_line
parse_hash-text name [] h t =
    rw append-nil (
      rw (index_of-eq-none space name (directive_plain name h), parse_hash) (rw (h, if◌then◌else◌)))
parse_hash-text name (c ∷ v) h t =
    let found = index_of-append space name (c ∷ v) (directive_plain name h) in
    rw (found, parse_hash)
      (rw (
        take-append_length name (space ∷ c ∷ v),
        drop-append_length space name (c ∷ v),
        h,
        trimmed-eq_self (c ∷ v) t,
        if◌then◌else◌,
      ))

pub named_line-eq :
    (k : Kind) (l : Line) → l.kind ≡ k → l.text ≡ [] → named_line k l.name l.value ≡ l
named_line-eq k l e t = ground arith

pub parse_hash-comment :
    (body : Text)
    → one_of (hash_word body) directives ≡ false
    → parse_hash (hash ∷ body) body ≡ comment_line (hash ∷ body)
unfolding parse_hash hash_line
parse_hash-comment body h = elim (Option-cases (index_of space body)) [
  | inl e ↦ rw (e, parse_hash) (rw (rw (e, hash_word) at h, if◌then◌else◌))
  | inr (i, e) ↦ rw (e, parse_hash) (rw (rw (e, hash_word) at h, if◌then◌else◌))
]

-- A line is read back from its text.
pub parse_line-written :
    (k : Kind) (l : Line) → l.kind ≡ k → IsWrittenAs k l → parse_line (trimmed (kind_text k l)) ≡ l
parse_line-written blank l e (n, v, t) = unfold trimmed parse_line in ground arith
parse_line-written comment l e (n, v, trim, body, b, plain) =
    rw (trimmed-eq_self l.text trim)
      (rw b (unfold parse_line in parse_hash-comment body plain ∙ ground arith))
parse_line-written option l e (t, h, d, v, f) =
    rw
      (trimmed-eq_self (dash ∷ (l.name ++ spaced_value l.value))
        (is_space-dash, ends_blank-value l.name l.value dash v f))
      (unfold parse_line in parse_option-text l.name l.value h d v ∙ named_line-eq option l e t)
parse_line-written directive l e (t, h, v) =
    rw
      (trimmed-eq_self (hash ∷ (l.name ++ spaced_value l.value))
        (is_space-hash, ends_blank-value l.name l.value hash v (λ _. directive_ends l.name h)))
      (unfold parse_line in parse_hash-text l.name l.value h v ∙ named_line-eq directive l e t)

pub kind_eq-eq : (k l : Kind) → kind_eq k l ≡ true → k ≡ l
unfolding kind_eq
kind_eq-eq k l h = ground arith
