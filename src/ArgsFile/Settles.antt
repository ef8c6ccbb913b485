-- ===== src/ArgsFile/Settles.antt =====
-- ArgsFile::toText after ArgsFile::parse, and parse again.
use qemu_gui_manager.Prelude.{
  ℕ, suc, ◌≡◌, refl, inl, inr, false, List, [], ◌∷◌, ◌++◌, map, arith, ◌==◌, if◌then◌else◌,
  Bool-cases, Option-cases, take, drop,
}
use qemu_gui_manager.Text.{Text, one_of, has_char, index_of, split, trimmed, index_of_space}
use qemu_gui_manager.Text.Laws.{has_char-append}
use qemu_gui_manager.Text.Trim.{trimmed-IsTrimmed, has_char-trimmed, has_char-take, has_char-drop}
use qemu_gui_manager.ArgsFile.{
  ArgsFile, kind_eq, directives, hash, dash, space, newline, strip_dashes, parse_hash, parse_option,
  parse_line, drop_trailing_blanks, parse, to_text, hash_line, spaced_value, blank, Line,
}
use qemu_gui_manager.ArgsFile.RoundTrip.{line_text, AreWritten, EndsFilled, parse-to_text}
use qemu_gui_manager.ArgsFile.Parsed.{
  three_dashes, parse_option_plain, parse_option_spaced, parse_line-IsWritten,
}

-- A line that holds no line break is written without one.
has_newline-spaced :
    (x : ℕ) (name v : Text)
    → (x == newline) ≡ false
    → has_char newline name ≡ false
    → has_char newline v ≡ false
    → has_char newline (x ∷ (name ++ spaced_value v)) ≡ false
unfolding has_char
has_newline-spaced x name [] e n h = ground (arith, has_char-append newline name [])
has_newline-spaced x name (c ∷ v) e n h =
    ground (arith, has_char-append newline name (space ∷ c ∷ v))

has_newline-strip_dashes :
    (t : Text) → has_char newline t ≡ false → has_char newline (strip_dashes t) ≡ false
unfolding strip_dashes
has_newline-strip_dashes t h =
    ground (arith, has_char-drop newline 2 t h, has_char-drop newline 1 t h)

-- `parse_line` makes no line break.
abbrev OneLine : Line → Type 0
OneLine l = has_char newline (line_text l) ≡ false

module _ (t : Text) (h : has_char newline t ≡ false) where
  parse_option-OneLine : OneLine (parse_option t)
  parse_option-OneLine = elim (Option-cases (index_of_space t)) [
    | inl e ↦ rw (parse_option_plain t e) (
        has_newline-spaced dash (strip_dashes t) [] refl (has_newline-strip_dashes t h)
          (unfold has_char in refl))
    | inr (i, e) ↦ rw (parse_option_spaced t i e) (
        has_newline-spaced dash (strip_dashes (take i t)) (trimmed (drop (suc i) t)) refl
          (has_newline-strip_dashes (take i t) (has_char-take newline i t h))
          (has_char-trimmed newline (drop (suc i) t) (has_char-drop newline (suc i) t h)))
  ]

  hash_line-OneLine :
      (word v : Text)
      → has_char newline word ≡ false
      → has_char newline v ≡ false
      → OneLine (hash_line t word v)
  unfolding hash_line
  hash_line-OneLine word v w n = elim (Bool-cases (one_of word directives)) [
    | inl e ↦ rw (e, if◌then◌else◌) (has_newline-spaced hash word v refl w n)
    | inr e ↦ rw (e, if◌then◌else◌) h
  ]

parse_hash-OneLine :
    (t body : Text)
    → has_char newline t ≡ false
    → has_char newline body ≡ false
    → OneLine (parse_hash t body)
unfolding parse_hash
parse_hash-OneLine t body h b = elim (Option-cases (index_of space body)) [
  | inl e ↦ rw (e, parse_hash) (hash_line-OneLine t h body [] b (unfold has_char in refl))
  | inr (i, e) ↦
      rw (e, parse_hash)
        (hash_line-OneLine t h (take i body) (trimmed (drop (suc i) body))
          (has_char-take newline i body b)
          (has_char-trimmed newline (drop (suc i) body) (has_char-drop newline (suc i) body b)))
]

has_char-tail : (c : ℕ) (t : Text) → has_char newline (c ∷ t) ≡ false → has_char newline t ≡ false
unfolding has_char
has_char-tail c t h = ground arith

parse_line-OneLine : (t : Text) → has_char newline t ≡ false → OneLine (parse_line t)
unfolding parse_line
parse_line-OneLine [] h = unfold has_char in refl
parse_line-OneLine (c ∷ body) h = elim (Bool-cases (c == hash)) [
  | inl e ↦
      rw (e, parse_line, if◌then◌else◌)
        (parse_hash-OneLine (c ∷ body) body h (has_char-tail c body h))
  | inr e ↦ elim (Bool-cases (c == dash)) [
    | inl d ↦ rw (e, d, parse_line, if◌then◌else◌) (parse_option-OneLine (c ∷ body) h)
    | inr d ↦ rw (e, d, parse_line, if◌then◌else◌) (unfold has_char in h)
  ]
]

-- No line of the text starts with three dashes.
abbrev NoTripleDash : List Text → Type 0
NoTripleDash [] = Unit
NoTripleDash (t ∷ ts) = (three_dashes (trimmed t) ≡ false) × NoTripleDash ts

abbrev pub IsPlain : Text → Type 0
IsPlain t = NoTripleDash (split newline t)

abbrev NoNewlines : List Text → Type 0
NoNewlines [] = Unit
NoNewlines (t ∷ ts) = (has_char newline t ≡ false) × NoNewlines ts

split-NoNewlines : (t : Text) → NoNewlines (split newline t)
unfolding split has_char
split-NoNewlines [] = (refl, tt)
split-NoNewlines (c ∷ t) = ground (arith, split-NoNewlines t)

read-AreWritten :
    (ts : List Text)
    → NoTripleDash ts
    → NoNewlines ts
    → AreWritten (map (λ raw. parse_line (trimmed raw)) ts)
read-AreWritten [] d n = tt
read-AreWritten (t ∷ ts) (d, ds) (n, ns) = (
  parse_line-IsWritten (trimmed t) (trimmed-IsTrimmed t) d,
  parse_line-OneLine (trimmed t) (has_char-trimmed newline t n),
  read-AreWritten ts ds ns,
)

drop-AreWritten : (file : ArgsFile) → AreWritten file → AreWritten (drop_trailing_blanks file)
unfolding drop_trailing_blanks
drop-AreWritten [] h = tt
drop-AreWritten (l ∷ ls) (w, n, h) = ground (arith, drop-AreWritten ls h)

drop_step-EndsFilled :
    (l : Line) (ms : ArgsFile)
    → EndsFilled ms
    → EndsFilled
        (elim ms [ [] ↦ if kind_eq l.kind blank then [] else l ∷ [] | m ∷ ms ↦ l ∷ m ∷ ms ])
drop_step-EndsFilled l [] h = ground arith
drop_step-EndsFilled l (m ∷ ms) h = h

drop-EndsFilled : (file : ArgsFile) → EndsFilled (drop_trailing_blanks file)
unfolding drop_trailing_blanks
drop-EndsFilled [] = tt
drop-EndsFilled (l ∷ ls) = drop_step-EndsFilled l (drop_trailing_blanks ls) (drop-EndsFilled ls)

-- Written and read again, a parsed text gives the same lines, if no line of the text starts with
-- three dashes behind its spaces.
pub parse-to_text-parse : (t : Text) → IsPlain t → parse (to_text (parse t)) ≡ parse t
unfolding parse
parse-to_text-parse t h =
    let lines : ArgsFile = map (λ raw. parse_line (trimmed raw)) (split newline t) in
    parse-to_text (drop_trailing_blanks lines)
      (drop-AreWritten lines (read-AreWritten (split newline t) h (split-NoNewlines t)))
      (drop-EndsFilled lines)
