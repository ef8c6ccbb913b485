-- ===== src/ArgsFile/RoundTrip.antt =====
-- ArgsFile::parse after ArgsFile::toText, for whole files.
use qemu_gui_manager.Prelude.{◌≡◌, refl, ◌∙◌, false, [], ◌∷◌, ◌++◌, map, if◌then◌else◌}
use qemu_gui_manager.Text.{Text, has_char, split, trimmed}
use qemu_gui_manager.Text.Trim.{split-append}
use qemu_gui_manager.ArgsFile.{
  ArgsFile, kind_eq, blank_line, newline, parse_line, drop_trailing_blanks, parse, to_text,
  kind_text, blank, Line,
}
use qemu_gui_manager.ArgsFile.Lines.{IsWritten, parse_line-written}

abbrev pub line_text : Line → Text
line_text l = kind_text l.kind l

-- Each line can be held, and holds no line break.
abbrev pub AreWritten : ArgsFile → Type 0
AreWritten [] = Unit
AreWritten (l ∷ ls) = IsWritten l × (has_char newline (line_text l) ≡ false) × AreWritten ls

-- The last line is not blank.
abbrev pub EndsFilled : ArgsFile → Type 0
EndsFilled [] = Unit
EndsFilled (l ∷ []) = kind_eq l.kind blank ≡ false
EndsFilled (l ∷ m ∷ ms) = EndsFilled (m ∷ ms)

abbrev read_line : Text → Line
read_line raw = parse_line (trimmed raw)

read_lines :
    (file : ArgsFile)
    → AreWritten file
    → map read_line (split newline (to_text file)) ≡ file ++ (blank_line ∷ [])
unfolding to_text
read_lines [] h = unfold split trimmed parse_line in refl
read_lines (l ∷ ls) (w, n, h) =
    rw (split-append newline (line_text l) (to_text ls) n)
      (cc (parse_line-written l.kind l refl w, read_lines ls h))

drop-append_blank :
    (file : ArgsFile) → drop_trailing_blanks (file ++ (blank_line ∷ [])) ≡ drop_trailing_blanks file
unfolding drop_trailing_blanks
drop-append_blank [] = refl
drop-append_blank (l ∷ ls) = rw (drop-append_blank ls, drop_trailing_blanks)

drop-eq_self : (file : ArgsFile) → EndsFilled file → drop_trailing_blanks file ≡ file
unfolding drop_trailing_blanks
drop-eq_self [] h = refl
drop-eq_self (l ∷ []) h = rw (h, if◌then◌else◌)
drop-eq_self (l ∷ m ∷ ms) h = rw (drop-eq_self (m ∷ ms) h, drop_trailing_blanks)

-- A file whose lines can all be written on a line of their own, as AreWritten says, and that does
-- not end with a blank line is read back from its text.
pub parse-to_text :
    (file : ArgsFile) → AreWritten file → EndsFilled file → parse (to_text file) ≡ file
unfolding parse
parse-to_text file h e = rw (read_lines file h) (drop-append_blank file ∙ drop-eq_self file e)
