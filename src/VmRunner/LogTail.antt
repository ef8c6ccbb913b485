-- ===== src/VmRunner/LogTail.antt =====
-- src/core/vmrunner.cpp: the lines of qemu.log that an error shows.
use qemu_gui_manager.Prelude.{
  ℕ, ◌-◌, ◌≤◌, Bool, true, false, not, ◌&&◌, ◌||◌, Option, none, some, List, [], ◌∷◌, map, arith,
  leb, ◌==◌, if◌then◌else◌, length, drop, length-drop,
}
use qemu_gui_manager.Text.{
  Text, codes, is_empty, starts_with, starts_with_char, split, join, trimmed, contains,
}

-- `[\w.-]`, \w for ASCII alone
abbrev is_name_char : ℕ → Bool
is_name_char c =
    (leb b'a' c && leb c b'z')
    || (leb b'A' c && leb c b'Z')
    || (leb b'0' c && leb c b'9')
    || c == b'_'
    || c == b'.'
    || c == b'-'

colon_after_name : Text → Bool
colon_after_name [] = false
colon_after_name (c ∷ cs) =
    let rest = colon_after_name cs in
    if c == b':' then true else if is_name_char c then rest else false

-- The regular expression ^qemu[\w.-]*:
unfoldable pub is_qemu_message : Text → Bool
unfolding starts_with colon_after_name
is_qemu_message t = starts_with t (codes "qemu") && colon_after_name (drop 4 t)

unfoldable pub is_log_line : Text → Bool
unfolding starts_with
is_log_line t = not (is_empty t || starts_with t (codes "qemu-gui-manager:"))

-- prefix is the file name of the program and a colon
unfoldable pub is_error_line : Text → Text → Bool
unfolding starts_with is_qemu_message
is_error_line prefix t = starts_with t prefix || is_qemu_message t

unfoldable pub is_own_line : Text → Bool
unfolding contains
is_own_line t = not (starts_with_char t b'[' && contains t (codes " virtiofsd"))

unfoldable pub pick_lines : (Text → Bool) → List Text → List Text
pick_lines p [] = []
pick_lines p (t ∷ ts) = let rest = pick_lines p ts in if p t then t ∷ rest else rest

abbrev trimmed_lines : List Text → List Text
trimmed_lines ts = map trimmed ts

-- The lines that are shown; `log` is what the last 16384 bytes of the file say in UTF-8.
unfoldable pub tail_lines : Bool → Text → Text → List Text
unfolding pick_lines is_log_line is_error_line is_own_line split trimmed
tail_lines qemu_errors prefix log =
    let lines = pick_lines is_log_line (trimmed_lines (split b'\n' log)) in
    let errors = pick_lines (is_error_line prefix) lines in
    let own = pick_lines is_own_line lines in
    let pick =
      if not qemu_errors
      then lines
      else if not (is_empty errors)
      then errors
      else if not (is_empty own)
      then own
      else lines in
    drop (length pick - 5) pick

-- logTail; `none` is a log that cannot be read.
unfoldable pub log_tail : Bool → Text → Option Text → Text
unfolding tail_lines join
log_tail qemu_errors prefix none = []
log_tail qemu_errors prefix (some log) = join b'\n' (tail_lines qemu_errors prefix log)

-- At most five lines of the log are shown.
tail_lines-bound :
    (qemu_errors : Bool) (prefix log : Text) → length (tail_lines qemu_errors prefix log) ≤ 5
unfolding tail_lines
tail_lines-bound qemu_errors prefix log = omega (arith, length-drop {A = Text})
