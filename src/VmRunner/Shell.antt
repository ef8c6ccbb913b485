-- ===== src/VmRunner/Shell.antt =====
-- The words of a line of a shell, for shellQuote of src/core/vmrunner.cpp.
use qemu_gui_manager.Text.{Text}
use qemu_gui_manager.Prelude.{
  ℕ, Bool, ◌||◌, Option, none, some, List, [], ◌∷◌, ◌++◌, ◌==◌, if◌then◌else◌,
}

abbrev pub quote : ℕ
quote = b'\''

-- How a POSIX shell splits a line into words: between words, in a word, within single quotes, or
-- behind a backslash.
pub data Mode : Type 0 where
  between in_word in_quotes escaped : Mode

-- What means something else to the shell where it is not quoted: these lines are not read.
abbrev pub is_special : ℕ → Bool
is_special c =
    c == b'\t'
    || c == b'\n'
    || c == b'"'
    || c == b'$'
    || c == b'`'
    || c == b'&'
    || c == b'|'
    || c == b';'
    || c == b'<'
    || c == b'>'
    || c == b'('
    || c == b')'
    || c == b'*'
    || c == b'?'
    || c == b'['
    || c == b'#'
    || c == b'~'
    || c == b'!'
    || c == b'{'
    || c == b'}'

abbrev pub prepend : Text → Option (List Text) → Option (List Text)
prepend w none = none
prepend w (some ws) = some (w ∷ ws)

unfoldable pub shell_words : Mode → Text → Text → Option (List Text)
shell_words between cur [] = some []
shell_words between cur (c ∷ cs) =
    let next = shell_words between [] cs in
    let quoted = shell_words in_quotes [] cs in
    let behind = shell_words escaped [] cs in
    let word = shell_words in_word (c ∷ []) cs in
    if c == b' '
    then next
    else if c == quote
    then quoted
    else if c == b'\\'
    then behind
    else if is_special c
    then none
    else word
shell_words in_word cur [] = some (cur ∷ [])
shell_words in_word cur (c ∷ cs) =
    let next = prepend cur (shell_words between [] cs) in
    let quoted = shell_words in_quotes cur cs in
    let behind = shell_words escaped cur cs in
    let word = shell_words in_word (cur ++ (c ∷ [])) cs in
    if c == b' '
    then next
    else if c == quote
    then quoted
    else if c == b'\\'
    then behind
    else if is_special c
    then none
    else word
shell_words in_quotes cur [] = none
shell_words in_quotes cur (c ∷ cs) =
    let closed = shell_words in_word cur cs in
    let word = shell_words in_quotes (cur ++ (c ∷ [])) cs in if c == quote then closed else word
shell_words escaped cur [] = none
shell_words escaped cur (c ∷ cs) = shell_words in_word (cur ++ (c ∷ [])) cs
