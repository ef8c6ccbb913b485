-- ===== src/Importer/Script.antt =====
-- src/core/importer.cpp: the loop of splitCommands over the characters of a script.
use qemu_gui_manager.Prelude.{
  ℕ, zero, suc, Bool, true, not, ◌&&◌, ◌||◌, List, [], ◌∷◌, ◌==◌, if◌then◌else◌, length,
}
use qemu_gui_manager.Text.{Text, is_space}
use qemu_gui_manager.Importer.Words.{
  no_words, add_text, in_a_word, end_word, end_command, expand, Words, Environment,
}

-- What is before the next of a character, and what is behind it, or nothing at the end.
unfoldable pub before_char : ℕ → Text → Text × Text
before_char k [] = ([], [])
before_char k (c ∷ cs) =
    let (a, rest) = before_char k cs in if c == k then ([], cs) else (c ∷ a, rest)

-- What is left of the script from the next end of a line.
unfoldable pub skip_line : Text → Text
skip_line [] = []
skip_line (c ∷ cs) = let rest = skip_line cs in if c == b'\n' then c ∷ cs else rest

-- Behind a backslash: a line continuation, or an escaped character.
unfoldable pub escape_step : Text → Words → Text × Words
escape_step [] s = ([], s)
escape_step (d ∷ cs) s = if d == b'\n' then (cs, s) else (cs, in_a_word (add_text (d ∷ []) s))

-- The characters that a backslash escapes in double quotes.
abbrev pub is_escaped : ℕ → Bool
is_escaped c = c == b'$' || c == b'`' || c == b'"' || c == b'\\' || c == b'\n'

abbrev escaped_text : ℕ → Words → Words
escaped_text d s = if d == b'\n' then s else add_text (d ∷ []) s

-- One round of the loop within double quotes, at a character that does not close them.
unfoldable pub double_step : Environment → ℕ → Text → Words → Text × Words
unfolding expand
double_step env c [] s = if c == b'$' then expand env [] s else ([], add_text (c ∷ []) s)
double_step env c (d ∷ cs) s =
    if c == b'\\' && is_escaped d
    then (cs, escaped_text d s)
    else if c == b'$'
    then expand env (d ∷ cs) s
    else (d ∷ cs, add_text (c ∷ []) s)

-- Behind a double quote, to the next, which is taken; the fuel is the length of the text.
unfoldable pub in_double : Environment → ℕ → Text → Words → Text × Words
unfolding double_step
in_double env fuel [] s = ([], s)
in_double env zero (c ∷ cs) s = (c ∷ cs, s)
in_double env (suc fuel) (c ∷ cs) s =
    let (rest, t) = double_step env c cs s in
    let out = in_double env fuel rest t in if c == b'"' then (cs, s) else out

-- `\n`, `;`, `&` or `|`: && and || are one.
abbrev pub skip_same : ℕ → Text → Text
skip_same c [] = []
skip_same c (d ∷ cs) = if (c == b'&' || c == b'|') && d == c then cs else d ∷ cs

abbrev pub ends_command : ℕ → Bool
ends_command c = c == b'\n' || c == b';' || c == b'&' || c == b'|'

abbrev pub ends_home : Text → Bool
ends_home [] = true
ends_home (c ∷ cs) = c == b'/' || is_space c

abbrev pub single_step : Text × Text → Words → Text × Words
single_step (a, rest) s = (rest, in_a_word (add_text a s))

-- One round of the loop, at a character: what is left of the script, and what was split.
unfoldable pub script_step : Environment → ℕ → Text → Words → Text × Words
unfolding escape_step before_char in_double expand skip_line end_command end_word is_space
script_step env c cs s =
    if c == b'\\'
    then escape_step cs s
    else if c == b'\''
    then single_step (before_char b'\'' cs) s
    else if c == b'"'
    then in_double env (length cs) cs (in_a_word s)
    else if c == b'$'
    then (let (rest, t) = expand env cs s in (rest, in_a_word t))
    else if c == b'#' && not s.in_word
    then (skip_line cs, s)
    else if c == b'~' && not s.in_word && ends_home cs
    then (cs, in_a_word (add_text env.home s))
    else if ends_command c
    then (skip_same c cs, end_command s)
    else if is_space c
    then (cs, end_word s)
    else (cs, in_a_word (add_text (c ∷ []) s))

-- The loop; a round takes a character or more, so the length of the script is fuel enough.
unfoldable pub scan : Environment → ℕ → Text → Words → Words
unfolding script_step
scan env fuel [] s = s
scan env zero (c ∷ cs) s = s
scan env (suc fuel) (c ∷ cs) s = let (rest, t) = script_step env c cs s in scan env fuel rest t

-- splitCommands: the commands, and the notes
unfoldable pub split_commands : Environment → Text → List (List Text) × List Text
unfolding scan end_command
split_commands env script =
    let s = end_command (scan env (length script) script no_words) in (s.commands, s.notes)
