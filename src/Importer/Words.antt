-- ===== src/Importer/Words.antt =====
-- src/core/importer.cpp: splitCommands, which splits a script into words as sh would.
use qemu_gui_manager.Prelude.{
  ℕ, Bool, true, false, ◌&&◌, ◌||◌, Option, none, some, List, [], ◌∷◌, ◌++◌, leb, ◌==◌,
  if◌then◌else◌,
}
use qemu_gui_manager.Text.{Text, codes, is_empty, text_eq, one_of}
use qemu_gui_manager.Numbers.{is_digit}

-- `\w` of a regular expression without the properties of Unicode
abbrev pub is_letter : ℕ → Bool
is_letter c = (leb b'a' c && leb c b'z') || (leb b'A' c && leb c b'Z') || c == b'_'

unfoldable pub is_word_char : ℕ → Bool
unfolding is_digit
is_word_char c = is_letter c || is_digit c

-- `\w*` at the start, and what is behind it
unfoldable pub take_word : Text → Text × Text
unfolding is_word_char
take_word [] = ([], [])
take_word (c ∷ cs) =
    let (w, rest) = take_word cs in if is_word_char c then (c ∷ w, rest) else ([], c ∷ cs)

abbrev pub equals_sign : ℕ
equals_sign = b'='

abbrev assigned_to : ℕ → Text × Text → Option (Text × Text)
assigned_to c (w, []) = none
assigned_to c (w, d ∷ rest) = if d == equals_sign then some (c ∷ w, rest) else none

-- `^[A-Za-z_]\w*=`: the name, and what is behind the sign
unfoldable pub assignment : Text → Option (Text × Text)
unfolding take_word
assignment [] = none
assignment (c ∷ cs) = if is_letter c then assigned_to c (take_word cs) else none

-- The script's variables, the last set first, and what was split so far.
pub record Words : Type 0 where
  pub vars : List (Text × Text)
  pub notes : List Text
  pub commands : List (List Text)
  pub words : List Text
  pub word : Text
  pub in_word : Bool

abbrev pub no_words : Words
no_words = record { vars = []; notes = []; commands = []; words = []; word = []; in_word = false }

-- The environment of the manager: qEnvironmentVariable, and QDir::homePath().
pub record Environment : Type 0 where
  pub value : Text → Option Text
  pub home : Text

abbrev pub add_text : Text → Words → Words
add_text t s = record s { word = s.word ++ t }

abbrev pub in_a_word : Words → Words
in_a_word s = record s { in_word = true }

unfoldable pub note : Text → Words → Words
unfolding one_of
note t s = if one_of t s.notes then s else record s { notes = s.notes ++ (t ∷ []) }

unfoldable pub end_word : Words → Words
end_word s =
    if s.in_word
    then record s { words = s.words ++ (s.word ∷ []); word = []; in_word = false }
    else s

-- The variables that words set, if all of them are assignments.
unfoldable pub set_vars : List Text → List (Text × Text) → Option (List (Text × Text))
unfolding assignment
set_vars [] vars = some vars
set_vars (w ∷ ws) vars = elim (assignment w) [ none ↦ none | some a ↦ set_vars ws (a ∷ vars) ]

abbrev pub assigned : List Text → List Text
assigned [] = []
assigned (w ∷ ws) = if text_eq w (codes "export") then ws else w ∷ ws

abbrev pub keep_or : {A : Type 0} → A → Option A → A
keep_or a none = a
keep_or a (some b) = b

abbrev pub push_command : Words → Words
push_command s = if is_empty s.words then s else record s {
  vars = keep_or s.vars (set_vars (assigned s.words) s.vars);
  commands = s.commands ++ (s.words ∷ []);
  words = [];
}

unfoldable pub end_command : Words → Words
unfolding end_word text_eq set_vars
end_command s = push_command (end_word s)

unfoldable pub lookup : Text → List (Text × Text) → Option Text
unfolding text_eq
lookup name [] = none
lookup name ((n, v) ∷ vars) = if text_eq n name then some v else lookup name vars

-- The variable behind a `$`: its name, and what is behind it.
abbrev pub braced : Text × Text → Option (Text × Text)
braced ([], rest) = none
braced (c ∷ w, []) = none
braced (c ∷ w, d ∷ rest) = if d == b'}' then some (c ∷ w, rest) else none

abbrev pub bare : Text × Text → Option (Text × Text)
bare ([], rest) = none
bare (c ∷ w, rest) = some (c ∷ w, rest)

unfoldable pub variable : Text → Option (Text × Text)
unfolding take_word
variable [] = none
variable (c ∷ cs) = if c == b'{' then braced (take_word cs) else bare (take_word (c ∷ cs))

abbrev as_written : Text → Text → Text
as_written [] name = codes "$" ++ name
as_written (c ∷ cs) name =
    if c == b'{' then codes "${" ++ (name ++ codes "}") else codes "$" ++ name

-- expand, behind the `$`: what is left of the script, and the text is added to the word
abbrev expand_variable : Environment → Text → Text → Words → Words
expand_variable env cs name s = elim (lookup name s.vars) [
  | some v ↦ add_text v s
  | none ↦ elim (env.value name) [
    | some v ↦ add_text v s
    | none ↦
        add_text (as_written cs name)
          (note (codes "Unknown variable " ++ (as_written cs name ++ codes ", copied as it is.")) s)
  ]
]

abbrev starts_expansion : Text → Bool
starts_expansion [] = false
starts_expansion (c ∷ cs) = c == b'(' || c == b'{'

unfoldable pub expand : Environment → Text → Words → Text × Words
unfolding variable lookup note
expand env cs s = elim (variable cs) [
  | some (name, rest) ↦ (rest, expand_variable env cs name s)
  | none ↦ (
    cs,
    add_text (codes "$") (
        if starts_expansion cs
        then note (codes "Command substitutions and ${...} expansions are copied as they are.") s
        else s),
  )
]
