-- ===== src/ArgsFile.antt =====
-- src/core/argsfile.cpp: the command line of a VM, one option per line.
pub mod Lines
pub mod RoundTrip
pub mod Parsed
pub mod Settles
pub mod Index
pub mod Argv
pub mod Edits
pub mod Apart
pub mod Values
use qemu_gui_manager.Prelude.{
  ℕ, suc, Bool, true, false, ◌&&◌, Option, none, some, List, [], ◌∷◌, ◌++◌, map, ◌==◌,
  if◌then◌else◌, length, get_elem?, take, drop, last, get_first, insert_at, remove_at, modify_at,
}
use qemu_gui_manager.Text.{
  Text, codes, is_empty, text_eq, one_of, index_of, starts_with, split, trimmed, index_of_space,
}
use qemu_gui_manager.OptionValue.{OptionValue, implied, has, to_string}
use qemu_gui_manager.OptionValue

pub data Kind : Type 0 where
  blank comment option directive : Kind

pub record Line : Type 0 where
  pub kind : Kind
  pub name : Text
  pub value : Text
  pub text : Text

-- The class has one member, `lines`.
abbrev pub ArgsFile : Type 0
ArgsFile = List Line

unfoldable pub kind_eq : Kind → Kind → Bool
kind_eq blank blank = true
kind_eq comment comment = true
kind_eq option option = true
kind_eq directive directive = true
kind_eq _ _ = false

abbrev pub blank_line : Line
blank_line = record { kind = blank; name = []; value = []; text = [] }

abbrev pub comment_line : Text → Line
comment_line t = record { kind = comment; name = []; value = []; text = t }

abbrev pub named_line : Kind → Text → Text → Line
named_line k n v = record { kind = k; name = n; value = v; text = [] }

-- kDirectives
abbrev pub directives : List Text
directives = codes "share" ∷ codes "qemu" ∷ []

-- canonicalName
unfoldable pub canonical_name : Text → Text
unfolding text_eq
canonical_name n = if text_eq n (codes "M") then codes "machine" else n

abbrev pub hash : ℕ
hash = b'#'

abbrev pub dash : ℕ
dash = b'-'

abbrev pub space : ℕ
space = b' '

abbrev pub newline : ℕ
newline = b'\n'

-- `mid(startsWith("--") ? 2 : 1)`
unfoldable pub strip_dashes : Text → Text
unfolding starts_with
strip_dashes arg = if starts_with arg (codes "--") then drop 2 arg else drop 1 arg

-- A line that starts with `#`, by the word behind it.
hash_line : Text → Text → Text → Line
unfolding one_of
hash_line line word value =
    if one_of word directives then named_line directive word value else comment_line line

pub parse_hash : Text → Text → Line
unfolding hash_line index_of trimmed
parse_hash line body = elim (index_of space body) [
  | none ↦ hash_line line body []
  | some at ↦ hash_line line (take at body) (trimmed (drop (suc at) body))
]

pub parse_option : Text → Line
unfolding index_of_space trimmed strip_dashes
parse_option line = elim (index_of_space line) [
  | none ↦ named_line option (strip_dashes line) []
  | some at ↦ named_line option (strip_dashes (take at line)) (trimmed (drop (suc at) line))
]

-- One round of the loop of `parse`, on the trimmed line.
pub parse_line : Text → Line
unfolding parse_hash parse_option
parse_line [] = blank_line
parse_line (c ∷ body) =
    if c == hash
    then parse_hash (c ∷ body) body
    else if c == dash
    then parse_option (c ∷ body)
    else comment_line (hash ∷ space ∷ c ∷ body)

-- The loop that removes the last line while it is blank.
pub drop_trailing_blanks : ArgsFile → ArgsFile
unfolding kind_eq
drop_trailing_blanks [] = []
drop_trailing_blanks (l ∷ ls) = elim (drop_trailing_blanks ls) [
  | [] ↦ if kind_eq l.kind blank then [] else l ∷ []
  | m ∷ ms ↦ l ∷ m ∷ ms
]

unfoldable pub parse : Text → ArgsFile
unfolding drop_trailing_blanks parse_line split trimmed
parse t = drop_trailing_blanks (map (λ raw. parse_line (trimmed raw)) (split newline t))

-- `arg.startsWith('-') && arg.size() >= 2`
abbrev pub is_option : Text → Bool
is_option [] = false
is_option (c ∷ []) = false
is_option (c ∷ d ∷ rest) = c == dash

-- The loop of `fromArgv` behind the first argument.
unfoldable pub from_args : (Text → Bool) → List Text → ArgsFile
unfolding strip_dashes
from_args takes_value [] = []
from_args takes_value (arg ∷ []) =
    if is_option arg then named_line option (strip_dashes arg) [] ∷ [] else []
from_args takes_value (arg ∷ next ∷ rest) = elim (is_option arg) [
  | false ↦ from_args takes_value (next ∷ rest)
  | true ↦ elim (takes_value (strip_dashes arg)) [
    | true ↦ named_line option (strip_dashes arg) next ∷ from_args takes_value rest
    | false ↦ named_line option (strip_dashes arg) [] ∷ from_args takes_value (next ∷ rest)
  ]
]

unfoldable pub from_argv : List Text → (Text → Bool) → ArgsFile
unfolding from_args
from_argv argv takes_value = from_args takes_value (drop 1 argv)

abbrev spaced_value : Text → Text
spaced_value v = if is_empty v then [] else space ∷ v

-- The switch of `toText`.
abbrev kind_text : Kind → Line → Text
kind_text blank l = []
kind_text comment l = l.text
kind_text option l = dash ∷ (l.name ++ spaced_value l.value)
kind_text directive l = hash ∷ (l.name ++ spaced_value l.value)

unfoldable pub to_text : ArgsFile → Text
to_text [] = []
to_text (l ∷ ls) = kind_text l.kind l ++ (newline ∷ to_text ls)

abbrev pub line_args : Line → List Text
line_args l =
    if kind_eq l.kind option
    then (dash ∷ l.name) ∷ (if is_empty l.value then [] else l.value ∷ [])
    else []

unfoldable pub argv : ArgsFile → List Text
unfolding kind_eq
argv [] = []
argv (l ∷ ls) = line_args l ++ argv ls

abbrev pub is_line : Text → Kind → Line → Bool
is_line n k l = kind_eq l.kind k && text_eq (canonical_name l.name) n

unfoldable pub indexes_from : ℕ → Text → Kind → ArgsFile → List ℕ
unfolding kind_eq text_eq canonical_name
indexes_from i n k [] = []
indexes_from i n k (l ∷ ls) =
    let rest = indexes_from (suc i) n k ls in if is_line n k l then i ∷ rest else rest

abbrev pub indexes_of : Text → Kind → ArgsFile → List ℕ
indexes_of n k file = indexes_from 0 n k file

-- indexOf, `none` for -1
unfoldable pub line_index : Text → Kind → ArgsFile → Option ℕ
unfolding indexes_from
line_index n k file = get_first (indexes_of n k file)

-- `lines[index].value`; the sources index with what `indexesOf` found, or the loop's counter.
unfoldable pub text_at : ArgsFile → ℕ → Text
text_at file i = elim (get_elem? file i) [ none ↦ [] | some l ↦ l.value ]

unfoldable pub value_at : ArgsFile → ℕ → OptionValue
unfolding text_at OptionValue.parse
value_at file i = OptionValue.parse (text_at file i)

unfoldable pub set_text_at : ℕ → Text → ArgsFile → ArgsFile
set_text_at i v file = modify_at i (λ l. record l { value = v }) file

unfoldable pub set_value_at : ℕ → OptionValue → ArgsFile → ArgsFile
unfolding set_text_at OptionValue.to_string
set_value_at i v file = set_text_at i (OptionValue.to_string v) file

first_device : (Text → Bool) → ArgsFile → List ℕ → Option ℕ
unfolding value_at OptionValue.implied
first_device match file [] = none
first_device match file (i ∷ is) =
    if match (OptionValue.implied (value_at file i)) then some i else first_device match file is

unfoldable pub index_of_device : (Text → Bool) → ArgsFile → Option ℕ
unfolding first_device indexes_from
index_of_device match file = first_device match file (indexes_of (codes "device") option file)

-- Where `add` inserts: after the last line of the same option, else at the end.
unfoldable pub add_at : Text → Kind → ArgsFile → ℕ
unfolding indexes_from
add_at n k file = elim (last (indexes_of n k file)) [ none ↦ length file | some i ↦ suc i ]

-- The file and the line's index.
unfoldable pub add : Text → Text → Kind → ArgsFile → ArgsFile × ℕ
unfolding add_at
add n v k file = let at = add_at n k file in (insert_at at (named_line k n v) file, at)

-- The loop of `removeAll`, from the last index found.
unfoldable pub remove_indexes : List ℕ → ArgsFile → ArgsFile
remove_indexes [] file = file
remove_indexes (i ∷ is) file = remove_at i (remove_indexes is file)

unfoldable pub remove_all : Text → Kind → ArgsFile → ArgsFile
unfolding remove_indexes indexes_from
remove_all n k file = remove_indexes (indexes_of n k file) file
