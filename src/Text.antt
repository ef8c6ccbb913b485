-- ===== src/Text.antt =====
-- The texts of the program (QString): lists of UTF-16 code units, with the operations of QString
-- that the sources call, by their documented behaviour. A null QString is an empty text here, as
-- the sources never tell them apart.
pub mod Laws
pub mod Trim
use Prim.Native.Char.{code}
use qemu_gui_manager.Prelude.{
  ℕ, suc, ◌+◌, String, Bool, true, false, ◌&&◌, ◌||◌, Option, none, some, List, [], ◌∷◌, ◌++◌, leb,
  ◌==◌, if◌then◌else◌, last,
}

abbrev pub Text : Type 0
Text = List ℕ

-- A literal of the source; all of them are ASCII.
abbrev pub codes : String → Text
codes String.[] = []
codes (String.◌∷◌ c s) = code c ∷ codes s

abbrev pub is_empty {ℓ} : {A : Type ℓ} → List A → Bool
is_empty [] = true
is_empty (x ∷ xs) = false

-- a == b
unfoldable pub text_eq : Text → Text → Bool
text_eq [] [] = true
text_eq (x ∷ xs) (y ∷ ys) = x == y && text_eq xs ys
text_eq _ _ = false

-- words.contains(t) for a list of words
unfoldable pub one_of : Text → List Text → Bool
unfolding text_eq
one_of t [] = false
one_of t (w ∷ ws) = text_eq t w || one_of t ws

-- t.contains(c)
unfoldable pub has_char : ℕ → Text → Bool
has_char c [] = false
has_char c (x ∷ xs) = x == c || has_char c xs

-- t.indexOf(c), `none` for -1
unfoldable pub index_of : ℕ → Text → Option ℕ
index_of c [] = none
index_of c (x ∷ xs) =
    let rest = index_of c xs in
    if x == c then some 0 else elim rest [ none ↦ none | some i ↦ some (suc i) ]

-- t.startsWith(prefix)
unfoldable pub starts_with : Text → Text → Bool
starts_with t [] = true
starts_with [] (p ∷ ps) = false
starts_with (x ∷ xs) (p ∷ ps) = x == p && starts_with xs ps

-- t.startsWith(c)
abbrev pub starts_with_char : Text → ℕ → Bool
starts_with_char [] c = false
starts_with_char (x ∷ xs) c = x == c

-- t.split(c)
unfoldable pub split : ℕ → Text → List Text
split c [] = [] ∷ []
split c (x ∷ xs) =
    let rest = split c xs in
    if x == c then [] ∷ rest else elim rest [ [] ↦ (x ∷ []) ∷ [] | w ∷ ws ↦ (x ∷ w) ∷ ws ]

-- parts.join(c)
unfoldable pub join : ℕ → List Text → Text
join c [] = []
join c (t ∷ []) = t
join c (t ∷ u ∷ us) = t ++ (c ∷ join c (u ∷ us))

-- QChar::isSpace
unfoldable pub is_space : ℕ → Bool
is_space c =
    (leb 9 c && leb c 13)
    || c == 32
    || c == 0x85
    || c == 0xa0
    || c == 0x1680
    || (leb 0x2000 c && leb c 0x200a)
    || c == 0x2028
    || c == 0x2029
    || c == 0x202f
    || c == 0x205f
    || c == 0x3000

-- `\s` of a QRegularExpression with no Unicode properties
unfoldable pub is_ascii_space : ℕ → Bool
is_ascii_space c = (leb 9 c && leb c 13) || c == 32

unfoldable pub trim_left : Text → Text
unfolding is_space
trim_left [] = []
trim_left (x ∷ xs) = let rest = trim_left xs in if is_space x then rest else x ∷ xs

unfoldable pub trim_right : Text → Text
unfolding is_space
trim_right [] = []
trim_right (x ∷ xs) = elim (trim_right xs) [
  | [] ↦ if is_space x then [] else x ∷ []
  | y ∷ ys ↦ x ∷ y ∷ ys
]

-- t.trimmed()
unfoldable pub trimmed : Text → Text
unfolding trim_left trim_right
trimmed t = trim_right (trim_left t)

-- t.toLower(), as far as a comparison with an ASCII word can tell: the only other letter whose
-- lower case is one ASCII letter is the Kelvin sign.
unfoldable pub to_lower : Text → Text
to_lower [] = []
to_lower (c ∷ cs) =
    (if leb b'A' c && leb c b'Z' then c + 32 else if c == 0x212a then b'k' else c) ∷ to_lower cs

-- t.indexOf(QRegularExpression("\\s"))
unfoldable pub index_of_space : Text → Option ℕ
unfolding is_ascii_space
index_of_space [] = none
index_of_space (x ∷ xs) =
    let rest = index_of_space xs in
    if is_ascii_space x then some 0 else elim rest [ none ↦ none | some i ↦ some (suc i) ]

unfoldable pub has_space : Text → Bool
unfolding is_ascii_space
has_space [] = false
has_space (x ∷ xs) = is_ascii_space x || has_space xs

abbrev pub starts_blank : Text → Bool
starts_blank [] = false
starts_blank (x ∷ xs) = is_space x

abbrev pub ends_blank : Text → Bool
ends_blank [] = false
ends_blank (x ∷ []) = is_space x
ends_blank (x ∷ y ∷ ys) = ends_blank (y ∷ ys)

-- t.contains(u)
unfoldable pub contains : Text → Text → Bool
unfolding starts_with
contains [] u = is_empty u
contains (c ∷ cs) u = starts_with (c ∷ cs) u || contains cs u

-- t.count(c)
unfoldable pub count_char : ℕ → Text → ℕ
count_char c [] = 0
count_char c (x ∷ xs) = (if x == c then 1 else 0) + count_char c xs

-- QFileInfo(path).fileName(): what is behind the last slash
unfoldable pub file_name : Text → Text
unfolding split
file_name path = elim (last (split b'/' path)) [ none ↦ [] | some n ↦ n ]

-- t.endsWith(s)
unfoldable pub ends_with : Text → Text → Bool
unfolding text_eq
ends_with [] s = is_empty s
ends_with (c ∷ cs) s = text_eq (c ∷ cs) s || ends_with cs s
