-- ===== src/OptionValue.antt =====
-- src/core/optionvalue.cpp: the value of a QEMU option, `key=value` items and bare words.
pub mod Lookup
pub mod Parts
pub mod RoundTrip
pub mod Clean
pub mod Edits
pub mod Firm
pub mod Readable
use qemu_gui_manager.Prelude.{
  ℕ, suc, Bool, true, false, not, ◌&&◌, ◌||◌, none, some, List, [], ◌∷◌, ◌++◌, map, ◌==◌,
  if◌then◌else◌, take, drop,
}
use qemu_gui_manager.Text.{Text, codes, is_empty, text_eq, index_of, join, to_lower}

pub record Item : Type 0 where
  pub key : Text
  pub value : Text
  pub bare : Bool

-- The class has one member, `m_items`.
abbrev pub OptionValue : Type 0
OptionValue = List Item

abbrev pub comma : ℕ
comma = b','

abbrev pub equals : ℕ
equals = b'='

-- The loop of `splitItems`; `cur` is the item being read.
unfoldable pub split_from : Text → Text → List Text
split_from cur [] = cur ∷ []
split_from cur (c ∷ []) = if not (c == comma) then (cur ++ (c ∷ [])) ∷ [] else cur ∷ [] ∷ []
split_from cur (c ∷ d ∷ rest) = elim (not (c == comma)) [
  | true ↦ split_from (cur ++ (c ∷ [])) (d ∷ rest)
  | false ↦ elim (d == comma) [
    | true ↦ split_from (cur ++ (comma ∷ [])) rest
    | false ↦ cur ∷ split_from [] (d ∷ rest)
  ]
]

abbrev pub split_items : Text → List Text
split_items text = split_from [] text

-- One round of the constructor's loop; the flag is `i == 0`.
unfoldable pub parse_part : Bool → Text → Item
unfolding index_of
parse_part first part = elim (index_of equals part) [
  | some eq ↦ record { key = take eq part; value = drop (suc eq) part; bare = false }
  | none ↦
      if first
      then record { key = []; value = part; bare = false }
      else record { key = part; value = []; bare = true }
]

unfoldable pub parse_parts : Bool → List Text → OptionValue
unfolding parse_part
parse_parts first [] = []
parse_parts first (p ∷ ps) = parse_part first p ∷ parse_parts false ps

-- OptionValue::OptionValue
unfoldable pub parse : Text → OptionValue
unfolding split_from parse_parts
parse [] = []
parse (c ∷ cs) = parse_parts true (split_items (c ∷ cs))

-- The test of `implied` and `setImplied` on the first item.
abbrev is_implied : Item → Bool
is_implied item = is_empty item.key && not item.bare

unfoldable pub implied : OptionValue → Text
implied [] = []
implied (i ∷ is) = if is_implied i then i.value else []

unfoldable pub set_implied : Text → OptionValue → OptionValue
set_implied v [] = record { key = []; value = v; bare = false } ∷ []
set_implied v (i ∷ is) =
    if is_implied i
    then record i { value = v } ∷ is
    else record { key = []; value = v; bare = false } ∷ i ∷ is

unfoldable pub has : Text → OptionValue → Bool
unfolding text_eq
has k [] = false
has k (i ∷ is) = if text_eq i.key k then true else has k is

unfoldable pub get : Text → Text → OptionValue → Text
unfolding text_eq
get k fallback [] = fallback
get k fallback (i ∷ is) = if text_eq i.key k && not i.bare then i.value else get k fallback is

abbrev yes_words : Text → Bool
yes_words v = text_eq v (codes "on") || text_eq v (codes "yes") || text_eq v (codes "true")

abbrev no_words : Text → Bool
no_words v = text_eq v (codes "off") || text_eq v (codes "no") || text_eq v (codes "false")

unfoldable pub flag : Text → Bool → OptionValue → Bool
unfolding get to_lower
flag k fallback v =
    let value = to_lower (get k [] v) in
    if yes_words value then true else if no_words value then false else fallback

unfoldable pub set : Text → Text → OptionValue → OptionValue
unfolding text_eq
set k v [] = record { key = k; value = v; bare = false } ∷ []
set k v (i ∷ is) =
    if text_eq i.key k then record i { value = v; bare = false } ∷ is else i ∷ set k v is

unfoldable pub set_flag : Text → Bool → OptionValue → OptionValue
unfolding set
set_flag k on v = set k (if on then codes "on" else codes "off") v

unfoldable pub remove : Text → OptionValue → OptionValue
unfolding text_eq
remove k [] = []
remove k (i ∷ is) = let rest = remove k is in if text_eq i.key k then rest else i ∷ rest

unfoldable pub escape : Text → Text
escape [] = []
escape (c ∷ cs) = if c == comma then comma ∷ comma ∷ escape cs else c ∷ escape cs

unfoldable pub item_text : Item → Text
unfolding escape
item_text item =
    if is_empty item.key
    then escape item.value
    else if item.bare
    then escape item.key
    else escape item.key ++ (equals ∷ escape item.value)

unfoldable pub to_string : OptionValue → Text
unfolding item_text join
to_string v = join comma (map item_text v)
