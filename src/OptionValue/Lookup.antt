-- ===== src/OptionValue/Lookup.antt =====
-- OptionValue::get, has, flag and implied after an edit.
use qemu_gui_manager.Prelude.{
  ◌≡◌, refl, ◌≢◌, Bool, true, false, not, ◌&&◌, ◌||◌, [], ◌∷◌, arith, if◌then◌else◌,
}
use qemu_gui_manager.Text.{Text, text_eq}
use qemu_gui_manager.Text.Laws.{text_eq_iff}
use qemu_gui_manager.OptionValue.{
  OptionValue, implied, set_implied, has, get, flag, set, set_flag, remove,
}

-- After `set` a key has the value that was set, bare word or not before.
pub get-set_self : (k v fallback : Text) (o : OptionValue) → get k fallback (set k v o) ≡ v
unfolding get set
get-set_self k v fallback [] = ground (arith, text_eq_iff k k)
get-set_self k v fallback (i ∷ is) = ground (arith, text_eq_iff k k, get-set_self k v fallback is)

pub get-set_ne :
    (k j v fallback : Text) (o : OptionValue)
    → k ≢ j
    → get j fallback (set k v o) ≡ get j fallback o
unfolding get set
get-set_ne k j v fallback [] h = ground (arith, text_eq_iff k j)
get-set_ne k j v fallback (i ∷ is) h = ground (
  arith,
  text_eq_iff k j,
  text_eq_iff i.key k,
  text_eq_iff i.key j,
  get-set_ne k j v fallback is h,
)

pub has-set : (k j v : Text) (o : OptionValue) → has j (set k v o) ≡ (text_eq k j || has j o)
unfolding has set
has-set k j v [] = ground arith
has-set k j v (i ∷ is) =
    ground (arith, text_eq_iff i.key k, text_eq_iff i.key j, text_eq_iff k j, has-set k j v is)

pub has-remove :
    (k j : Text) (o : OptionValue) → has j (remove k o) ≡ (not (text_eq k j) && has j o)
unfolding has remove
has-remove k j [] = ground arith
has-remove k j (i ∷ is) =
    ground (arith, text_eq_iff i.key k, text_eq_iff i.key j, text_eq_iff k j, has-remove k j is)

-- After `remove` the removed key has the fallback and every other key what it had.
pub get-remove :
    (k j fallback : Text) (o : OptionValue)
    → get j fallback (remove k o) ≡ (if text_eq k j then fallback else get j fallback o)
unfolding get remove
get-remove k j fallback [] = ground arith
get-remove k j fallback (i ∷ is) =
    ground
      (arith, text_eq_iff i.key k, text_eq_iff i.key j, text_eq_iff k j, get-remove k j fallback is)

-- Setting a key again replaces the value, and the order of the items stays.
pub set-set : (k v w : Text) (o : OptionValue) → set k w (set k v o) ≡ set k w o
unfolding set
set-set k v w [] = ground (arith, text_eq_iff k k)
set-set k v w (i ∷ is) = ground (arith, text_eq_iff k k, text_eq_iff i.key k, set-set k v w is)

-- The item that `set` changes is the only one that changes: the other keys keep their places.
pub remove-set : (k v : Text) (o : OptionValue) → remove k (set k v o) ≡ remove k o
unfolding remove set
remove-set k v [] = ground (arith, text_eq_iff k k)
remove-set k v (i ∷ is) = ground (arith, text_eq_iff k k, text_eq_iff i.key k, remove-set k v is)

pub implied-set_implied : (v : Text) (o : OptionValue) → implied (set_implied v o) ≡ v
unfolding implied set_implied
implied-set_implied v [] = refl
implied-set_implied v (i ∷ is) = ground arith

pub get-set_implied :
    (k v fallback : Text) (o : OptionValue)
    → k ≢ []
    → get k fallback (set_implied v o) ≡ get k fallback o
unfolding get set_implied
get-set_implied k v fallback [] h = ground (arith, text_eq_iff [] k)
get-set_implied k v fallback (i ∷ is) h = ground (arith, text_eq_iff [] k, text_eq_iff i.key k)

pub implied-set : (k v : Text) (o : OptionValue) → k ≢ [] → implied (set k v o) ≡ implied o
unfolding implied set
implied-set k v [] h = ground arith
implied-set k v (i ∷ is) h = ground (arith, text_eq_iff i.key k)

-- A flag that is set is read back, whatever the fallback.
pub flag-set_flag :
    (k : Text) (on fallback : Bool) (o : OptionValue) → flag k fallback (set_flag k on o) ≡ on
unfolding flag set_flag text_eq
flag-set_flag k true fallback o = rw get-set_self
flag-set_flag k false fallback o = rw get-set_self
