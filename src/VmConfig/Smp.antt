-- ===== src/VmConfig/Smp.antt =====
-- setOrRemove on the -smp value, and what cpus() reads.
use qemu_gui_manager.Text.Laws.{text_eq_iff}
use qemu_gui_manager.Numbers.Decimal.{to_int-number}
use qemu_gui_manager.OptionValue.Lookup.{get-set_self, get-remove}
use qemu_gui_manager.Prelude.{ℕ, zero, suc, ◌^◌, ◌<◌, ◌≡◌, refl, true, []}
use qemu_gui_manager.Text.{Text, text_eq, trimmed}
use qemu_gui_manager.Numbers.{number, to_int, pos}
use qemu_gui_manager.OptionValue.{OptionValue, get, set, remove}
use qemu_gui_manager.VmConfig.Cpus.{set_or_remove}

text_eq_self : (k : Text) → text_eq k k ≡ true
text_eq_self k = (text_eq_iff k k).1 refl

set_or_remove-zero : (k : Text) (v : OptionValue) → set_or_remove k (pos zero) v ≡ remove k v
unfolding set_or_remove
set_or_remove-zero k v = refl

set_or_remove-suc :
    (k : Text) (n : ℕ) (v : OptionValue)
    → set_or_remove k (pos (suc n)) v ≡ set k (number (suc n)) v
unfolding set_or_remove
set_or_remove-suc k n v = refl

-- A number below 2^31 that `setOrRemove` is given is read back, 0 as a key that is not there.
get-set_or_remove :
    (k : Text) (n : ℕ) (v : OptionValue)
    → n < 2 ^ 31
    → to_int (get k [] (set_or_remove k (pos n) v)) ≡ pos n
get-set_or_remove k zero v h =
    rw (set_or_remove-zero k v, get-remove k k [] v, text_eq_self k) (unfold to_int trimmed in refl)
get-set_or_remove k (suc n) v h =
    rw (set_or_remove-suc k n v, get-set_self k (number (suc n)) [] v) (to_int-number (suc n) h)
