-- ===== src/VmHardware/CardText.antt =====
-- src/core/vmhardware.cpp: the value of the card that setCard writes, as a text.
use qemu_gui_manager.Prelude.{
  ℕ, ◌≡◌, refl, ◌≢◌, Bool, false, not, ◌&&◌, ◌||◌, List, [], ◌∷◌, ◌==◌, bool_eq, if◌then◌else◌,
  if_cases, AllOf,
}
use qemu_gui_manager.Text.{Text, codes, is_empty, text_eq, one_of, has_char}
use qemu_gui_manager.OptionValue.{
  OptionValue, equals, implied, set_implied, has, get, flag, set, remove,
}
use qemu_gui_manager.OptionValue.Firm.{IsFirm, set-IsFirm, remove-IsFirm, set_implied-IsFirm}
use qemu_gui_manager.OptionValue.Edits.{IsKeyName, set-IsReadable, set_implied-IsReadable}
use qemu_gui_manager.OptionValue.Readable.{IsReadable}
use qemu_gui_manager.VmHardware.Card.{
  is_virtio, keep_keys, based_on, set_on, wanted_mib, set_hostmem, card_value,
}
use qemu_gui_manager.VmHardware.Graphics.{accelerated_cards, Graphics}
use qemu_gui_manager.VmConfig.Sizes.{format_mib}

-- The keys of the properties that the edit sets or removes.
names :
    IsKeyName (codes "venus")
    × IsKeyName (codes "drm_native_context")
    × IsKeyName (codes "blob")
    × IsKeyName (codes "hostmem")
unfolding has_char
names = (
  ((λ q. cc), refl, refl),
  ((λ q. cc), refl, refl),
  ((λ q. cc), refl, refl),
  ((λ q. cc), refl, refl),
)

kept_names : AllOf IsKeyName (codes "id" ∷ codes "bus" ∷ codes "addr" ∷ [])
unfolding has_char
kept_names = (((λ q. cc), refl, refl), (((λ q. cc), refl, refl), (((λ q. cc), refl, refl), tt)))

keep_keys-IsReadable :
    (ks : List Text) (v fresh : OptionValue)
    → AllOf IsKeyName ks
    → IsReadable fresh
    → IsReadable (keep_keys ks v fresh)
unfolding keep_keys
keep_keys-IsReadable [] v fresh n h = h
keep_keys-IsReadable (k ∷ ks) v fresh (n, ns) h =
    keep_keys-IsReadable ks v _ ns
      (if_cases IsReadable (has k v) (λ e. set-IsReadable k (get k [] v) fresh n h) (λ e. h))

-- What the text of an option can say first.
abbrev pub IsDriver : Text → Type 0
IsDriver d = (is_empty d ≡ false) × (has_char equals d ≡ false)

ne-nil : (t : Text) → is_empty t ≡ false → t ≢ []
ne-nil [] e = cc
ne-nil (c ∷ cs) e = λ q. cc

module _ (d : Text) (is_driver : IsDriver d) where
  pub based_on-IsFirm : (v : OptionValue) → IsReadable v → IsFirm [] (based_on d v)
  unfolding based_on
  based_on-IsFirm v h =
      let old = implied v in
      let another = not (text_eq old d) && not (bool_eq (is_virtio old) (is_virtio d)) in
      let filled = ne-nil d is_driver.0 in
      set_implied-IsFirm d _ filled is_driver.1 (
        if_cases IsReadable another
          (λ e.
            keep_keys-IsReadable (codes "id" ∷ codes "bus" ∷ codes "addr" ∷ []) v (set_implied d [])
              kept_names (set_implied-IsReadable d [] filled is_driver.1 tt))
          (λ e. h))

set_hostmem-IsFirm : (a b : ℕ) (v : OptionValue) → IsFirm [] v → IsFirm [] (set_hostmem a b v)
set_hostmem-IsFirm a b v h =
    if_cases (IsFirm []) (not (has (codes "hostmem") v) || not (b == a))
      (λ e. set-IsFirm [] (codes "hostmem") (format_mib b) v names.3 h) (λ e. h)

set_on-IsFirm :
    (on : Bool) (k : Text) (v : OptionValue) → IsKeyName k → IsFirm [] v → IsFirm [] (set_on on k v)
set_on-IsFirm on k v n h =
    if_cases (IsFirm []) on (λ e. set-IsFirm [] k (codes "on") v n h) (λ e. h)

pub card_value-IsFirm :
    (d : Text) (now g : Graphics) (v : OptionValue)
    → IsFirm [] (based_on d v)
    → IsFirm [] (card_value d now g v)
unfolding card_value text_eq
card_value-IsFirm d now g v based =
    let plain = remove (codes "venus") (remove (codes "drm_native_context") (based_on d v)) in
    let h =
      remove-IsFirm [] (codes "venus") (remove (codes "drm_native_context") (based_on d v)) refl
        (remove-IsFirm [] (codes "drm_native_context") (based_on d v) refl based) in
    let native = set_on g.native_context (codes "drm_native_context") plain in
    let flags = set_on g.venus (codes "venus") native in
    let hn = set_on-IsFirm g.native_context (codes "drm_native_context") plain names.1 h in
    let hf = set_on-IsFirm g.venus (codes "venus") native names.0 hn in
    let blob =
      if flag (codes "blob") false flags then flags else set (codes "blob") (codes "on") flags in
    let hb : IsFirm [] blob =
      if_cases (IsFirm []) (flag (codes "blob") false flags) (λ e. hf)
        (λ e. set-IsFirm [] (codes "blob") (codes "on") flags names.2 hf) in
    if_cases (IsFirm []) (not (one_of d accelerated_cards)) (λ e. h)
      (λ e.
        if_cases (IsFirm []) (g.native_context || g.venus)
          (λ n. set_hostmem-IsFirm now.hostmem_mib (wanted_mib now g) blob hb) (λ n. hf))
