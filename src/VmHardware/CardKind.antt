-- ===== src/VmHardware/CardKind.antt =====
-- src/core/vmhardware.cpp: the value of the card that setCard writes.
use qemu_gui_manager.VmHardware.CardText.{IsDriver, based_on-IsFirm, card_value-IsFirm}
use qemu_gui_manager.Prelude.{
  ℕ, ◌≡◌, refl, ◌≢◌, Bool, false, not, ◌||◌, List, [], ◌∷◌, arith, ◌==◌, if◌then◌else◌, if_cases,
  AllOf,
}
use qemu_gui_manager.Text.{Text, codes, is_empty, one_of, has_char}
use qemu_gui_manager.OptionValue.{
  OptionValue, parse, implied, set_implied, has, flag, set, remove, to_string,
}
use qemu_gui_manager.OptionValue.Firm.{reread}
use qemu_gui_manager.OptionValue.Readable.{IsReadable}
use qemu_gui_manager.VmHardware.Card.{
  wanted_driver, driver_of, based_on, set_on, wanted_mib, set_hostmem, card_value,
}
use qemu_gui_manager.VmConfig.Sizes.{format_mib}
use qemu_gui_manager.Text.Laws.{text_eq_iff, one_of-AllOf}
use qemu_gui_manager.Numbers.{Conversions}
use qemu_gui_manager.ArgsFile.{ArgsFile}
use qemu_gui_manager.VmHardware.Graphics.{
  accelerated_cards, virtio_cards, standard_cards, graphics, GraphicsKind, accelerated, virtio,
  standard, no_card, custom, Graphics,
}
use qemu_gui_manager.VmHardware.Drivers.{
  cards_of_kind, graphics-Fits, Among, wanted-accelerated, wanted-virtio, wanted-standard,
}

-- The value starts with the implied item `d`.
abbrev Headed : Text → OptionValue → Type 0
Headed d [] = ⊥
Headed d (i ∷ is) = (i.key ≡ []) × (i.bare ≡ false) × (i.value ≡ d)

Headed-implied : (d : Text) (v : OptionValue) → Headed d v → implied v ≡ d
unfolding implied
Headed-implied d [] h = elim h [ ]
Headed-implied d (i ∷ is) h = ground arith

set_implied-Headed : (d : Text) (v : OptionValue) → Headed d (set_implied d v)
unfolding set_implied
set_implied-Headed d [] = (refl, refl, refl)
set_implied-Headed d (i ∷ is) = ground arith

set-Headed : (k x d : Text) (v : OptionValue) → k ≢ [] → Headed d v → Headed d (set k x v)
unfolding set
set-Headed k x d [] n h = elim h [ ]
set-Headed k x d (i ∷ is) n h = ground (arith, text_eq_iff i.key k)

remove-Headed : (k d : Text) (v : OptionValue) → k ≢ [] → Headed d v → Headed d (remove k v)
unfolding remove
remove-Headed k d [] n h = elim h [ ]
remove-Headed k d (i ∷ is) n h = ground (arith, text_eq_iff i.key k)

based_on-Headed : (d : Text) (v : OptionValue) → Headed d (based_on d v)
unfolding based_on
based_on-Headed d v = set_implied-Headed d _

set_hostmem-Headed :
    (a b : ℕ) (d : Text) (v : OptionValue) → Headed d v → Headed d (set_hostmem a b v)
set_hostmem-Headed a b d v h =
    if_cases (Headed d) (not (has (codes "hostmem") v) || not (b == a))
      (λ e. set-Headed (codes "hostmem") (format_mib b) d v (λ q. cc) h) (λ e. h)

set_on-Headed :
    (on : Bool) (k d : Text) (v : OptionValue) → k ≢ [] → Headed d v → Headed d (set_on on k v)
set_on-Headed on k d v n h =
    if_cases (Headed d) on (λ e. set-Headed k (codes "on") d v n h) (λ e. h)

card_value-Headed :
    (d : Text) (now g : Graphics) (v : OptionValue) → Headed d (card_value d now g v)
unfolding card_value
card_value-Headed d now g v =
    let plain = remove (codes "venus") (remove (codes "drm_native_context") (based_on d v)) in
    let h =
      remove-Headed (codes "venus") d (remove (codes "drm_native_context") (based_on d v)) (λ q. cc)
        (remove-Headed (codes "drm_native_context") d (based_on d v) (λ q. cc)
          (based_on-Headed d v)) in
    let native = set_on g.native_context (codes "drm_native_context") plain in
    let flags = set_on g.venus (codes "venus") native in
    let hn = set_on-Headed g.native_context (codes "drm_native_context") d plain (λ q. cc) h in
    let hf = set_on-Headed g.venus (codes "venus") d native (λ q. cc) hn in
    let blob =
      if flag (codes "blob") false flags then flags else set (codes "blob") (codes "on") flags in
    let hb : Headed d blob =
      if_cases (Headed d) (flag (codes "blob") false flags) (λ e. hf)
        (λ e. set-Headed (codes "blob") (codes "on") d flags (λ q. cc) hf) in
    if_cases (Headed d) (not (one_of d accelerated_cards)) (λ e. h)
      (λ e.
        if_cases (Headed d) (g.native_context || g.venus)
          (λ n. set_hostmem-Headed now.hostmem_mib (wanted_mib now g) d blob hb) (λ n. hf))

driver_of-wanted :
    (ws : List Text) (p : Bool) (now g : Graphics)
    → AllOf (λ w. is_empty w ≡ false) ws
    → Among ws (wanted_driver p now g)
    → Among ws (driver_of p now g)
unfolding driver_of
driver_of-wanted ws p now g a h =
    rw
      (
        one_of-AllOf (λ (w : Text). is_empty w ≡ false) (wanted_driver p now g) ws a h,
        driver_of,
        if◌then◌else◌,
      )
      h

card_value-implied :
    (d : Text) (now g : Graphics) (v : OptionValue) → implied (card_value d now g v) ≡ d
card_value-implied d now g v = Headed-implied d (card_value d now g v) (card_value-Headed d now g v)

drivers-IsDriver :
    AllOf IsDriver accelerated_cards × AllOf IsDriver virtio_cards × AllOf IsDriver standard_cards
unfolding has_char
drivers-IsDriver = (
  ((refl, refl), ((refl, refl), ((refl, refl), ((refl, refl), tt)))),
  ((refl, refl), ((refl, refl), ((refl, refl), ((refl, refl), tt)))),
  ((refl, refl), ((refl, refl), tt)),
)

Among-IsDriver : (k : GraphicsKind) (t : Text) → Among (cards_of_kind k) t → IsDriver t
Among-IsDriver accelerated t h = one_of-AllOf IsDriver t accelerated_cards drivers-IsDriver.0 h
Among-IsDriver virtio t h = one_of-AllOf IsDriver t virtio_cards drivers-IsDriver.1 h
Among-IsDriver standard t h = one_of-AllOf IsDriver t standard_cards drivers-IsDriver.2 h
Among-IsDriver no_card t h = one_of-AllOf IsDriver t [] tt h
Among-IsDriver custom t h = one_of-AllOf IsDriver t [] tt h

module _ (q : Conversions) (args : ArgsFile) (g : Graphics) (p : Bool) (nn : g.kind ≢ no_card)
    (nc : g.kind ≢ custom) where
  driver_of-kind : Among (cards_of_kind g.kind) (driver_of p (graphics q args) g)
  driver_of-kind = by_kind g.kind refl
    where
      by_kind :
          (k : GraphicsKind)
          → g.kind ≡ k
          → Among (cards_of_kind k) (driver_of p (graphics q args) g)
      by_kind accelerated e =
          driver_of-wanted accelerated_cards p (graphics q args) g
            (refl, (refl, (refl, (refl, tt))))
            (wanted-accelerated p (graphics q args) g (graphics-Fits q args) e)
      by_kind virtio e =
          driver_of-wanted virtio_cards p (graphics q args) g (refl, (refl, (refl, (refl, tt))))
            (wanted-virtio p (graphics q args) g (graphics-Fits q args) e)
      by_kind standard e =
          driver_of-wanted standard_cards p (graphics q args) g (refl, (refl, tt))
            (wanted-standard p (graphics q args) g (graphics-Fits q args) e)
      by_kind no_card e = absurd (nn e)
      by_kind custom e = absurd (nc e)

-- The card that is read from the text that `setCard` writes for an accelerated, a virtio or a
-- standard card is one of that kind, for a new card, or a change of any whose items the syntax can
-- express (IsReadable), and whatever device was asked for.
pub card_value-kind :
    (q : Conversions) (args : ArgsFile) (g : Graphics) (pci_only : Bool) (v : OptionValue)
    → IsReadable v
    → g.kind ≢ no_card
    → g.kind ≢ custom
    → Among (cards_of_kind g.kind) (
        implied (
          parse (
            to_string (card_value (driver_of pci_only (graphics q args) g) (graphics q args) g v))))
card_value-kind q args g p v readable nn nc =
    let now = graphics q args in
    let d = driver_of p now g in
    let among = driver_of-kind q args g p nn nc in
    let based = based_on-IsFirm d (Among-IsDriver g.kind d among) v readable in
    rw (reread [] _ (card_value-IsFirm d now g v based), card_value-implied d now g v) among
