-- ===== src/VmHardware/Drivers.antt =====
-- src/core/vmhardware.cpp: the driver of the new card and the kind that was chosen.
use qemu_gui_manager.VmHardware.Machine.{has_line}
use qemu_gui_manager.Prelude.{
  ℕ, suc, ◌≡◌, refl, ◌≢◌, inl, inr, Bool, true, false, not, ◌&&◌, List, [], ◌∷◌, ◌++◌, arith,
  if◌then◌else◌, Bool-cases, if_cases, length,
}
use qemu_gui_manager.Text.Laws.{one_of-AllOf}
use qemu_gui_manager.VmHardware.Card.{wanted_driver}
use qemu_gui_manager.Text.{Text, codes, is_empty, text_eq, one_of}
use qemu_gui_manager.Numbers.{number, Conversions}
use qemu_gui_manager.OptionValue.{OptionValue}
use qemu_gui_manager.ArgsFile.{ArgsFile, value_at}
use qemu_gui_manager.VmHardware.Graphics.{
  kind_is, accelerated_cards, virtio_cards, standard_cards, counterparts, value_of, key_of,
  card_lines, graphics_of_card, no_device, graphics_of_vga, vga_value, shown_display, graphics,
  GraphicsKind, accelerated, virtio, standard, no_card, custom, Graphics,
}

-- The drivers of a kind of card.
abbrev pub cards_of_kind : GraphicsKind → List Text
cards_of_kind accelerated = accelerated_cards
cards_of_kind virtio = virtio_cards
cards_of_kind standard = standard_cards
cards_of_kind no_card = []
cards_of_kind custom = []

-- What `graphics` shows: the device is of the kind, unless the card is not a -device.
abbrev pub Fits : Graphics → Type 0
Fits g =
    (g.kind ≡ accelerated → one_of g.device accelerated_cards ≡ true)
    × (g.kind ≡ virtio → g.device ≢ [] → one_of g.device virtio_cards ≡ true)
    × (g.kind ≡ standard → g.device ≢ [] → one_of g.device standard_cards ≡ true)

graphics_of_card-Fits :
    (q : Conversions) (vga shown : Text) (v : OptionValue) → Fits (graphics_of_card q vga shown v)
unfolding graphics_of_card
graphics_of_card-Fits q vga shown v = ground arith

graphics_of_vga-Fits : (args : ArgsFile) (vga shown : Text) → Fits (graphics_of_vga args vga shown)
unfolding graphics_of_vga
graphics_of_vga-Fits args vga shown = ground arith

no_device-Fits :
    (k : GraphicsKind) (shown reason : Text)
    → (k ≡ accelerated → ⊥)
    → Fits (no_device k shown reason)
no_device-Fits k shown reason h =
    ((λ e. absurd (h e)), (λ e n. absurd (n refl)), (λ e n. absurd (n refl)))

pub graphics-Fits : (q : Conversions) (args : ArgsFile) → Fits (graphics q args)
unfolding graphics
graphics-Fits q args = elim (Bool-cases (has_line (codes "nographic") args)) [
  | inl e ↦
      rw (e, graphics, if◌then◌else◌)
        (no_device-Fits custom (shown_display args) (codes "-nographic") (λ h. cc))
  | inr e ↦ rw (e, graphics, if◌then◌else◌) (cases (card_lines args))
]
  where
    cases :
        (is : List ℕ)
        → Fits (elim is [
          | [] ↦ graphics_of_vga args (vga_value args) (shown_display args)
          | i ∷ [] ↦ graphics_of_card q (vga_value args) (shown_display args) (value_at args i)
          | i ∷ j ∷ more ↦
              no_device custom
                (shown_display args)
                (number (suc (suc (length more))) ++ codes " graphics cards")
        ])
    cases [] = graphics_of_vga-Fits args (vga_value args) (shown_display args)
    cases (i ∷ []) = graphics_of_card-Fits q (vga_value args) (shown_display args) (value_at args i)
    cases (i ∷ j ∷ more) =
        no_device-Fits custom (shown_display args)
          (number (suc (suc (length more))) ++ codes " graphics cards") (λ h. cc)

-- Each card has its counterpart.
key_of-fits :
    (t : Text)
    → one_of t virtio_cards ≡ true
    → one_of (key_of t counterparts) accelerated_cards ≡ true
unfolding one_of text_eq key_of
key_of-fits t h =
    one_of-AllOf (λ (w : Text). one_of (key_of w counterparts) accelerated_cards ≡ true) t
      virtio_cards (refl, (refl, (refl, (refl, tt)))) h

value_of-fits :
    (t : Text)
    → one_of t accelerated_cards ≡ true
    → one_of (value_of t counterparts) virtio_cards ≡ true
unfolding one_of text_eq value_of
value_of-fits t h =
    one_of-AllOf (λ (w : Text). one_of (value_of w counterparts) virtio_cards ≡ true) t
      accelerated_cards (refl, (refl, (refl, (refl, tt)))) h

fixed :
    (pci_only : Bool)
    → (one_of
          (if pci_only then codes "virtio-gpu-gl-pci" else codes "virtio-vga-gl")
          accelerated_cards
        ≡ true)
      × (one_of (if pci_only then codes "virtio-gpu-pci" else codes "virtio-vga") virtio_cards
          ≡ true)
unfolding one_of text_eq
fixed true = (refl, refl)
fixed false = (refl, refl)

vga_fits : one_of (codes "VGA") standard_cards ≡ true
unfolding one_of text_eq
vga_fits = refl

kind_is-true : (a b : GraphicsKind) → kind_is a b ≡ true → a ≡ b
kind_is-true accelerated b h = ground arith
kind_is-true virtio b h = ground arith
kind_is-true standard b h = ground arith
kind_is-true no_card b h = ground arith
kind_is-true custom b h = ground arith

-- A test of a kind and a device that is there.
kind_and :
    (now : Graphics) (k : GraphicsKind)
    → kind_is now.kind k && not (is_empty now.device) ≡ true
    → (now.kind ≡ k) × (now.device ≢ [])
kind_and now k h = (kind_is-true now.kind k (ground arith), λ e. ground arith)

abbrev pub Among : List Text → Text → Type 0
Among ws t = one_of t ws ≡ true

module _ (p : Bool) (now g : Graphics) (f : Fits now) where
  pub wanted-accelerated : g.kind ≡ accelerated → Among accelerated_cards (wanted_driver p now g)
  wanted-accelerated k =
      unfold wanted_driver in
      rw (k, wanted_driver)
        (if_cases (Among accelerated_cards) (one_of g.device accelerated_cards) (λ e. e)
          (λ e.
            if_cases (Among accelerated_cards) (kind_is now.kind accelerated)
              (λ a. f.0 (kind_is-true now.kind accelerated a))
              (λ a.
                if_cases (Among accelerated_cards)
                  (kind_is now.kind virtio && not (is_empty now.device))
                  (λ b. let (v, n) = kind_and now virtio b in key_of-fits now.device (f.1 v n))
                  (λ b. (fixed p).0))))

  pub wanted-virtio : g.kind ≡ virtio → Among virtio_cards (wanted_driver p now g)
  wanted-virtio k =
      unfold wanted_driver in
      rw (k, wanted_driver)
        (if_cases (Among virtio_cards) (one_of g.device virtio_cards) (λ e. e)
          (λ e.
            if_cases (Among virtio_cards) (kind_is now.kind virtio && not (is_empty now.device))
              (λ b. let (v, n) = kind_and now virtio b in f.1 v n)
              (λ b.
                if_cases (Among virtio_cards) (kind_is now.kind accelerated)
                  (λ a. value_of-fits now.device (f.0 (kind_is-true now.kind accelerated a)))
                  (λ a. (fixed p).1))))

  pub wanted-standard : g.kind ≡ standard → Among standard_cards (wanted_driver p now g)
  wanted-standard k =
      unfold wanted_driver in
      rw (k, wanted_driver)
        (if_cases (Among standard_cards) (one_of g.device standard_cards) (λ e. e)
          (λ e.
            if_cases (Among standard_cards) (kind_is now.kind standard && not (is_empty now.device))
              (λ b. let (v, n) = kind_and now standard b in f.2 v n) (λ b. vga_fits)))
