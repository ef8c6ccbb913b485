-- ===== src/VmConfig/ShareText.antt =====
-- VmConfig::shares and setShares on the text of one #share line.
use qemu_gui_manager.Prelude.{◌≡◌, refl, Bool, false, [], ◌∷◌, if_cases}
use qemu_gui_manager.Text.{Text, codes, is_empty, text_eq, has_char}
use qemu_gui_manager.OptionValue.{OptionValue, parse, set, set_flag, to_string}
use qemu_gui_manager.OptionValue.Firm.{IsFirm, set-IsFirm, set_empty-IsFirm, remove-IsFirm, reread}
use qemu_gui_manager.OptionValue.Edits.{IsKeyName}
use qemu_gui_manager.VmConfig.Shares.{
  share_of, set_cache, set_readonly, set_mount, share_value, Share,
}
use qemu_gui_manager.VmConfig.ShareLines.{
  tag_key, path_key, cache_key, readonly_key, mount_key, share_of-share_value_kept,
}

names :
    IsKeyName tag_key
    × IsKeyName path_key
    × IsKeyName cache_key
    × IsKeyName readonly_key
    × IsKeyName mount_key
unfolding has_char
names = (
  ((λ q. cc), refl, refl),
  ((λ q. cc), refl, refl),
  ((λ q. cc), refl, refl),
  ((λ q. cc), refl, refl),
  ((λ q. cc), refl, refl),
)

-- The key is not one that `setShares` may remove.
abbrev IsKept : Text → Type 0
IsKept x =
    (text_eq x cache_key ≡ false) × (text_eq x readonly_key ≡ false) × (text_eq x mount_key ≡ false)

-- The value of a line that is new, or whose items the syntax can express and whose first item is
-- not empty and stays.
abbrev pub CanShare : OptionValue → Type 0
CanShare [] = Unit
CanShare (i ∷ is) = IsKept i.key × IsFirm i.key (i ∷ is)

module _ (x : Text) where
  set_cache-IsFirm :
      (c : Text) (v : OptionValue)
      → text_eq x cache_key ≡ false
      → IsFirm x v
      → IsFirm x (set_cache c v)
  unfolding set_cache
  set_cache-IsFirm c v other h =
      if_cases (IsFirm x) (text_eq c (codes "auto")) (λ e. remove-IsFirm x cache_key v other h)
        (λ e. set-IsFirm x cache_key c v names.2 h)

  set_readonly-IsFirm :
      (on : Bool) (v : OptionValue)
      → text_eq x readonly_key ≡ false
      → IsFirm x v
      → IsFirm x (set_readonly on v)
  unfolding set_readonly set_flag
  set_readonly-IsFirm on v other h =
      if_cases (IsFirm x) on (λ e. set-IsFirm x readonly_key _ v names.3 h)
        (λ e. remove-IsFirm x readonly_key v other h)

  set_mount-IsFirm :
      (m : Text) (v : OptionValue)
      → text_eq x mount_key ≡ false
      → IsFirm x v
      → IsFirm x (set_mount m v)
  unfolding set_mount
  set_mount-IsFirm m v other h =
      if_cases (IsFirm x) (is_empty m) (λ e. remove-IsFirm x mount_key v other h)
        (λ e. set-IsFirm x mount_key m v names.4 h)

  share_value-IsFirm :
      (s : Share) (v : OptionValue)
      → IsKept x
      → IsFirm x (set tag_key s.tag v)
      → IsFirm x (share_value s v)
  unfolding share_value
  share_value-IsFirm s v (c, r, m) h =
      let named = set path_key s.path (set tag_key s.tag v) in
      let cached = set_cache s.cache named in
      let marked = set_readonly s.readonly cached in
      set_mount-IsFirm s.mount marked m (
        set_readonly-IsFirm s.readonly cached r (
          set_cache-IsFirm s.cache named c
            (set-IsFirm x path_key s.path (set tag_key s.tag v) names.1 h)))

reread_share :
    (s : Share) (v : OptionValue)
    → CanShare v
    → parse (to_string (share_value s v)) ≡ share_value s v
unfolding text_eq
reread_share s [] h =
    reread tag_key _
      (share_value-IsFirm tag_key s [] (refl, refl, refl) (set_empty-IsFirm tag_key s.tag names.0))
reread_share s (i ∷ is) (kept, firm) = reread i.key _ (
    share_value-IsFirm i.key s (i ∷ is) kept (set-IsFirm i.key tag_key s.tag (i ∷ is) names.0 firm))

-- The share that is read from a #share line that `setShares` has written, with any texts in it, is
-- the share that was set, for a new line and for one whose items the syntax can express, the first
-- not empty and none of cache, readonly and mount (CanShare).
pub share_of-share_value :
    (s : Share) (v : OptionValue) → CanShare v → share_of (parse (to_string (share_value s v))) ≡ s
share_of-share_value s v h = rw (reread_share s v h) (share_of-share_value_kept s v)
