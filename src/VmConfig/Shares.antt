-- ===== src/VmConfig/Shares.antt =====
-- src/core/vmconfig.cpp: the folders shared with virtiofs, the #share directives.
use qemu_gui_manager.Prelude.{ℕ, Bool, true, false, List, [], ◌∷◌, map, if◌then◌else◌}
use qemu_gui_manager.Text.{Text, codes, is_empty, text_eq}
use qemu_gui_manager.OptionValue.{OptionValue, get, flag, set, set_flag, remove, to_string}
use qemu_gui_manager.ArgsFile.{
  ArgsFile, indexes_from, indexes_of, value_at, set_value_at, add, remove_indexes, directive,
}

pub record Share : Type 0 where
  pub tag : Text
  pub path : Text
  pub cache : Text
  pub readonly : Bool
  pub mount : Text

abbrev pub share_indexes : ArgsFile → List ℕ
share_indexes args = indexes_of (codes "share") directive args

unfoldable pub share_of : OptionValue → Share
unfolding get flag
share_of v = record {
  tag = get (codes "tag") [] v;
  path = get (codes "path") [] v;
  cache = get (codes "cache") (codes "auto") v;
  readonly = flag (codes "readonly") false v;
  mount = get (codes "mount") [] v;
}

unfoldable pub shares : ArgsFile → List Share
unfolding indexes_from value_at share_of
shares args = map (λ i. share_of (value_at args i)) (share_indexes args)

unfoldable pub set_cache : Text → OptionValue → OptionValue
unfolding text_eq remove set
set_cache cache v =
    if text_eq cache (codes "auto") then remove (codes "cache") v else set (codes "cache") cache v

unfoldable pub set_readonly : Bool → OptionValue → OptionValue
unfolding set_flag remove
set_readonly on v = if on then set_flag (codes "readonly") true v else remove (codes "readonly") v

unfoldable pub set_mount : Text → OptionValue → OptionValue
unfolding set remove
set_mount mount v = if is_empty mount then remove (codes "mount") v else set (codes "mount") mount v

-- The edits of one round of the loop of `setShares`.
unfoldable pub share_value : Share → OptionValue → OptionValue
unfolding set_cache set_readonly set_mount set
share_value s v =
    let named = set (codes "path") s.path (set (codes "tag") s.tag v) in
    set_mount s.mount (set_readonly s.readonly (set_cache s.cache named))

-- The loops of `setShares`; `old` is what is left of the indexes found at the start.
unfoldable pub set_shares_from : List Share → List ℕ → ArgsFile → ArgsFile
unfolding share_value value_at set_value_at add to_string remove_indexes
set_shares_from [] old args = remove_indexes old args
set_shares_from (s ∷ ss) [] args =
    set_shares_from ss [] (add (codes "share") (to_string (share_value s [])) directive args).0
set_shares_from (s ∷ ss) (i ∷ old) args =
    set_shares_from ss old (set_value_at i (share_value s (value_at args i)) args)

unfoldable pub set_shares : List Share → ArgsFile → ArgsFile
unfolding set_shares_from indexes_from
set_shares ss args = set_shares_from ss (share_indexes args) args
