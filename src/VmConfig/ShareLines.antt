-- ===== src/VmConfig/ShareLines.antt =====
-- VmConfig::shares and setShares on the value of one #share line, before it is written.
use qemu_gui_manager.Text.{Text, codes, is_empty, text_eq, to_lower}
use qemu_gui_manager.Prelude.{◌≡◌, refl, sym, ◌∙◌, Bool, true, false, [], ◌∷◌, if◌then◌else◌}
use qemu_gui_manager.OptionValue.{OptionValue, get, flag, set, set_flag, remove}
use qemu_gui_manager.VmConfig.Shares.{
  share_of, set_cache, set_readonly, set_mount, share_value, Share,
}
use qemu_gui_manager.Text.Laws.{text_eq_iff}
use qemu_gui_manager.OptionValue.Lookup.{get-set_self, get-set_ne, get-remove, flag-set_flag}

abbrev pub tag_key : Text
tag_key = codes "tag"

abbrev pub path_key : Text
path_key = codes "path"

abbrev pub cache_key : Text
cache_key = codes "cache"

abbrev pub readonly_key : Text
readonly_key = codes "readonly"

abbrev pub mount_key : Text
mount_key = codes "mount"

get-remove_ne :
    (k j f : Text) (v : OptionValue) → text_eq k j ≡ false → get j f (remove k v) ≡ get j f v
get-remove_ne k j f v h = rw (get-remove k j f v, h) refl

get-remove_self : (k f : Text) (v : OptionValue) → get k f (remove k v) ≡ f
get-remove_self k f v = rw (get-remove k k f v, (text_eq_iff k k).1 refl) refl

get-if :
    (j f r : Text) (b : Bool) (x y : OptionValue)
    → (b ≡ true → get j f x ≡ r)
    → (b ≡ false → get j f y ≡ r)
    → get j f (if b then x else y) ≡ r
get-if j f r true x y p q = p refl
get-if j f r false x y p q = q refl

get-set_neb :
    (k j x f : Text) (v : OptionValue) → text_eq k j ≡ false → get j f (set k x v) ≡ get j f v
get-set_neb k j x f v h = get-set_ne k j x f v (λ e. cc ((text_eq_iff k j).1 e, h))

module _ (j f : Text) where
  get-set_mount :
      (m : Text) (v : OptionValue)
      → text_eq mount_key j ≡ false
      → get j f (set_mount m v) ≡ get j f v
  unfolding set_mount
  get-set_mount m v h =
      get-if j f (get j f v) (is_empty m) _ _ (λ e. get-remove_ne mount_key j f v h)
        (λ e. get-set_neb mount_key j m f v h)

  get-set_readonly :
      (on : Bool) (v : OptionValue)
      → text_eq readonly_key j ≡ false
      → get j f (set_readonly on v) ≡ get j f v
  unfolding set_readonly set_flag
  get-set_readonly on v h =
      get-if j f (get j f v) on _ _ (λ e. get-set_neb readonly_key j _ f v h)
        (λ e. get-remove_ne readonly_key j f v h)

  get-set_cache :
      (c : Text) (v : OptionValue)
      → text_eq cache_key j ≡ false
      → get j f (set_cache c v) ≡ get j f v
  unfolding set_cache
  get-set_cache c v h =
      get-if j f (get j f v) (text_eq c (codes "auto")) _ _ (λ e. get-remove_ne cache_key j f v h)
        (λ e. get-set_neb cache_key j c f v h)

get-set_mount_self : (m : Text) (v : OptionValue) → get mount_key [] (set_mount m v) ≡ m
unfolding set_mount
get-set_mount_self [] v = get-remove_self mount_key [] v
get-set_mount_self (c ∷ cs) v = get-set_self mount_key (c ∷ cs) [] v

get-set_cache_self : (c : Text) (v : OptionValue) → get cache_key (codes "auto") (set_cache c v) ≡ c
unfolding set_cache
get-set_cache_self c v =
    get-if cache_key (codes "auto") c (text_eq c (codes "auto")) _ _
      (λ e. get-remove_self cache_key (codes "auto") v ∙ sym ((text_eq_iff c (codes "auto")).0 e))
      (λ e. get-set_self cache_key c (codes "auto") v)

flag-get :
    (k : Text) (f : Bool) (v w : OptionValue) → get k [] v ≡ get k [] w → flag k f v ≡ flag k f w
unfolding flag
flag-get k f v w e = rw e refl

flag-set_readonly : (on : Bool) (v : OptionValue) → flag readonly_key false (set_readonly on v) ≡ on
unfolding set_readonly get
flag-set_readonly true v = flag-set_flag readonly_key true false v
flag-set_readonly false v =
    flag-get readonly_key false (remove readonly_key v) [] (get-remove_self readonly_key [] v)
    ∙ (unfold flag get to_lower in refl)

Share-eq :
    (a b : Share)
    → a.tag ≡ b.tag
    → a.path ≡ b.path
    → a.cache ≡ b.cache
    → a.readonly ≡ b.readonly
    → a.mount ≡ b.mount
    → a ≡ b
Share-eq a b t p c r m = cc

share_of-fields :
    (s : Share) (v : OptionValue)
    → get tag_key [] v ≡ s.tag
    → get path_key [] v ≡ s.path
    → get cache_key (codes "auto") v ≡ s.cache
    → flag readonly_key false v ≡ s.readonly
    → get mount_key [] v ≡ s.mount
    → share_of v ≡ s
unfolding share_of
share_of-fields s v t p c r m = Share-eq (share_of v) s t p c r m

-- The edits that come after that of the path keep another key.
module _ (s : Share) (w : OptionValue) (j f : Text) where
  get-later :
      text_eq mount_key j ≡ false
      → text_eq readonly_key j ≡ false
      → text_eq cache_key j ≡ false
      → get j f (set_mount s.mount (set_readonly s.readonly (set_cache s.cache w))) ≡ get j f w
  get-later m r c =
      get-set_mount j f s.mount _ m
      ∙ get-set_readonly j f s.readonly _ r
      ∙ get-set_cache j f s.cache w c

-- The edits keep what a share is read from.
pub share_of-share_value_kept : (s : Share) (v : OptionValue) → share_of (share_value s v) ≡ s
unfolding share_value text_eq
share_of-share_value_kept s v =
    let named = set path_key s.path (set tag_key s.tag v) in
    let cached = set_cache s.cache named in
    let marked = set_readonly s.readonly cached in
    share_of-fields s (share_value s v)
      (get-later s named tag_key [] refl refl refl
        ∙ get-set_neb path_key tag_key s.path [] (set tag_key s.tag v) refl
        ∙ get-set_self tag_key s.tag [] v)
      (get-later s named path_key [] refl refl refl
        ∙ get-set_self path_key s.path [] (set tag_key s.tag v))
      (get-set_mount cache_key (codes "auto") s.mount marked refl
        ∙ get-set_readonly cache_key (codes "auto") s.readonly cached refl
        ∙ get-set_cache_self s.cache named)
      (flag-get readonly_key false _ marked (get-set_mount readonly_key [] s.mount marked refl)
        ∙ flag-set_readonly s.readonly cached)
      (get-set_mount_self s.mount marked)
