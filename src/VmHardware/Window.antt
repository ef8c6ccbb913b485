-- ===== src/VmHardware/Window.antt =====
-- src/core/vmhardware.cpp: the window of the graphics, and both edits together.
use qemu_gui_manager.Prelude.{
  suc, Bool, true, false, not, ◌&&◌, ◌||◌, none, some, List, [], ◌∷◌, ◌++◌, ◌==◌, bool_eq,
  if◌then◌else◌, last, insert_at,
}
use qemu_gui_manager.Text.{Text, codes, is_empty, text_eq, one_of}
use qemu_gui_manager.Numbers.{Conversions}
use qemu_gui_manager.OptionValue.{OptionValue, implied, set_implied, get, set, remove}
use qemu_gui_manager.ArgsFile.{ArgsFile, named_line, value_at, set_value_at, option}
use qemu_gui_manager.VmHardware.Lines.{last_index, later, insert_after}
use qemu_gui_manager.VmHardware.Machine.{machine, accel_key}
use qemu_gui_manager.VmHardware.Graphics.{
  kind_is, card_lines, graphics, accelerated, custom, Graphics,
}
use qemu_gui_manager.VmHardware.Card.{set_card}

-- The `gl` of `setWindow`: 1, 0 and -1.
pub data OpenGl : Type 0 where
  turned_on turned_off kept : OpenGl

abbrev pub gl_is : OpenGl → OpenGl → Bool
gl_is turned_on turned_on = true
gl_is turned_off turned_off = true
gl_is kept kept = true
gl_is _ _ = false

-- kDisplayKeys
unfoldable pub display_keys : Text → List Text
unfolding text_eq
display_keys display =
    if text_eq display (codes "sdl")
    then codes "gl" ∷ codes "grab-mod" ∷ codes "show-cursor" ∷ codes "window-close" ∷ []
    else if text_eq display (codes "gtk")
    then codes "gl"
      ∷ codes "full-screen"
      ∷ codes "grab-on-hover"
      ∷ codes "show-tabs"
      ∷ codes "show-cursor"
      ∷ codes "window-close"
      ∷ codes "show-menubar"
      ∷ codes "zoom-to-fit"
      ∷ codes "clipboard"
      ∷ []
    else if text_eq display (codes "egl-headless")
    then codes "rendernode" ∷ []
    else []

abbrev pub is_sdl_or_gtk : Text → Bool
is_sdl_or_gtk t = text_eq t (codes "sdl") || text_eq t (codes "gtk")

-- The value of a new -display.
abbrev pub new_display : Text → OpenGl → Bool → Text
new_display display gl is_3d =
    if (gl_is gl turned_on || (gl_is gl kept && is_3d)) && is_sdl_or_gtk display
    then display ++ codes ",gl=on"
    else display

-- Without a -display.
unfoldable pub add_window : Text → OpenGl → Bool → ArgsFile → ArgsFile
unfolding text_eq card_lines last_index insert_after
add_window display gl is_3d args =
    let value = new_display display gl is_3d in
    if is_empty display then args else elim (last (card_lines args)) [
      | some i ↦ elim (later (some i) (last_index (codes "vga") args)) [
        | some j ↦ insert_at (suc j) (named_line option (codes "display") value) args
        | none ↦ args
      ]
      | none ↦
          (insert_after (codes "vga" ∷ accel_key ∷ machine ∷ []) (codes "display") value false
            args).0
    ]

-- The loop over the items that another window keeps.
unfoldable pub keep_items : List Text → OptionValue → OptionValue → OptionValue
unfolding one_of set
keep_items keys [] fresh = fresh
keep_items keys (i ∷ is) fresh = keep_items keys is (
    if not (is_empty i.key) && not i.bare && one_of i.key keys
    then set i.key i.value fresh
    else fresh)

abbrev pub other_window : Text → OptionValue → OptionValue
other_window display v =
    if not (is_empty display) && not (text_eq display (implied v))
    then keep_items (display_keys display) v (set_implied display [])
    else v

abbrev pub gl_key : Text
gl_key = codes "gl"

abbrev pub set_gl : OpenGl → OptionValue → OptionValue
set_gl gl v =
    if is_sdl_or_gtk (implied v)
    then if gl_is gl turned_on && text_eq (get gl_key (codes "off") v) (codes "off")
      then set gl_key (codes "on") v
      else if gl_is gl turned_off
      then remove gl_key v
      else v
    else if text_eq (implied v) (codes "none")
    then remove gl_key v
    else v

unfoldable pub window_value : Text → OpenGl → OptionValue → OptionValue
unfolding implied set_implied text_eq display_keys keep_items get set remove
window_value display gl v = set_gl gl (other_window display v)

-- setWindow
unfoldable pub set_window : Text → OpenGl → Bool → ArgsFile → ArgsFile
unfolding last_index add_window value_at window_value set_value_at
set_window display gl is_3d args = elim (last_index (codes "display") args) [
  | none ↦ add_window display gl is_3d args
  | some i ↦ set_value_at i (window_value display gl (value_at args i)) args
]

abbrev pub same_card : Graphics → Graphics → Bool
same_card now g =
    kind_is g.kind now.kind
    && (is_empty g.device || text_eq g.device now.device)
    && bool_eq g.native_context now.native_context
    && bool_eq g.venus now.venus
    && (g.hostmem_mib == 0 || g.hostmem_mib == now.hostmem_mib)

unfoldable pub set_graphics : Conversions → Graphics → ArgsFile → ArgsFile
unfolding graphics text_eq set_card set_window
set_graphics q g args =
    let now = graphics q args in
    let by_hand = kind_is now.kind custom || kind_is g.kind custom in
    let file = if not by_hand && not (same_card now g) then set_card now g args else args in
    let is_3d = not by_hand && kind_is g.kind accelerated in
    let gl =
      if by_hand || kind_is g.kind now.kind
      then kept
      else if is_3d
      then turned_on
      else turned_off in
    set_window g.display gl is_3d file
