-- ===== src/Tests/Values.antt =====
-- Option values: concrete texts.
use qemu_gui_manager.Prelude.{◌≡◌, refl, inl, false, [], ◌∷◌}
use qemu_gui_manager.Text.{Text, codes, has_char}
use qemu_gui_manager.OptionValue.{OptionValue, split_from, parse, get, set, to_string}
use qemu_gui_manager.OptionValue.RoundTrip.{parse-to_string, to_string-parse}
use qemu_gui_manager.OptionValue.Clean.{IsClean}
use qemu_gui_manager.OptionValue.Edits.{IsKeyName, get-reparse_self}

-- A first part with a leading `=`, then a key: the sign is lost, as it is where it stands alone.
loses_equals : to_string (parse (codes "=x,a=b")) ≡ codes "x,a=b"
unfolding to_string parse
loses_equals = refl

-- A comma at the end is an empty last part, which an added key turns into an escaped comma.
trailing_comma : to_string (set (codes "k") (codes "v") (parse (codes "a,"))) ≡ codes "a,,k=v"
unfolding to_string parse set
trailing_comma = refl

abbrev drive : Text
drive = codes "file=/a,,b.img,if=virtio"

drive-IsClean : IsClean drive
unfolding split_from
drive-IsClean = (refl, refl, (refl, (λ e. cc), tt))

abbrev drive_value : OptionValue
drive_value =
    record { key = codes "file"; value = codes "/a,b.img"; bare = false }
    ∷ record { key = codes "if"; value = codes "virtio"; bare = false }
    ∷ []

parse-to_string_example : parse (to_string drive_value) ≡ drive_value
unfolding has_char
parse-to_string_example = parse-to_string drive_value (
  inl (refl, (λ e. cc), refl),
  refl,
  (λ e. λ q. cc),
  (inl (refl, (λ e. cc), refl), refl, (λ e. cc), tt),
)

to_string-parse_example : to_string (parse drive) ≡ drive
unfolding split_from
to_string-parse_example = to_string-parse drive (refl, (refl, tt))

abbrev if_key : Text
if_key = codes "if"

if_key-IsKeyName : IsKeyName if_key
unfolding has_char
if_key-IsKeyName = ((λ e. cc), refl, refl)

get-reparse_self_example :
    get if_key [] (parse (to_string (set if_key (codes "ide,x") (parse drive)))) ≡ codes "ide,x"
get-reparse_self_example =
    get-reparse_self drive if_key (codes "ide,x") drive-IsClean if_key-IsKeyName []
