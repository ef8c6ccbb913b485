-- ===== src/Tests/Files.antt =====
-- Argument files: concrete texts and command lines.
use qemu_gui_manager.VmStore.{vm_name, save, reload, Vm}
use qemu_gui_manager.VmStore.Reload.{reload-save}
use qemu_gui_manager.Prelude.{◌≡◌, refl, Bool, none, some, [], ◌∷◌}
use qemu_gui_manager.Text.{Text, codes, text_eq, has_char, starts_with, split, trimmed, has_space}
use qemu_gui_manager.ArgsFile.{
  ArgsFile, kind_eq, named_line, parse, from_argv, to_text, argv, remove_all, option, Line,
}
use qemu_gui_manager.ArgsFile.RoundTrip.{parse-to_text}
use qemu_gui_manager.ArgsFile.Settles.{parse-to_text-parse}
use qemu_gui_manager.ArgsFile.Argv.{options, from_argv-argv}
use qemu_gui_manager.ArgsFile.Edits.{others, remove_all-others}

abbrev text : Text
text = codes "# VM\n-m 4G\n--enable-kvm\n\n#qemu /opt/qemu\n"

-- The option of `text` that is written with two dashes is kept with one.
text-settles : to_text (parse text) ≡ codes "# VM\n-m 4G\n-enable-kvm\n\n#qemu /opt/qemu\n"
unfolding to_text parse
text-settles = refl

-- An option with three dashes loses one each time it is written.
three_dashes_change : to_text (parse (to_text (parse (codes "---x\n")))) ≡ codes "-x\n"
unfolding to_text parse
three_dashes_change = refl

parse-to_text-parse_example : parse (to_text (parse text)) ≡ parse text
unfolding split trimmed starts_with
parse-to_text-parse_example =
    parse-to_text-parse text (refl, (refl, (refl, (refl, (refl, (refl, tt))))))

abbrev memory : Line
memory = named_line option (codes "m") (codes "4G")

abbrev file : ArgsFile
file = memory ∷ named_line option (codes "enable-kvm") [] ∷ []

takes_value : Text → Bool
unfolding text_eq
takes_value t = text_eq t (codes "m")

from_argv-argv_example : from_argv (codes "qemu" ∷ argv file) takes_value ≡ options file
unfolding takes_value
from_argv-argv_example =
    from_argv-argv takes_value (codes "qemu") file
      ((λ k. (refl, refl, (λ e. cc), refl, refl)), ((λ k. (refl, refl, (λ e. cc), refl, refl)), tt))

parse-to_text_example : parse (to_text file) ≡ file
unfolding trimmed has_char has_space kind_eq
parse-to_text_example =
    parse-to_text file
      (
        (refl, refl, refl, (refl, refl), (λ e. refl)),
        refl,
        ((refl, refl, refl, (refl, refl), (λ e. refl)), refl, tt),
      )
      refl

remove_all-others_example : remove_all (codes "m") option file ≡ others (codes "m") option file
remove_all-others_example = remove_all-others (codes "m") option file

abbrev box : Vm
box = record { id = codes "box"; args = []; changes = 1; file = none }

-- Before its first save the name of a VM is that of its folder.
box_name : vm_name box ≡ codes "box"
unfolding vm_name
box_name = refl

-- A file with another text is taken up by the reload.
takes_up : (reload (λ t. t) (record box { file = some (codes "-m 4G\n") })).changes ≡ 2
unfolding reload to_text text_eq
takes_up = refl

-- The text is ASCII, of which UTF-8 is the same bytes.
reload-save_example :
    reload (λ t. t) (save (λ t. t) none file box).1 ≡ (save (λ t. t) none file box).1
unfolding trimmed has_char has_space kind_eq
reload-save_example =
    reload-save (λ t. t) (λ t. t) file box refl
      (
        (refl, refl, refl, (refl, refl), (λ e. refl)),
        refl,
        ((refl, refl, refl, (refl, refl), (λ e. refl)), refl, tt),
      )
      refl
