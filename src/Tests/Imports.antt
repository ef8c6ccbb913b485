-- ===== src/Tests/Imports.antt =====
-- The import of scripts: concrete texts.
use qemu_gui_manager.VmRunner.Quoting.{is_plain_char, is_plain, shell_quote}
use qemu_gui_manager.Prelude.{◌≡◌, refl, Bool, true, none, some, [], ◌∷◌, ◌++◌}
use qemu_gui_manager.Text.{Text, codes, text_eq, starts_with}
use qemu_gui_manager.Importer.Import.{is_qemu, argument_lines, import_found, import_script, Paths}
use qemu_gui_manager.Importer.Imported.{kept, import_script-shell_quote}
use qemu_gui_manager.Importer.Script.{split_commands}
use qemu_gui_manager.Importer.Exported.{split_commands-shell_quote}
use qemu_gui_manager.ArgsFile.{ArgsFile, comment_line, named_line, argv, option}
use qemu_gui_manager.ArgsFile.Argv.{options, AllFor}
use qemu_gui_manager.Tests.Config.{exact}
use qemu_gui_manager.Importer.Words.{Environment}

abbrev home_only : Environment
home_only = record { value = λ n. none; home = codes "/home/me" }

-- A variable, a comment, a continuation, quotes, a home folder and an unknown variable.
splits :
    split_commands home_only
      (codes "D=/vm # disks\nqemu-kvm -hda \"$D/a b.img\" \\\n -L ~/x '$D'$E; true && cd /")
    ≡ (
      (codes "D=/vm" ∷ [])
          ∷ (codes "qemu-kvm"
              ∷ codes "-hda"
              ∷ codes "/vm/a b.img"
              ∷ codes "-L"
              ∷ codes "/home/me/x"
              ∷ codes "$D$E"
              ∷ [])
          ∷ (codes "true" ∷ [])
          ∷ (codes "cd" ∷ codes "/" ∷ [])
          ∷ [],
      codes "Unknown variable $E, copied as it is." ∷ [],
    )
unfolding split_commands
splits = refl

split_commands-shell_quote_example :
    split_commands home_only (shell_quote (codes "it's" ∷ [] ∷ codes "$a;" ∷ codes "x" ∷ []))
    ≡ ((codes "it's" ∷ [] ∷ codes "$a;" ∷ codes "x" ∷ []) ∷ [], [])
unfolding is_plain is_plain_char
split_commands-shell_quote_example =
    split_commands-shell_quote home_only (codes "it's") ([] ∷ codes "$a;" ∷ codes "x" ∷ [])
      (refl, (refl, (refl, (refl, tt))))

abbrev takes_m : Text → Bool
takes_m n = text_eq n (codes "m")

abbrev paths : Paths
paths = record {
  absolute = λ base t. base ++ (codes "/" ++ t);
  is_absolute = λ t. starts_with t (codes "/");
  exists = λ t. true;
  takes_value = some takes_m;
}

abbrev exported : ArgsFile
exported =
    named_line option (codes "m") (codes "4G")
    ∷ comment_line (codes "# x")
    ∷ named_line option (codes "daemonize") []
    ∷ named_line option (codes "S") []
    ∷ []

exported-AllFor : AllFor takes_m exported
unfolding text_eq
exported-AllFor = (
  (λ e. (refl, refl, (λ n. cc), refl, refl)),
  (
    (λ e. cc),
    ((λ e. (refl, refl, (λ n. cc), refl, refl)), ((λ e. (refl, refl, (λ n. cc), refl, refl)), tt)),
  ),
)

import_script-shell_quote_example :
    (import_script exact home_only paths
        (codes "/s")
        (shell_quote (codes "qemu-kvm" ∷ argv exported))
      ≡ import_found exact paths (record {
        base = codes "/s";
        argv = codes "qemu-kvm" ∷ argv exported;
        others = [];
        notes = [];
      }))
    × ((argument_lines paths (argv exported)).0 ≡ kept (options exported))
unfolding is_qemu is_plain is_plain_char argv
import_script-shell_quote_example =
    import_script-shell_quote exact home_only paths takes_m (codes "/s") (codes "qemu-kvm") exported
      refl (refl, (refl, (refl, (refl, (refl, tt))))) refl exported-AllFor
