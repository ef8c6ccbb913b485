-- ===== src/Tests/Runs.antt =====
-- A runner: concrete runs.
use qemu_gui_manager.VmRunner.Machine.{
  new_runner, alive, all_alive, tick, kill_timeout, stopped, starting, stopping, helpers, qemu,
  exiting, Helper, state_changed, reported, terminated, removed_files, Runner, World,
}
use qemu_gui_manager.VmRunner.Ended.{IsEnded}
use qemu_gui_manager.VmRunner.Ending.{is_late, exiting-ends, IsWaiting, qemu-ends, helpers-end}
use qemu_gui_manager.Prelude.{
  ℕ, ◌≡◌, refl, ◌⊎◌, inr, Bool, true, false, none, some, List, [], ◌∷◌, ◌==◌, length,
}
use qemu_gui_manager.VmRunner.LogTail.{log_tail}
use qemu_gui_manager.VmRunner.Shell.{shell_words, between}
use qemu_gui_manager.VmRunner.Quoting.{
  is_plain_char, is_plain, quote_arg, shell_quote, shell_words-shell_quote,
}
use qemu_gui_manager.VmRunner.Mounts.{ExecResult}
use qemu_gui_manager.VmConfig.Shares.{Share}
use qemu_gui_manager.Numbers.{pos}
use qemu_gui_manager.Text.{codes}
use qemu_gui_manager.QmpClient.Invariant.{initial-IsValid}
use qemu_gui_manager.VmRunner.CommandLine.{Host}
use qemu_gui_manager.VmRunner.Start.{start, force_off}
use qemu_gui_manager.VmRunner.Steps.{starts, forces_off, kill_times_out, new, then}
use qemu_gui_manager.VmRunner.Sound.{IsSound}
use qemu_gui_manager.VmRunner.Soundness.{Reachable-IsSound}

abbrev host : Host
host = record {
  preferred_qemu = codes "/usr/bin/qemu-system-x86_64";
  virtiofsd = [];
  home = codes "/home/u";
  arch = codes "x86_64";
  runtime_dir = codes "/run";
  local_size = length;
  short_hash = λ t. t;
  base64 = λ t. t;
}

abbrev world : World
world = record {
  host = host;
  lives = λ p. true;
  cmdline = λ p. [];
  exists = λ t. true;
  is_executable = λ t. true;
  is_dir = λ t. true;
  elapsed = 0;
  pid_file = 0;
  log = none;
  log_error = none;
  run_program = λ program args. inr 4711;
}

abbrev fresh_runner : Runner
fresh_runner = new_runner (codes "/run/vm")

-- A VM without shared folders starts QEMU at once and waits for it.
starts_qemu :
    ((start world [] fresh_runner).state ≡ starting)
    × ((start world [] fresh_runner).phase ≡ qemu)
    × ((start world [] fresh_runner).pid ≡ 4711)
unfolding start
starts_qemu = (refl, refl, refl)

Reachable-IsSound_example :
    IsSound (kill_timeout world (force_off world (start world [] fresh_runner)))
Reachable-IsSound_example =
    Reachable-IsSound {dir = codes "/run/vm"}
      (then (then (then new (starts world [] _)) (forces_off world _)) (kill_times_out world _))

shell_words-shell_quote_example :
    shell_words between [] (shell_quote (codes "it's" ∷ [] ∷ codes "a=b" ∷ []))
    ≡ some (codes "it's" ∷ [] ∷ codes "a=b" ∷ [])
unfolding is_plain is_plain_char
shell_words-shell_quote_example =
    shell_words-shell_quote (codes "it's" ∷ [] ∷ codes "a=b" ∷ []) (refl, (refl, (refl, tt)))

-- An argument of plain characters and a newline at its end is left as it is.
line_end_unquoted : quote_arg (codes "abc\n") ≡ codes "abc\n"
unfolding quote_arg is_plain is_plain_char
line_end_unquoted = refl

abbrev music : Share
music = record {
  tag = codes "music";
  path = codes "/srv/music";
  cache = codes "auto";
  readonly = true;
  mount = codes "/mnt/music";
}

guest : Share → ExecResult
guest s = record { error = []; exit_code = pos 1; err = codes "no such device" }

-- Only process 43 is there, a virtiofsd of the run.
abbrev lives_43 : ℕ → Bool
lives_43 p = p == 43

abbrev dead_world : World
dead_world = record world {
  lives = lives_43;
  cmdline = λ p. codes "--socket-path=/run/vm/fs1.sock" ∷ [];
}

abbrev two_helpers : List Helper
two_helpers =
    record { pid = 42; marker = codes "--socket-path=/run/vm/fs0.sock" }
    ∷ record { pid = 43; marker = codes "--socket-path=/run/vm/fs1.sock" }
    ∷ []

abbrev exiting_runner : Runner
exiting_runner = record fresh_runner {
  state = stopping;
  phase = exiting;
  pid = 4711;
  helpers = two_helpers;
  polling = true;
}

abbrev starting_runner : Runner
starting_runner = record fresh_runner {
  state = starting;
  phase = qemu;
  pid = 4711;
  helpers = two_helpers;
  polling = true;
}

abbrev helped_runner : Runner
helped_runner = record fresh_runner {
  state = starting;
  phase = helpers;
  helpers = two_helpers;
  polling = true;
}

-- The helper that is there is told to end, and the files are removed.
ends_other :
    (tick dead_world exiting_runner).effects
    ≡ reported (codes "QEMU stopped unexpectedly")
      ∷ state_changed stopped
      ∷ removed_files
      ∷ terminated 43
      ∷ []
unfolding tick log_tail
ends_other = refl

exiting-ends_example :
    ((is_late dead_world exiting_runner ≡ true)
      × IsEnded dead_world exiting_runner (tick dead_world exiting_runner))
    ⊎ ((is_late dead_world exiting_runner ≡ false)
        × (tick dead_world exiting_runner ≡ exiting_runner))
exiting-ends_example = exiting-ends dead_world exiting_runner initial-IsValid refl

qemu-ends_example :
    ((alive dead_world 4711 ≡ false)
      × IsEnded dead_world starting_runner (tick dead_world starting_runner))
    ⊎ ((alive dead_world 4711 ≡ true)
        × IsWaiting 4711 starting_runner (tick dead_world starting_runner))
qemu-ends_example = qemu-ends dead_world starting_runner initial-IsValid refl

helpers-end_example : IsEnded dead_world helped_runner (tick dead_world helped_runner)
unfolding all_alive
helpers-end_example = helpers-end dead_world helped_runner initial-IsValid refl refl
