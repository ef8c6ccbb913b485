-- ===== src/VmRunner/Start.antt =====
-- src/core/vmrunner.cpp: what the owner of a runner calls.
use qemu_gui_manager.Prelude.{
  ℕ, suc, inl, inr, Bool, true, false, not, ◌||◌, Option, none, some, List, [], ◌∷◌, ◌++◌, ltb,
  ◌==◌, if◌then◌else◌,
}
use qemu_gui_manager.Text.{Text, codes, is_empty}
use qemu_gui_manager.ArgsFile.{ArgsFile}
use qemu_gui_manager.VmConfig.Shares.{shares, Share}
use qemu_gui_manager.VmConfig.Memory.{has_shared_memory}
use qemu_gui_manager.VmConfig.Name.{name, qemu_binary}
use qemu_gui_manager.QmpClient.{connect_to_socket, execute}
use qemu_gui_manager.VmRunner.CommandLine.{qemu_for, share_path, qemu_args}
use qemu_gui_manager.VmRunner.Machine.{
  state_eq, phase_eq, effect, set_state, cleanup, fail, launch_qemu, running_pid, escalate, stopped,
  starting, stopping, idle, helpers, attaching, exiting, removed_files, log_started, launched,
  Runner, World,
}

abbrev pub is_stopped : Runner → Bool
is_stopped r = state_eq r.state stopped

-- isActive() || phase != Idle
abbrev pub is_busy : Runner → Bool
is_busy r = not (is_stopped r) || not (phase_eq r.phase idle)

-- What both start() and attach() reset.
abbrev pub fresh : Runner → Runner
fresh r = record r { error = []; stop_requested = false; kill_step = 0 }

-- attach
unfoldable pub attach : World → ArgsFile → Runner → Runner
unfolding running_pid connect_to_socket
attach w args r =
    if is_busy r
    then r
    else let p = running_pid w r in
      if p == 0
      then effect removed_files (record r { args = args })
      else record (fresh (record r { args = args; pid = p })) {
        phase = attaching;
        connecting = true;
        qmp = connect_to_socket r.qmp;
      }

-- The first share that cannot be used.
unfoldable pub bad_share : World → List Share → Option Text
bad_share w [] = none
bad_share w (s ∷ ss) =
    let rest = bad_share w ss in
    if is_empty s.tag
    then some (codes "The shared folder " ++ (s.path ++ codes " has no tag"))
    else if not (w.is_dir s.path)
    then some (codes "The shared folder " ++ (s.path ++ codes " does not exist"))
    else rest

abbrev no_shared_memory : Text
no_shared_memory =
    codes
      "Shared folders need the guest memory to be shared with virtiofsd: turn it on in the Shared Folders settings"

abbrev no_virtiofsd : Text
no_virtiofsd =
    codes "Shared folders need virtiofsd, which is not installed (sudo dnf install virtiofsd)"

-- Why start() refuses the arguments, in its order.
unfoldable pub refusal : World → ArgsFile → Option Text
unfolding qemu_for qemu_binary has_shared_memory bad_share shares
refusal w args =
    let program = qemu_for w.host args in
    if is_empty program || not (w.is_executable program)
    then some (
        if is_empty (qemu_binary w.host.home args)
        then codes "QEMU was not found: set its path in the preferences"
        else program
          ++ codes
              " was not found: it is the QEMU of this VM, from the #qemu line of its arguments")
    else if is_empty (shares args)
    then none
    else if not (has_shared_memory args)
    then some no_shared_memory
    else if is_empty w.host.virtiofsd
    then some no_virtiofsd
    else bad_share w (shares args)

abbrev pub helper_marker : Text → ℕ → Text
helper_marker dir i = codes "--socket-path=" ++ share_path dir i

unfoldable pub helper_args : Text → ℕ → Share → List Text
unfolding share_path
helper_args dir i s =
    helper_marker dir i
    ∷ (codes "--shared-dir=" ++ s.path)
    ∷ (codes "--cache=" ++ s.cache)
    ∷ (if s.readonly then codes "--readonly" ∷ [] else [])

-- The loop that starts virtiofsd for each share; false where one could not be run.
unfoldable pub start_helpers : World → ℕ → List Share → Runner → Runner × Bool
unfolding fail helper_args share_path
start_helpers w i [] r = (r, true)
start_helpers w i (s ∷ ss) r = elim (w.run_program w.host.virtiofsd (helper_args r.dir i s)) [
  | inl e ↦ (fail w e r, false)
  | inr p ↦ start_helpers w (suc i) ss (
      effect (launched w.host.virtiofsd (helper_args r.dir i s)) (record r {
        helpers = r.helpers ++ (record { pid = p; marker = helper_marker r.dir i } ∷ []);
      }))
]

-- The end of start(): with no shares QEMU is run at once.
abbrev pub wait_or_launch : World → List Share → Runner × Bool → Runner
wait_or_launch w ss (r, false) = r
wait_or_launch w ss (r, true) =
    if is_empty ss then launch_qemu w r else record r { phase = helpers; polling = true }

-- start() behind its checks; the firmware copies it makes again are left out.
unfoldable pub start_run : World → ArgsFile → Runner → Runner
unfolding fail set_state start_helpers launch_qemu shares qemu_for qemu_args
start_run w args r =
    let cleared = effect removed_files r in
    elim w.log_error [
      | some e ↦ fail w e cleared
      | none ↦ wait_or_launch w (shares args) (
          start_helpers w 0 (shares args) (
            set_state starting
              (effect (log_started (qemu_for w.host args ∷ qemu_args w.host r.dir args)) cleared)))
    ]

unfoldable pub start : World → ArgsFile → Runner → Runner
unfolding running_pid attach refusal fail start_run
start w args r =
    if is_busy r
    then r
    else if ltb 0 (running_pid w r)
    then attach w [] r
    else let ready = record (fresh r) { args = args } in
      elim (refusal w args) [ some e ↦ fail w e ready | none ↦ start_run w args ready ]

-- pause(), resume(), powerdown() and reset(), which differ in their command and callback.
unfoldable pub command : Text → ℕ → Runner → Runner
unfolding execute
command name callback r =
    if r.qmp.ready then record r { qmp = execute name [] (some callback) r.qmp } else r

abbrev pub pause : Runner → Runner
pause r = command (codes "stop") 1 r

abbrev pub resume : Runner → Runner
resume r = command (codes "cont") 2 r

abbrev pub powerdown : Runner → Runner
powerdown r = command (codes "system_powerdown") 3 r

abbrev pub reset : Runner → Runner
reset r = command (codes "system_reset") 4 r

unfoldable pub force_off : World → Runner → Runner
unfolding cleanup set_state execute escalate
force_off w r =
    if phase_eq r.phase helpers
    then set_state stopped (cleanup w (record r { stop_requested = true }))
    else if is_stopped r || phase_eq r.phase exiting
    then r
    else let asked = record r { stop_requested = true; kill_step = 0 } in
      if r.qmp.ready
      then record (set_state stopping
          (record asked { qmp = execute (codes "quit") [] none r.qmp })) { kill_timer = true }
      else escalate w asked
