-- ===== src/VmRunner/Machine.antt =====
-- src/core/vmrunner.cpp: the state of a run and what timers and the QMP client do to it. What
-- reaches the outside is in `effects`, the last first.
use qemu_gui_manager.Text.{Text, codes, is_empty, one_of, file_name}
use qemu_gui_manager.Prelude.{
  ℕ, zero, suc, ◌⊎◌, inl, inr, Bool, true, false, not, ◌&&◌, ◌||◌, Option, List, [], ◌∷◌, ◌++◌, ltb,
  ◌==◌, if◌then◌else◌,
}
use qemu_gui_manager.ArgsFile.{ArgsFile}
use qemu_gui_manager.QmpClient.{initial, connect_to_socket, disconnect_from_socket, Client}
use qemu_gui_manager.VmRunner.CommandLine.{qemu_for, qmp_path, share_path, qmp_arg, qemu_args, Host}
use qemu_gui_manager.VmRunner.LogTail.{log_tail}

pub data State : Type 0 where
  stopped starting running paused stopping : State

pub data Phase : Type 0 where
  idle helpers qemu attaching exiting : Phase

pub record Helper : Type 0 where
  pub pid : ℕ
  pub marker : Text

pub data Effect : Type 0 where
  state_changed : State → Effect
  reported : Text → Effect
  terminated killed : ℕ → Effect
  removed_files : Effect
  log_started : List Text → Effect
  launched : Text → List Text → Effect
  mounting : Effect

-- The run is that of the VM with the run directory `dir`; a pid of 0 is none.
pub record Runner : Type 0 where
  pub dir : Text
  pub state : State
  pub phase : Phase
  pub error : Text
  pub qmp : Client
  pub polling : Bool
  pub kill_timer : Bool
  pub args : ArgsFile
  pub pid : ℕ
  pub helpers : List Helper
  pub agent : Bool
  pub connecting : Bool
  pub stop_requested : Bool
  pub kill_step : ℕ
  pub effects : List Effect

abbrev pub new_runner : Text → Runner
new_runner dir = record {
  dir = dir;
  state = stopped;
  phase = idle;
  error = [];
  qmp = initial;
  polling = false;
  kill_timer = false;
  args = [];
  pid = 0;
  helpers = [];
  agent = false;
  connecting = false;
  stop_requested = false;
  kill_step = 0;
  effects = [];
}

-- What the host is asked at one moment: /proc, the file system, how long `clock` has run in ms, the
-- number in the pid file (0 if it has none above), the log, and what starting a program gives: its
-- pid, or why it cannot run.
pub record World : Type 0 where
  pub host : Host
  pub lives : ℕ → Bool
  pub cmdline : ℕ → List Text
  pub exists : Text → Bool
  pub is_executable : Text → Bool
  pub is_dir : Text → Bool
  pub elapsed : ℕ
  pub pid_file : ℕ
  pub log : Option Text
  pub log_error : Option Text
  pub run_program : Text → List Text → Text ⊎ ℕ

abbrev pub state_eq : State → State → Bool
state_eq stopped stopped = true
state_eq starting starting = true
state_eq running running = true
state_eq paused paused = true
state_eq stopping stopping = true
state_eq _ _ = false

abbrev pub phase_eq : Phase → Phase → Bool
phase_eq idle idle = true
phase_eq helpers helpers = true
phase_eq qemu qemu = true
phase_eq attaching attaching = true
phase_eq exiting exiting = true
phase_eq _ _ = false

abbrev pub effect : Effect → Runner → Runner
effect e r = record r { effects = e ∷ r.effects }

-- setState
unfoldable pub set_state : State → Runner → Runner
set_state s r = if state_eq r.state s then r else effect (state_changed s) (record r { state = s })

-- alive
abbrev pub alive : World → ℕ → Bool
alive w zero = false
alive w (suc p) = w.lives (suc p)

-- The program name of the log's errors.
abbrev pub log_prefix : World → Runner → Text
log_prefix w r = file_name (qemu_for w.host r.args) ++ codes ":"

-- signalIfOurs
unfoldable pub signal_if_ours : World → ℕ → Text → (ℕ → Effect) → Runner → Runner
unfolding one_of
signal_if_ours w p marker sig r =
    if alive w p && one_of marker (w.cmdline p) then effect (sig p) r else r

unfoldable pub end_helpers : World → List Helper → Runner → Runner
unfolding signal_if_ours
end_helpers w [] r = r
end_helpers w (h ∷ hs) r = end_helpers w hs (signal_if_ours w h.pid h.marker terminated r)

unfoldable pub cleanup : World → Runner → Runner
unfolding end_helpers disconnect_from_socket
cleanup w r =
    let quiet = record r {
      polling = false;
      kill_timer = false;
      phase = idle;
      connecting = false;
      qmp = disconnect_from_socket r.qmp;
    } in
    effect removed_files
      (record (end_helpers w r.helpers quiet) { helpers = []; agent = false; pid = 0 })

unfoldable pub fail : World → Text → Runner → Runner
unfolding cleanup set_state
fail w message r =
    effect (reported message) (set_state stopped (record (cleanup w r) { error = message }))

-- launchQemu
unfoldable pub launch_qemu : World → Runner → Runner
unfolding fail qemu_for qemu_args
launch_qemu w r = elim (w.run_program (qemu_for w.host r.args) (qemu_args w.host r.dir r.args)) [
  | inl e ↦ fail w e r
  | inr p ↦
      effect (launched (qemu_for w.host r.args) (qemu_args w.host r.dir r.args))
        (record r { pid = p; phase = qemu; polling = true })
]

-- runningPid
unfoldable pub running_pid : World → Runner → ℕ
unfolding one_of qmp_arg
running_pid w r =
    if alive w w.pid_file && one_of (qmp_arg r.dir) (w.cmdline w.pid_file) then w.pid_file else 0

unfoldable pub all_alive : World → List Helper → Bool
all_alive w [] = true
all_alive w (h ∷ hs) = alive w h.pid && all_alive w hs

unfoldable pub all_listen : World → Text → ℕ → List Helper → Bool
unfolding share_path
all_listen w dir i [] = true
all_listen w dir i (h ∷ hs) = w.exists (share_path dir i) && all_listen w dir (suc i) hs

unfoldable pub exited : World → Runner → Runner
unfolding cleanup set_state log_tail file_name qemu_for
exited w r =
    let tail = log_tail true (log_prefix w r) w.log in
    let cleaned = cleanup w r in
    let message =
      if is_empty tail
      then codes "QEMU stopped unexpectedly"
      else codes "QEMU stopped unexpectedly:\n" ++ tail in
    if r.stop_requested
    then set_state stopped cleaned
    else effect (reported message) (set_state stopped (record cleaned { error = message }))

unfoldable pub tick_helpers : World → Runner → Runner
unfolding all_alive all_listen fail launch_qemu log_tail file_name qemu_for
tick_helpers w r =
    let tail = log_tail false (log_prefix w r) w.log in
    if not (all_alive w r.helpers)
    then fail w (codes "virtiofsd stopped:\n" ++ tail) r
    else if all_listen w r.dir 0 r.helpers
    then launch_qemu w (record r { polling = false })
    else if ltb 10000 w.elapsed
    then fail w (codes "virtiofsd did not open its socket:\n" ++ tail) r
    else r

-- The pid file tells the right process if QEMU daemonizes.
abbrev pub pid_or : ℕ → ℕ → ℕ
pid_or zero p = p
pid_or (suc f) p = suc f

unfoldable pub tick_qemu : World → Runner → Runner
unfolding cleanup set_state fail log_tail file_name qemu_for connect_to_socket
tick_qemu w s =
    let r = record s { pid = pid_or w.pid_file s.pid } in
    let tail = log_tail true (log_prefix w r) w.log in
    if not (alive w r.pid)
    then if r.stop_requested
      then set_state stopped (cleanup w r)
      else fail w (if is_empty tail then codes "QEMU stopped" else tail) r
    else if not r.connecting && w.exists (qmp_path r.dir)
    then record r { connecting = true; qmp = connect_to_socket r.qmp }
    else r

unfoldable pub tick : World → Runner → Runner
unfolding tick_helpers tick_qemu exited
tick w r = elim r.phase [
  | idle ↦ record r { polling = false }
  | helpers ↦ tick_helpers w r
  | qemu ↦ tick_qemu w r
  | attaching ↦ record r { polling = false }
  | exiting ↦ if not (alive w r.pid) || ltb 10000 w.elapsed then exited w r else r
]

abbrev end_signal : ℕ → ℕ → Effect
end_signal zero = terminated
end_signal (suc n) = killed

unfoldable pub escalate : World → Runner → Runner
unfolding signal_if_ours qmp_arg
escalate w r =
    if not (alive w r.pid)
    then r
    else let signalled = signal_if_ours w r.pid (qmp_arg r.dir) (end_signal r.kill_step) r in
      record signalled {
        kill_timer = r.kill_step == 0 || r.kill_timer;
        kill_step = suc r.kill_step;
      }

-- The timeout of the kill timer, which runs once.
unfoldable pub kill_timeout : World → Runner → Runner
unfolding escalate
kill_timeout w r = if r.kill_timer then escalate w (record r { kill_timer = false }) else r
