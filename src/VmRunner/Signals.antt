-- ===== src/VmRunner/Signals.antt =====
-- src/core/vmrunner.cpp: the signals of the QMP client and the replies of QEMU.
use qemu_gui_manager.VmRunner.CommandLine.{adds_agent}
use qemu_gui_manager.Prelude.{ℕ, Bool, true, false, not, ◌&&◌, ◌||◌, some, [], ◌++◌, if◌then◌else◌}
use qemu_gui_manager.Text.{Text, codes, is_empty, text_eq}
use qemu_gui_manager.QmpClient.{execute}
use qemu_gui_manager.VmRunner.Machine.{
  state_eq, phase_eq, effect, set_state, alive, running, paused, stopping, idle, attaching, exiting,
  reported, removed_files, mounting, Runner, World,
}

-- The callbacks that the runner gives to the client, by their numbers.
abbrev pub status_callback : ℕ
status_callback = 0

-- qmpReady
unfoldable pub qmp_ready : Runner → Runner
unfolding execute
qmp_ready r = record r {
  polling = false;
  phase = idle;
  connecting = false;
  qmp = execute (codes "query-status") [] (some status_callback) r.qmp;
}

-- The callback of query-status: `is_running` is the field "running" of the result.
unfoldable pub status_replied : Text → Bool → Runner → Runner
unfolding set_state
status_replied error is_running r =
    if is_empty error && not (state_eq r.state stopping)
    then set_state (if is_running then running else paused) r
    else r

-- The callbacks of reportErrors.
unfoldable pub command_replied : Text → Text → Runner → Runner
command_replied command error r =
    if not (is_empty error) && r.qmp.ready
    then effect (reported (command ++ (codes ": " ++ error))) r
    else r

-- qmpFailed; `message` is what it reports.
unfoldable pub qmp_failed : World → Text → Runner → Runner
qmp_failed w message r =
    let quiet = record r { connecting = false } in
    if not (phase_eq r.phase attaching)
    then quiet
    else if alive w r.pid
    then effect (reported message) (record quiet { phase = idle; error = message })
    else effect removed_files (record quiet { phase = idle; pid = 0 })

-- qmpClosed; from here `elapsed` of the World counts, as `clock` is started again.
unfoldable pub qmp_closed : Runner → Runner
unfolding set_state
qmp_closed r = record (set_state stopping (record r { kill_timer = false; phase = exiting })) {
  polling = true;
}

-- mountShares, up to the guest agent's answer
unfoldable pub mount_shares : Runner → Runner
unfolding adds_agent
mount_shares r = if adds_agent r.args then effect mounting (record r { agent = true }) else r

-- event; `opens_agent` tells that the data names the manager's port as open.
unfoldable pub event : Text → Bool → Runner → Runner
unfolding mount_shares set_state text_eq
event name opens_agent r =
    if text_eq name (codes "VSERPORT_CHANGE")
    then (if opens_agent then mount_shares r else r)
    else if text_eq name (codes "SHUTDOWN")
    then set_state stopping (record r { stop_requested = true })
    else if state_eq r.state stopping
    then r
    else if text_eq name (codes "STOP") || text_eq name (codes "SUSPEND")
    then set_state paused r
    else if text_eq name (codes "RESUME") || text_eq name (codes "WAKEUP")
    then set_state running r
    else r
