-- ===== src/VmRunner/Steps.antt =====
-- The steps of a runner: its owner's calls, its timers, and what the QMP client tells. QEMU sends
-- no event before the client is ready, as QMP says. The callbacks that failAll calls are no steps:
-- they get an error and find the client not ready, and do nothing.
use qemu_gui_manager.Prelude.{ℕ, ◌≡◌, Bool, true, false, some, ◌∷◌}
use qemu_gui_manager.Text.{Text}
use qemu_gui_manager.ArgsFile.{ArgsFile}
use qemu_gui_manager.QmpClient.{
  Json, handle, closed, socket_connected, socket_error, Message, called, Client,
}
use qemu_gui_manager.VmRunner.Machine.{new_runner, tick, kill_timeout, Runner, World}
use qemu_gui_manager.VmRunner.Signals.{
  status_callback, qmp_ready, status_replied, command_replied, qmp_failed, qmp_closed, event,
}
use qemu_gui_manager.VmRunner.Start.{attach, start, command, force_off}

abbrev pub with_client : Client → Runner → Runner
with_client c r = record r { qmp = c }

pub data Step : Runner → Runner → Type 0 where
  starts : (w : World) (args : ArgsFile) (r : Runner) → Step r (start w args r)
  attaches : (w : World) (args : ArgsFile) (r : Runner) → Step r (attach w args r)
  forces_off : (w : World) (r : Runner) → Step r (force_off w r)
  commands : (name : Text) (callback : ℕ) (r : Runner) → Step r (command name callback r)
  ticks : (w : World) (r : Runner) → r.polling ≡ true → Step r (tick w r)
  kill_times_out : (w : World) (r : Runner) → Step r (kill_timeout w r)
  connects : (r : Runner) → r.qmp.socket ≡ true → Step r (with_client (socket_connected r.qmp) r)
  buffers :
      (chunk : Text) (r : Runner)
      → r.qmp.socket ≡ true
      → Step r (with_client (record r.qmp { buffer = chunk }) r)
  hears :
      (m : Message) (r : Runner)
      → r.qmp.socket ≡ true
      → r.qmp.connected ≡ true
      → (handle m r.qmp).ready ≡ r.qmp.ready
      → Step r (with_client (handle m r.qmp) r)
  gets_ready :
      (m : Message) (r : Runner)
      → r.qmp.socket ≡ true
      → r.qmp.connected ≡ true
      → r.qmp.ready ≡ false
      → (handle m r.qmp).ready ≡ true
      → Step r (qmp_ready (with_client (handle m r.qmp) r))
  is_refused :
      (w : World) (e : Text) (m : Message) (r : Runner)
      → r.qmp.socket ≡ true
      → r.qmp.connected ≡ true
      → (handle m r.qmp).socket ≡ false
      → (handle m r.qmp).ready ≡ false
      → Step r (qmp_failed w e (with_client (handle m r.qmp) r))
  cannot_connect :
      (w : World) (e error : Text) (r : Runner)
      → r.qmp.socket ≡ true
      → r.qmp.connected ≡ false
      → Step r (qmp_failed w e (with_client (socket_error error r.qmp) r))
  is_hung_up :
      (w : World) (e : Text) (r : Runner)
      → r.qmp.socket ≡ true
      → r.qmp.ready ≡ false
      → Step r (qmp_failed w e (with_client (closed r.qmp) r))
  loses : (r : Runner) → r.qmp.ready ≡ true → Step r (qmp_closed (with_client (closed r.qmp) r))
  has_event :
      (m : Message) (name : Text) (d : Json) (opens_agent : Bool) (r : Runner)
      → r.qmp.ready ≡ true
      → m.greeting ≡ false
      → m.event ≡ some (name, d)
      → Step r (event name opens_agent (with_client (handle m r.qmp) r))
  gets_status :
      (m : Message) (result : Json) (error : Text) (is_running : Bool) (r : Runner)
      → r.qmp.ready ≡ true
      → (handle m r.qmp).log ≡ called status_callback result error ∷ r.qmp.log
      → Step r (status_replied error is_running (with_client (handle m r.qmp) r))
  gets_reply :
      (m : Message) (callback : ℕ) (result : Json) (name error : Text) (r : Runner)
      → r.qmp.ready ≡ true
      → (handle m r.qmp).log ≡ called callback result error ∷ r.qmp.log
      → Step r (command_replied name error (with_client (handle m r.qmp) r))

pub data Reachable (dir : Text) : Runner → Type 0 where
  new : Reachable dir (new_runner dir)
  then : {r s : Runner} → Reachable dir r → Step r s → Reachable dir s
