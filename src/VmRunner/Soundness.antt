-- ===== src/VmRunner/Soundness.antt =====
-- The invariant of a VmRunner, for each of its steps.
use qemu_gui_manager.Prelude.{
  ℕ, ◌≡◌, refl, sym, ◌∙◌, inl, inr, true, false, some, [], arith, Bool-cases,
}
use qemu_gui_manager.Text.{Text}
use qemu_gui_manager.QmpClient.{
  drop_socket, fail_all, handle, closed, socket_connected, socket_error, Message, Client,
}
use qemu_gui_manager.QmpClient.Steps.{IsValid}
use qemu_gui_manager.QmpClient.Methods.{
  handle-IsValid, closed-IsValid, socket_connected-IsValid, socket_error-IsValid, execute-IsValid,
  with_buffer-IsValid,
}
use qemu_gui_manager.QmpClient.Invariant.{initial-IsValid}
use qemu_gui_manager.VmRunner.Machine.{new_runner, Runner}
use qemu_gui_manager.VmRunner.Start.{command}
use qemu_gui_manager.VmRunner.Steps.{
  with_client, Step, starts, attaches, forces_off, commands, ticks, kill_times_out, connects,
  buffers, hears, gets_ready, is_refused, cannot_connect, is_hung_up, loses, has_event, gets_status,
  gets_reply, Reachable, new, then,
}
use qemu_gui_manager.VmRunner.Sound.{execute-ready, handle-ready_stays, IsSound-if, IsSound}
use qemu_gui_manager.VmRunner.Invariant.{attach-IsSound, tick-IsSound}
use qemu_gui_manager.VmRunner.Timers.{kill_timeout-IsSound, force_off-IsSound}
use qemu_gui_manager.VmRunner.Signalled.{
  moved-IsSound, ready-IsSound, qmp_failed-IsSound, qmp_closed-IsSound, status_replied-IsSound,
  command_replied-IsSound, event-IsSound,
}
use qemu_gui_manager.VmRunner.Started.{start-IsSound}

new-IsSound : (dir : Text) → IsSound (new_runner dir)
new-IsSound dir = record {
  client = initial-IsValid;
  rests = λ s. (refl, refl, refl);
  waits = λ k. cc;
  talks = λ i n. absurd (n refl);
  attaches_to = λ k. cc;
  ends = λ k. cc;
}

command-IsSound :
    (name : Text) (callback : ℕ) (r : Runner) → IsSound r → IsSound (command name callback r)
unfolding command
command-IsSound name callback r h =
    IsSound-if r.qmp.ready
      (λ e. record {
        client = execute-IsValid h.client name [] (some callback);
        rests = h.rests;
        waits = h.waits;
        talks = λ i n. execute-ready name [] (some callback) r.qmp ∙ e;
        attaches_to = λ k. cc ((h.attaches_to k).1, e);
        ends = λ k. cc ((h.ends k).1, e);
      })
      (λ e. h)

handle-refused : (m : Message) (c : Client) → (handle m c).ready ≡ false → c.ready ≡ false
handle-refused m c n = elim (Bool-cases c.ready) [
  | inl y ↦ cc (handle-ready_stays m c y, n)
  | inr e ↦ e
]

closed-ready : (c : Client) → (closed c).ready ≡ false
unfolding closed fail_all drop_socket
closed-ready c = ground arith

offline-ready : (c : Client) → IsValid c → c.connected ≡ false → c.ready ≡ false
offline-ready c v k = ground (arith, v.joined)

socket_error-ready : (e : Text) (c : Client) → c.ready ≡ false → (socket_error e c).ready ≡ false
unfolding socket_error drop_socket
socket_error-ready e c n = ground arith

-- A message that reaches a ready client leaves it ready.
module _ (m : Message) (r : Runner) (h : IsSound r) (y : r.qmp.ready ≡ true) where
  handled-ready : (handle m r.qmp).ready ≡ true
  handled-ready = handle-ready_stays m r.qmp y

  handled-IsSound : IsSound (with_client (handle m r.qmp) r)
  handled-IsSound =
      moved-IsSound (handle m r.qmp)
        (handle-IsValid h.client m (h.client.live y) (h.client.joined y)) h (handled-ready ∙ sym y)

Step-IsSound : {r s : Runner} → Step r s → IsSound r → IsSound s
unfolding socket_connected
Step-IsSound (starts w args r) h = start-IsSound w args r h
Step-IsSound (attaches w args r) h = attach-IsSound w h args
Step-IsSound (forces_off w r) h = force_off-IsSound w h
Step-IsSound (commands name callback r) h = command-IsSound name callback r h
Step-IsSound (ticks w r p) h = tick-IsSound w h
Step-IsSound (kill_times_out w r) h = kill_timeout-IsSound w h
Step-IsSound (connects r s) h = moved-IsSound _ (socket_connected-IsValid h.client) h refl
Step-IsSound (buffers t r s) h = moved-IsSound _ (with_buffer-IsValid h.client t) h refl
Step-IsSound (hears m r s k same) h = moved-IsSound _ (handle-IsValid h.client m s k) h same
Step-IsSound (gets_ready m r s k n y) h = ready-IsSound _ (handle-IsValid h.client m s k) h y
Step-IsSound (is_refused w e m r s k d n) h =
    qmp_failed-IsSound _ (handle-IsValid h.client m s k) h w e (handle-refused m r.qmp n) n
Step-IsSound (cannot_connect w e error r s k) h =
    let n = offline-ready r.qmp h.client k in
    qmp_failed-IsSound _ (socket_error-IsValid h.client error) h w e n
      (socket_error-ready error r.qmp n)
Step-IsSound (is_hung_up w e r s n) h =
    qmp_failed-IsSound _ (closed-IsValid h.client) h w e n (closed-ready r.qmp)
Step-IsSound (loses r y) h = qmp_closed-IsSound _ (closed-IsValid h.client) h (closed-ready r.qmp)
Step-IsSound (has_event m name d o r y g e) h =
    event-IsSound name o _ (handled-IsSound m r h y) (handled-ready m r h y)
Step-IsSound (gets_status m result error is_running r y c) h =
    status_replied-IsSound error is_running _ (handled-IsSound m r h y) (handled-ready m r h y)
Step-IsSound (gets_reply m callback result name error r y c) h =
    command_replied-IsSound name error _ (handled-IsSound m r h y)

-- Every reachable runner is sound: its client is valid; one that is Stopped has no helpers, no
-- kill timer and waits for no process; one that waits for a process polls; one that is active and
-- waits for nothing has a ready client; one that attaches is Stopped, and one whose QEMU is
-- exiting is Stopping, both with a client that is not ready.
pub Reachable-IsSound : {dir : Text} {r : Runner} → Reachable dir r → IsSound r
Reachable-IsSound (new) = new-IsSound _
Reachable-IsSound (then p s) = Step-IsSound s (Reachable-IsSound p)
