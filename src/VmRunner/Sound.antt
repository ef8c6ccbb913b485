-- ===== src/VmRunner/Sound.antt =====
-- A VmRunner that is sound: the fields of VmRunner::Private that go together.
use qemu_gui_manager.VmRunner.CommandLine.{qemu_for, qemu_args}
use qemu_gui_manager.VmRunner.Start.{is_busy}
use qemu_gui_manager.VmRunner.LogTail.{log_tail}
use qemu_gui_manager.Text.{Text, codes, is_empty, file_name}
use qemu_gui_manager.Prelude.{
  ℕ, ◌≡◌, refl, ◌≢◌, inl, inr, Bool, true, false, Option, [], ◌++◌, arith, if◌then◌else◌,
}
use qemu_gui_manager.QmpClient.{
  Json, drop_socket, fail_all, answer, greet, handle_answer, handle, connect_to_socket, execute,
  Message, Client,
}
use qemu_gui_manager.QmpClient.Steps.{IsValid}
use qemu_gui_manager.VmRunner.Machine.{
  effect, set_state, cleanup, fail, launch_qemu, exited, stopped, stopping, Phase, idle, helpers,
  qemu, attaching, exiting, launched, Runner, World,
}
use qemu_gui_manager.VmRunner.Cleaning.{state_eq-true, stop-IsClean, fail-IsClean, IsClean}

abbrev pub is_waiting : Phase → Bool
is_waiting idle = false
is_waiting helpers = true
is_waiting qemu = true
is_waiting attaching = false
is_waiting exiting = true

pub record IsSound (r : Runner) : Type 0 where
  pub client : IsValid r.qmp
  pub rests :
      r.state ≡ stopped → (r.helpers ≡ []) × (r.kill_timer ≡ false) × (is_waiting r.phase ≡ false)
  pub waits : is_waiting r.phase ≡ true → r.polling ≡ true
  pub talks : r.phase ≡ idle → r.state ≢ stopped → r.qmp.ready ≡ true
  pub attaches_to : r.phase ≡ attaching → (r.state ≡ stopped) × (r.qmp.ready ≡ false)
  pub ends : r.phase ≡ exiting → (r.state ≡ stopping) × (r.qmp.ready ≡ false)

pub IsClean-IsSound : {r : Runner} → IsClean r → IsSound r
IsClean-IsSound h = record {
  client = h.client;
  rests = λ s. (h.no_helpers, h.no_timer.1, rw h.is_idle refl);
  waits = λ k. absurd (cc (h.is_idle));
  talks = λ i n. absurd (n h.is_stopped);
  attaches_to = λ k. absurd (cc (h.is_idle));
  ends = λ k. absurd (cc (h.is_idle));
}

pub execute-ready :
    (n : Text) (a : Json) (cb : Option ℕ) (c : Client) → (execute n a cb c).ready ≡ c.ready
unfolding execute
execute-ready n a cb c = ground arith

pub connect-ready : (c : Client) → (connect_to_socket c).ready ≡ false
unfolding connect_to_socket fail_all drop_socket
connect-ready c = ground arith

pub handle-ready_stays : (m : Message) (c : Client) → c.ready ≡ true → (handle m c).ready ≡ true
unfolding handle handle_answer answer greet
handle-ready_stays m c h = ground arith

pub launch-IsSound :
    (w : World) (r : Runner) → IsValid r.qmp → r.state ≢ stopped → IsSound (launch_qemu w r)
unfolding launch_qemu
launch-IsSound w r v n =
    elim (w.run_program (qemu_for w.host r.args) (qemu_args w.host r.dir r.args))
      as (λ x. IsSound (elim x [
        | inl e ↦ fail w e r
        | inr p ↦
            effect (launched (qemu_for w.host r.args) (qemu_args w.host r.dir r.args))
              (record r { pid = p; phase = qemu; polling = true })
      ])) [
        | inl e ↦ IsClean-IsSound (fail-IsClean w e r v).0
        | inr p ↦ record {
          client = v;
          rests = λ s. absurd (n s);
          waits = λ k. refl;
          talks = λ i s. cc;
          attaches_to = λ k. cc;
          ends = λ k. cc;
        }
      ]

pub is_busy-false : (r : Runner) → is_busy r ≡ false → (r.state ≡ stopped) × (r.phase ≡ idle)
is_busy-false r h = ground (arith, state_eq-true r.state stopped)

pub IsSound-if :
    (b : Bool) {x y : Runner}
    → (b ≡ true → IsSound x)
    → (b ≡ false → IsSound y)
    → IsSound (if b then x else y)
IsSound-if true f g = f refl
IsSound-if false f g = g refl

-- A failure, and the end of a run that was asked for.
pub failed-IsSound :
    (w : World) (message : Text) (r : Runner) → IsValid r.qmp → IsSound (fail w message r)
failed-IsSound w message r v = IsClean-IsSound (fail-IsClean w message r v).0

pub stopped-IsSound :
    (w : World) (r : Runner) → IsValid r.qmp → IsSound (set_state stopped (cleanup w r))
stopped-IsSound w r v = IsClean-IsSound (stop-IsClean w r v)

pub exited-IsSound : (w : World) (r : Runner) → IsValid r.qmp → IsSound (exited w r)
unfolding exited fail
exited-IsSound w r v =
    let tail = log_tail true (file_name (qemu_for w.host r.args) ++ codes ":") w.log in
    let message =
      if is_empty tail
      then codes "QEMU stopped unexpectedly"
      else codes "QEMU stopped unexpectedly:\n" ++ tail in
    IsSound-if r.stop_requested (λ e. stopped-IsSound w r v) (λ e. failed-IsSound w message r v)
