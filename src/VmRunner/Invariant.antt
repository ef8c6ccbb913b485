-- ===== src/VmRunner/Invariant.antt =====
-- The invariant of a VmRunner, for tick and attach.
use qemu_gui_manager.VmRunner.Sound.{
  is_waiting, connect-ready, launch-IsSound, is_busy-false, IsSound-if, failed-IsSound,
  stopped-IsSound, exited-IsSound, IsSound,
}
use qemu_gui_manager.VmRunner.CommandLine.{qemu_for, qmp_path, qmp_arg}
use qemu_gui_manager.QmpClient.Methods.{connect-IsValid}
use qemu_gui_manager.VmRunner.Start.{is_busy, attach}
use qemu_gui_manager.VmRunner.LogTail.{log_tail}
use qemu_gui_manager.Text.{codes, is_empty, file_name}
use qemu_gui_manager.Prelude.{
  ℕ, zero, suc, ◌≡◌, refl, sym, ap, subst, ◌≢◌, Bool, true, false, not, ◌&&◌, ◌||◌, List, ◌++◌, ltb,
  ◌==◌, if◌then◌else◌,
}
use qemu_gui_manager.ArgsFile.{ArgsFile}
use qemu_gui_manager.VmRunner.Machine.{
  alive, running_pid, all_alive, all_listen, exited, tick_helpers, pid_or, tick_qemu, tick,
  escalate, stopped, idle, helpers, qemu, attaching, exiting, Effect, terminated, killed, Runner,
  World,
}
use qemu_gui_manager.VmRunner.Cleaning.{signal_if_ours_lem}

module _ (w : World) {r : Runner} (h : IsSound r) where
  tick_helpers-IsSound : r.phase ≡ helpers → IsSound (tick_helpers w r)
  unfolding tick_helpers
  tick_helpers-IsSound p =
      let tail = log_tail false (file_name (qemu_for w.host r.args) ++ codes ":") w.log in
      let active : r.state ≢ stopped = λ s. cc ((h.rests s).2, p) in
      IsSound-if (not (all_alive w r.helpers))
        (λ d. failed-IsSound w (codes "virtiofsd stopped:\n" ++ tail) r h.client)
        (λ d.
          IsSound-if (all_listen w r.dir 0 r.helpers)
            (λ l. launch-IsSound w (record r { polling = false }) h.client active)
            (λ l.
              IsSound-if (ltb 10000 w.elapsed)
                (λ t.
                  failed-IsSound w (codes "virtiofsd did not open its socket:\n" ++ tail) r
                    h.client)
                (λ t. h)))

  pub attach-IsSound : (args : ArgsFile) → IsSound (attach w args r)
  unfolding attach
  attach-IsSound args =
      IsSound-if (is_busy r) (λ b. h)
        (λ b.
          IsSound-if (running_pid w r == 0)
            (λ z. record {
              client = h.client;
              rests = h.rests;
              waits = h.waits;
              talks = h.talks;
              attaches_to = h.attaches_to;
              ends = h.ends;
            })
            (λ z. record {
              client = connect-IsValid h.client;
              rests = λ s. ((h.rests s).0, (h.rests s).1, refl);
              waits = λ k. cc;
              talks = λ i. cc;
              attaches_to = λ k. ((is_busy-false r b).0, connect-ready r.qmp);
              ends = λ k. cc;
            }))

  signal_with :
      (es : List Effect) (k : Bool) (n : ℕ)
      → r.state ≢ stopped
      → IsSound (record r { effects = es; kill_timer = k; kill_step = n })
  signal_with es k n a = record {
    client = h.client;
    rests = λ s. absurd (a s);
    waits = h.waits;
    talks = h.talks;
    attaches_to = h.attaches_to;
    ends = h.ends;
  }

  pub escalate-IsSound : r.state ≢ stopped → IsSound (escalate w r)
  unfolding escalate
  escalate-IsSound a =
      let sig : ℕ → Effect = elim r.kill_step [ zero ↦ terminated | suc n ↦ killed ] in
      let (es, e) = signal_if_ours_lem w r.pid (qmp_arg r.dir) sig r in
      IsSound-if (not (alive w r.pid)) (λ d. h)
        (λ d.
          subst IsSound
            (sym (
              ap
                (λ (x : Runner). record x {
                  kill_timer = r.kill_step == 0 || r.kill_timer;
                  kill_step = suc r.kill_step;
                })
                e))
            (signal_with es (r.kill_step == 0 || r.kill_timer) (suc r.kill_step) a))

  tick_qemu-IsSound : r.phase ≡ qemu → IsSound (tick_qemu w r)
  unfolding tick_qemu
  tick_qemu-IsSound p =
      let q = record r { pid = pid_or w.pid_file r.pid } in
      let tail = log_tail true (file_name (qemu_for w.host q.args) ++ codes ":") w.log in
      IsSound-if (not (alive w q.pid))
        (λ d.
          IsSound-if q.stop_requested (λ e. stopped-IsSound w q h.client)
            (λ e.
              failed-IsSound w (if is_empty tail then codes "QEMU stopped" else tail) q h.client))
        (λ d.
          IsSound-if (not q.connecting && w.exists (qmp_path q.dir))
            (λ c. record {
              client = connect-IsValid h.client;
              rests = h.rests;
              waits = h.waits;
              talks = λ i. cc;
              attaches_to = λ i. cc;
              ends = λ i. cc;
            })
            (λ c. record {
              client = h.client;
              rests = h.rests;
              waits = h.waits;
              talks = h.talks;
              attaches_to = h.attaches_to;
              ends = h.ends;
            }))

  quiet-IsSound : is_waiting r.phase ≡ false → IsSound (record r { polling = false })
  quiet-IsSound k = record {
    client = h.client;
    rests = h.rests;
    waits = λ i. cc;
    talks = h.talks;
    attaches_to = h.attaches_to;
    ends = h.ends;
  }

  pub tick-IsSound : IsSound (tick w r)
  unfolding tick
  tick-IsSound =
      let late = not (alive w r.pid) || ltb 10000 w.elapsed in
      (elim r.phase
          as (λ p.
            r.phase ≡ p
            → IsSound (elim p [
              | idle ↦ record r { polling = false }
              | helpers ↦ tick_helpers w r
              | qemu ↦ tick_qemu w r
              | attaching ↦ record r { polling = false }
              | exiting ↦ if late then exited w r else r
            ])) [
              | idle ↦ λ p. quiet-IsSound (rw p refl)
              | helpers ↦ λ p. tick_helpers-IsSound p
              | qemu ↦ λ p. tick_qemu-IsSound p
              | attaching ↦ λ p. quiet-IsSound (rw p refl)
              | exiting ↦ λ p. IsSound-if late (λ d. exited-IsSound w r h.client) (λ d. h)
            ])
        refl
