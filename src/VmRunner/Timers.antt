-- ===== src/VmRunner/Timers.antt =====
-- The invariant of a VmRunner, for setState, the kill timer and forceOff.
use qemu_gui_manager.Prelude.{◌≡◌, refl, sym, ap, ◌∙◌, subst, ◌≢◌, true, false, ◌||◌, none, []}
use qemu_gui_manager.Text.{codes}
use qemu_gui_manager.QmpClient.{execute}
use qemu_gui_manager.QmpClient.Methods.{execute-IsValid}
use qemu_gui_manager.VmRunner.Machine.{
  phase_eq, set_state, kill_timeout, State, stopped, stopping, helpers, exiting, Runner, World,
}
use qemu_gui_manager.VmRunner.Start.{is_stopped, force_off}
use qemu_gui_manager.VmRunner.Cleaning.{set_state_lem}
use qemu_gui_manager.VmRunner.Sound.{execute-ready, IsSound-if, stopped-IsSound, IsSound}
use qemu_gui_manager.VmRunner.Invariant.{escalate-IsSound}

pub set_state-IsSound :
    (s : State) (r : Runner)
    → s ≢ stopped
    → IsSound r
    → r.qmp.ready ≡ true
    → IsSound (set_state s r)
set_state-IsSound s r n h e =
    let (es, q) = set_state_lem s r in
    rw q (record {
      client = h.client;
      rests = λ k. absurd (n k);
      waits = h.waits;
      talks = λ i k. e;
      attaches_to = λ k. cc ((h.attaches_to k).1, e);
      ends = λ k. cc ((h.ends k).1, e);
    })

timer_off-IsSound : (r : Runner) → IsSound r → IsSound (record r { kill_timer = false })
timer_off-IsSound r h = record {
  client = h.client;
  rests = λ s. ((h.rests s).0, refl, (h.rests s).2);
  waits = h.waits;
  talks = h.talks;
  attaches_to = h.attaches_to;
  ends = h.ends;
}

is_stopped-reads :
    (r : Runner) → r.state ≡ stopped → is_stopped r || phase_eq r.phase exiting ≢ false
is_stopped-reads r s = rw s (λ b. cc)

module _ (w : World) {r : Runner} (h : IsSound r) where
  pub kill_timeout-IsSound : IsSound (kill_timeout w r)
  unfolding kill_timeout
  kill_timeout-IsSound =
      IsSound-if r.kill_timer
        (λ e. escalate-IsSound w (timer_off-IsSound r h) (λ s. cc ((h.rests s).1, e))) (λ e. h)

  is_stopped-false : is_stopped r || phase_eq r.phase exiting ≡ false → r.state ≢ stopped
  is_stopped-false b = λ s. absurd (is_stopped-reads r s b)

  asked-IsSound : r.state ≢ stopped → IsSound (record r { stop_requested = true; kill_step = 0 })
  asked-IsSound n = record {
    client = h.client;
    rests = h.rests;
    waits = h.waits;
    talks = h.talks;
    attaches_to = h.attaches_to;
    ends = h.ends;
  }

  quitting-IsSound :
      r.qmp.ready ≡ true
      → IsSound
          (record (set_state stopping (record r {
            stop_requested = true;
            kill_step = 0;
            qmp = execute (codes "quit") [] none r.qmp;
          })) { kill_timer = true })
  quitting-IsSound e =
      let (es, q) = set_state_lem stopping (record r {
        stop_requested = true;
        kill_step = 0;
        qmp = execute (codes "quit") [] none r.qmp;
      }) in
      subst IsSound (sym (ap (λ (x : Runner). record x { kill_timer = true }) q)) (record {
        client = execute-IsValid h.client (codes "quit") [] none;
        rests = λ k. cc;
        waits = h.waits;
        talks = λ i k. execute-ready (codes "quit") [] none r.qmp ∙ e;
        attaches_to = λ k. cc ((h.attaches_to k).1, e);
        ends = λ k. cc ((h.ends k).1, e);
      })

  pub force_off-IsSound : IsSound (force_off w r)
  unfolding force_off
  force_off-IsSound =
      IsSound-if (phase_eq r.phase helpers)
        (λ p. stopped-IsSound w (record r { stop_requested = true }) h.client)
        (λ p.
          IsSound-if (is_stopped r || phase_eq r.phase exiting) (λ b. h)
            (λ b.
              IsSound-if r.qmp.ready (λ e. quitting-IsSound e)
                (λ e.
                  escalate-IsSound w (asked-IsSound (is_stopped-false b)) (is_stopped-false b))))
