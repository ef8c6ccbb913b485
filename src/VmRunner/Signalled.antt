-- ===== src/VmRunner/Signalled.antt =====
-- The invariant of a VmRunner, for what the QMP client tells.
use qemu_gui_manager.Prelude.{
  ◌≡◌, refl, sym, ap, ◌∙◌, subst, Bool, true, false, not, ◌&&◌, ◌||◌, some, [], ◌++◌, arith,
}
use qemu_gui_manager.Text.{Text, codes, is_empty, text_eq}
use qemu_gui_manager.QmpClient.{Client}
use qemu_gui_manager.QmpClient.Steps.{IsValid}
use qemu_gui_manager.QmpClient.Methods.{execute-IsValid}
use qemu_gui_manager.VmRunner.CommandLine.{adds_agent}
use qemu_gui_manager.VmRunner.Machine.{
  state_eq, phase_eq, effect, alive, running, paused, stopping, Phase, attaching, exiting, Effect,
  reported, mounting, Runner, World,
}
use qemu_gui_manager.VmRunner.Signals.{
  status_callback, qmp_ready, status_replied, command_replied, qmp_failed, qmp_closed, mount_shares,
  event,
}
use qemu_gui_manager.VmRunner.Steps.{with_client}
use qemu_gui_manager.VmRunner.Cleaning.{set_state_lem}
use qemu_gui_manager.VmRunner.Sound.{execute-ready, IsSound-if, IsSound}
use qemu_gui_manager.VmRunner.Timers.{set_state-IsSound}

pub phase_eq-attaching : (p : Phase) → not (phase_eq p attaching) ≡ false → p ≡ attaching
phase_eq-attaching p h = ground arith

module _ (c : Client) (v : IsValid c) {r : Runner} (h : IsSound r) where
  pub moved-IsSound : c.ready ≡ r.qmp.ready → IsSound (with_client c r)
  moved-IsSound e = record {
    client = v;
    rests = h.rests;
    waits = h.waits;
    talks = λ i n. e ∙ h.talks i n;
    attaches_to = λ k. ((h.attaches_to k).0, e ∙ (h.attaches_to k).1);
    ends = λ k. ((h.ends k).0, e ∙ (h.ends k).1);
  }

  pub ready-IsSound : c.ready ≡ true → IsSound (qmp_ready (with_client c r))
  unfolding qmp_ready
  ready-IsSound e = record {
    client = execute-IsValid v (codes "query-status") [] (some status_callback);
    rests = λ s. ((h.rests s).0, (h.rests s).1, refl);
    waits = λ k. cc;
    talks = λ i n. execute-ready (codes "query-status") [] (some status_callback) c ∙ e;
    attaches_to = λ k. cc;
    ends = λ k. cc;
  }

  pub qmp_failed-IsSound :
      (w : World) (e : Text)
      → r.qmp.ready ≡ false
      → c.ready ≡ false
      → IsSound (qmp_failed w e (with_client c r))
  unfolding qmp_failed
  qmp_failed-IsSound w e was now =
      IsSound-if (not (phase_eq r.phase attaching))
        (λ p. record {
          client = v;
          rests = h.rests;
          waits = h.waits;
          talks = λ i n. cc (h.talks i n, was);
          attaches_to = λ k. ((h.attaches_to k).0, now);
          ends = λ k. ((h.ends k).0, now);
        })
        (λ p.
          IsSound-if (alive w r.pid)
            (λ a. record {
              client = v;
              rests = λ s. ((h.rests s).0, (h.rests s).1, refl);
              waits = λ k. cc;
              talks = λ i n. absurd (n (h.attaches_to (phase_eq-attaching r.phase p)).0);
              attaches_to = λ k. cc;
              ends = λ k. cc;
            })
            (λ a. record {
              client = v;
              rests = λ s. ((h.rests s).0, (h.rests s).1, refl);
              waits = λ k. cc;
              talks = λ i n. absurd (n (h.attaches_to (phase_eq-attaching r.phase p)).0);
              attaches_to = λ k. cc;
              ends = λ k. cc;
            }))

  pub qmp_closed-IsSound : c.ready ≡ false → IsSound (qmp_closed (with_client c r))
  unfolding qmp_closed
  qmp_closed-IsSound now =
      let (es, q) =
        set_state_lem stopping (record r { qmp = c; kill_timer = false; phase = exiting }) in
      subst IsSound (sym (ap (λ (x : Runner). record x { polling = true }) q)) (record {
        client = v;
        rests = λ s. cc;
        waits = λ k. refl;
        talks = λ i. cc;
        attaches_to = λ k. cc;
        ends = λ k. (refl, now);
      })

pub status_replied-IsSound :
    (error : Text) (is_running : Bool) (r : Runner)
    → IsSound r
    → r.qmp.ready ≡ true
    → IsSound (status_replied error is_running r)
unfolding status_replied
status_replied-IsSound error true r h e =
    IsSound-if (is_empty error && not (state_eq r.state stopping))
      (λ b. set_state-IsSound running r (λ k. cc) h e) (λ b. h)
status_replied-IsSound error false r h e =
    IsSound-if (is_empty error && not (state_eq r.state stopping))
      (λ b. set_state-IsSound paused r (λ k. cc) h e) (λ b. h)

pub effect-IsSound :
    (o : Effect) (a b : Bool) (r : Runner)
    → IsSound r
    → IsSound (effect o (record r { agent = a; stop_requested = b }))
effect-IsSound o a b r h = record {
  client = h.client;
  rests = h.rests;
  waits = h.waits;
  talks = h.talks;
  attaches_to = h.attaches_to;
  ends = h.ends;
}

pub command_replied-IsSound :
    (name error : Text) (r : Runner) → IsSound r → IsSound (command_replied name error r)
unfolding command_replied
command_replied-IsSound name error r h =
    IsSound-if (not (is_empty error) && r.qmp.ready)
      (λ b. effect-IsSound (reported (name ++ (codes ": " ++ error))) r.agent r.stop_requested r h)
      (λ b. h)

pub asked_to_stop-IsSound : (r : Runner) → IsSound r → IsSound (record r { stop_requested = true })
asked_to_stop-IsSound r h = record {
  client = h.client;
  rests = h.rests;
  waits = h.waits;
  talks = h.talks;
  attaches_to = h.attaches_to;
  ends = h.ends;
}

pub event-IsSound :
    (name : Text) (opens_agent : Bool) (r : Runner)
    → IsSound r
    → r.qmp.ready ≡ true
    → IsSound (event name opens_agent r)
unfolding event mount_shares
event-IsSound name opens_agent r h e =
    IsSound-if (text_eq name (codes "VSERPORT_CHANGE"))
      (λ b.
        IsSound-if opens_agent
          (λ o.
            IsSound-if (adds_agent r.args) (λ a. effect-IsSound mounting true r.stop_requested r h)
              (λ a. h))
          (λ o. h))
      (λ b.
        IsSound-if (text_eq name (codes "SHUTDOWN"))
          (λ s.
            set_state-IsSound stopping (record r { stop_requested = true }) (λ k. cc)
              (asked_to_stop-IsSound r h) e)
          (λ s.
            IsSound-if (state_eq r.state stopping) (λ t. h)
              (λ t.
                IsSound-if (text_eq name (codes "STOP") || text_eq name (codes "SUSPEND"))
                  (λ p. set_state-IsSound paused r (λ k. cc) h e)
                  (λ p.
                    IsSound-if (text_eq name (codes "RESUME") || text_eq name (codes "WAKEUP"))
                      (λ q. set_state-IsSound running r (λ k. cc) h e) (λ q. h)))))
