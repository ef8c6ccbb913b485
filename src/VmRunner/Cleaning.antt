-- ===== src/VmRunner/Cleaning.antt =====
-- VmRunner: what setState, cleanup and fail leave.
use qemu_gui_manager.Prelude.{
  ℕ, ◌≡◌, refl, ap, inl, inr, true, false, ◌&&◌, List, [], ◌∷◌, arith, if◌then◌else◌, Bool-cases,
}
use qemu_gui_manager.QmpClient.Methods.{disconnect-IsValid}
use qemu_gui_manager.Text.{Text, one_of}
use qemu_gui_manager.QmpClient.{drop_socket, fail_all, disconnect_from_socket}
use qemu_gui_manager.QmpClient.Steps.{IsValid}
use qemu_gui_manager.VmRunner.Machine.{
  state_eq, effect, set_state, alive, signal_if_ours, end_helpers, cleanup, fail, State, stopped,
  idle, Helper, Effect, state_changed, reported, terminated, removed_files, Runner, World,
}

pub state_eq-true : (a b : State) → state_eq a b ≡ true → a ≡ b
state_eq-true a b h = ground arith

-- Only the state and the effects change.
pub set_state_lem :
    (s : State) (r : Runner)
    → (es : List Effect) × (set_state s r ≡ record r { state = s; effects = es })
unfolding set_state
set_state_lem s r = elim (Bool-cases (state_eq r.state s)) [
  | inl e ↦ (r.effects, rw (e, if◌then◌else◌, ← state_eq-true r.state s e) refl)
  | inr e ↦ (state_changed s ∷ r.effects, rw (e, if◌then◌else◌) refl)
]

pub signal_if_ours_lem :
    (w : World) (p : ℕ) (marker : Text) (sig : ℕ → Effect) (r : Runner)
    → (es : List Effect) × (signal_if_ours w p marker sig r ≡ record r { effects = es })
unfolding signal_if_ours
signal_if_ours_lem w p marker sig r = elim (Bool-cases (alive w p && one_of marker (w.cmdline p))) [
  | inl e ↦ (sig p ∷ r.effects, rw (e, if◌then◌else◌) refl)
  | inr e ↦ (r.effects, rw (e, if◌then◌else◌) refl)
]

pub end_helpers_lem :
    (w : World) (hs : List Helper) (r : Runner)
    → (es : List Effect) × (end_helpers w hs r ≡ record r { effects = es })
unfolding end_helpers
end_helpers_lem w [] r = (r.effects, refl)
end_helpers_lem w (h ∷ hs) r =
    let (fs, f) = signal_if_ours_lem w h.pid h.marker (λ p. terminated p) r in
    let (es, e) = end_helpers_lem w hs (record r { effects = fs }) in (es, rw f e)

pub cleanup_lem :
    (w : World) (r : Runner)
    → (es : List Effect) × (cleanup w r ≡ record r {
      polling = false;
      kill_timer = false;
      phase = idle;
      connecting = false;
      qmp = disconnect_from_socket r.qmp;
      helpers = [];
      agent = false;
      pid = 0;
      effects = es;
    })
unfolding cleanup
cleanup_lem w r =
    let quiet = record r {
      polling = false;
      kill_timer = false;
      phase = idle;
      connecting = false;
      qmp = disconnect_from_socket r.qmp;
    } in
    let (es, e) = end_helpers_lem w r.helpers quiet in (removed_files ∷ es, rw e refl)

-- A runner that has stopped for good: no helper, process, timer or connection is left in it.
pub record IsClean (r : Runner) : Type 0 where
  pub client : IsValid r.qmp
  pub is_offline : (r.qmp.socket ≡ false) × (r.qmp.ready ≡ false)
  pub is_stopped : r.state ≡ stopped
  pub is_idle : r.phase ≡ idle
  pub no_helpers : r.helpers ≡ []
  pub no_process : r.pid ≡ 0
  pub no_timer : (r.polling ≡ false) × (r.kill_timer ≡ false)

-- Whatever a runner with a valid client was doing, after `cleanup` and with the state set to
-- Stopped no helper, process, timer or connection of the run is left.
pub stop-IsClean :
    (w : World) (r : Runner) → IsValid r.qmp → IsClean (set_state stopped (cleanup w r))
unfolding disconnect_from_socket fail_all drop_socket
stop-IsClean w r v =
    let (es, e) = cleanup_lem w r in
    let (fs, f) = set_state_lem stopped (cleanup w r) in
    rw (f, e)
      (record {
        client = disconnect-IsValid v;
        is_offline = (refl, refl);
        is_stopped = refl;
        is_idle = refl;
        no_helpers = refl;
        no_process = refl;
        no_timer = (refl, refl);
      })

pub fail_lem :
    (w : World) (message : Text) (r : Runner)
    → (es : List Effect) × (fail w message r
        ≡ record (cleanup w r) { state = stopped; error = message; effects = es })
unfolding fail
fail_lem w message r =
    let (fs, f) = set_state_lem stopped (record (cleanup w r) { error = message }) in
    (reported message ∷ fs, ap (λ (x : Runner). effect (reported message) x) f)

-- After a failure of a runner with a valid client the state is Stopped, no helper, process, timer
-- or connection of the run is left, and the error is the message.
pub fail-IsClean :
    (w : World) (message : Text) (r : Runner)
    → IsValid r.qmp
    → IsClean (fail w message r) × ((fail w message r).error ≡ message)
unfolding disconnect_from_socket fail_all drop_socket
fail-IsClean w message r v =
    let (es, e) = cleanup_lem w r in
    let (fs, g) = fail_lem w message r in
    rw (g, e)
      (
        record {
          client = disconnect-IsValid v;
          is_offline = (refl, refl);
          is_stopped = refl;
          is_idle = refl;
          no_helpers = refl;
          no_process = refl;
          no_timer = (refl, refl);
        },
        refl,
      )
