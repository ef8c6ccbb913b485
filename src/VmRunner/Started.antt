-- ===== src/VmRunner/Started.antt =====
-- The invariant of a VmRunner, for start.
use qemu_gui_manager.Prelude.{
  ℕ, suc, ◌≡◌, refl, sym, ap, subst, inl, inr, false, none, some, List, [], ◌∷◌, ◌++◌, ltb,
}
use qemu_gui_manager.Text.{is_empty}
use qemu_gui_manager.ArgsFile.{ArgsFile}
use qemu_gui_manager.QmpClient.Steps.{IsValid}
use qemu_gui_manager.VmConfig.Shares.{shares, Share}
use qemu_gui_manager.VmRunner.CommandLine.{qemu_for, qemu_args}
use qemu_gui_manager.VmRunner.Machine.{
  effect, set_state, fail, running_pid, starting, removed_files, log_started, launched, Runner,
  World,
}
use qemu_gui_manager.VmRunner.Start.{
  is_busy, fresh, refusal, helper_marker, helper_args, start_helpers, wait_or_launch, start_run,
  start,
}
use qemu_gui_manager.VmRunner.Cleaning.{set_state_lem}
use qemu_gui_manager.VmRunner.Sound.{launch-IsSound, IsSound-if, failed-IsSound, IsSound}
use qemu_gui_manager.VmRunner.Invariant.{attach-IsSound}

-- The helpers that a start has launched so far belong to a runner that is Starting.
pub helpers-IsSound :
    (w : World) (all : List Share) (i : ℕ) (ss : List Share) (r : Runner)
    → IsValid r.qmp
    → r.state ≡ starting
    → IsSound (wait_or_launch w all (start_helpers w i ss r))
unfolding start_helpers
helpers-IsSound w all i [] r v s =
    IsSound-if (is_empty all) (λ e. launch-IsSound w r v (λ t. cc))
      (λ e. record {
        client = v;
        rests = λ t. cc;
        waits = λ k. refl;
        talks = λ k. cc;
        attaches_to = λ k. cc;
        ends = λ k. cc;
      })
helpers-IsSound w all i (s ∷ ss) r v st =
    (elim (w.run_program w.host.virtiofsd (helper_args r.dir i s))
      as (λ x. IsSound (
        wait_or_launch w all (elim x [
          | inl e ↦ (fail w e r, false)
          | inr p ↦ start_helpers w (suc i) ss (
              effect (launched w.host.virtiofsd (helper_args r.dir i s)) (record r {
                helpers = r.helpers ++ (record { pid = p; marker = helper_marker r.dir i } ∷ []);
              }))
        ]))) [
          | inl e ↦ failed-IsSound w e r v
          | inr p ↦
              helpers-IsSound w all (suc i) ss
                (effect (launched w.host.virtiofsd (helper_args r.dir i s)) (record r {
                  helpers = r.helpers ++ (record { pid = p; marker = helper_marker r.dir i } ∷ []);
                }))
                v st
        ])

pub start_run-IsSound :
    (w : World) (args : ArgsFile) (r : Runner) → IsValid r.qmp → IsSound (start_run w args r)
unfolding start_run
start_run-IsSound w args r v =
    let cleared = effect removed_files r in
    let logged =
      effect (log_started (qemu_for w.host args ∷ qemu_args w.host r.dir args)) cleared in
    let (es, q) = set_state_lem starting logged in
    (elim w.log_error
      as (λ x. IsSound (elim x [
        | some e ↦ fail w e cleared
        | none ↦
            wait_or_launch w (shares args)
              (start_helpers w 0 (shares args) (set_state starting logged))
      ])) [
        | some e ↦ failed-IsSound w e cleared v
        | none ↦
            helpers-IsSound w (shares args) 0 (shares args) (set_state starting logged)
              (subst (λ (x : Runner). IsValid x.qmp) (sym q) v) (ap (λ (x : Runner). x.state) q)
      ])

pub start-IsSound :
    (w : World) (args : ArgsFile) (r : Runner) → IsSound r → IsSound (start w args r)
unfolding start start_run
start-IsSound w args r h =
    IsSound-if (is_busy r) (λ b. h)
      (λ b.
        IsSound-if (ltb 0 (running_pid w r)) (λ a. attach-IsSound w h [])
          (λ a.
            (let ready = record (fresh r) { args = args } in
              elim (refusal w args)
                as (λ x.
                  IsSound (elim x [ some e ↦ fail w e ready | none ↦ start_run w args ready ])) [
                    | some e ↦ failed-IsSound w e ready h.client
                    | none ↦ start_run-IsSound w args ready h.client
                  ])))
