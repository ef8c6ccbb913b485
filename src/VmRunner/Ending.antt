-- ===== src/VmRunner/Ending.antt =====
-- VmRunner::Private::tick where a process is gone.
use qemu_gui_manager.VmRunner.Machine.{
  alive, fail, all_alive, all_listen, exited, tick_helpers, pid_or, tick_qemu, tick, Phase, idle,
  helpers, qemu, attaching, exiting, Runner, World,
}
use qemu_gui_manager.VmRunner.Ended.{stop-IsEnded, fail-IsEnded, IsEnded}
use qemu_gui_manager.Prelude.{
  ℕ, ◌≡◌, refl, sym, subst, ◌⊎◌, inl, inr, Bool, true, false, not, ◌&&◌, ◌||◌, ◌++◌, ltb,
  if◌then◌else◌, Bool-cases, if_cases,
}
use qemu_gui_manager.VmRunner.LogTail.{log_tail}
use qemu_gui_manager.VmRunner.CommandLine.{qemu_for, qmp_path}
use qemu_gui_manager.Text.{codes, is_empty, file_name}
use qemu_gui_manager.QmpClient.Steps.{IsValid}

exited-IsEnded : (w : World) (r : Runner) → IsValid r.qmp → IsEnded w r (exited w r)
unfolding exited fail
exited-IsEnded w r v =
    let tail = log_tail true (file_name (qemu_for w.host r.args) ++ codes ":") w.log in
    let message =
      if is_empty tail
      then codes "QEMU stopped unexpectedly"
      else codes "QEMU stopped unexpectedly:\n" ++ tail in
    if_cases (IsEnded w r) r.stop_requested (stop-IsEnded w r v) (λ e. fail-IsEnded w message r v)

tick_branch : World → Runner → Phase → Runner
unfolding tick_helpers tick_qemu exited
tick_branch w r p = elim p [
  | idle ↦ record r { polling = false }
  | helpers ↦ tick_helpers w r
  | qemu ↦ tick_qemu w r
  | attaching ↦ record r { polling = false }
  | exiting ↦ if not (alive w r.pid) || ltb 10000 w.elapsed then exited w r else r
]

and-true : (a b : Bool) → a && b ≡ true → (a ≡ true) × (b ≡ true)
and-true true b h = (refl, h)
and-true false b h = cc

or_right : (a b : Bool) → a ≡ false → a || b ≡ true → b ≡ true
or_right true b e h = cc
or_right false b e h = h

not-true : (a : Bool) → not a ≡ true → a ≡ false
not-true true h = cc
not-true false h = refl

-- A tick in a known phase.
tick-branch {ℓ} :
    (P : Runner → Type ℓ) (w : World) (r : Runner) (p : Phase)
    → r.phase ≡ p
    → P (tick_branch w r p)
    → P (tick w r)
unfolding tick tick_branch
tick-branch P w r p e h = subst (λ (x : Phase). P (tick_branch w r x)) (sym e) h

-- QEMU is gone, or the connection closed more than ten seconds ago.
abbrev pub is_late : World → Runner → Bool
is_late w r = not (alive w r.pid) || ltb 10000 w.elapsed

-- While QEMU is exiting, for a runner with a valid client, the first tick that finds QEMU gone,
-- or comes more than ten seconds after the connection closed, ends the run, and a tick before
-- changes nothing. IsEnded says what the end of a run is.
pub exiting-ends :
    (w : World) (r : Runner)
    → IsValid r.qmp
    → r.phase ≡ exiting
    → ((is_late w r ≡ true) × IsEnded w r (tick w r)) ⊎ ((is_late w r ≡ false) × (tick w r ≡ r))
unfolding tick_branch
exiting-ends w r v p =
    tick-branch (λ x. ((is_late w r ≡ true) × IsEnded w r x) ⊎ ((is_late w r ≡ false) × (x ≡ r))) w
      r exiting p
      (elim (Bool-cases (is_late w r)) [
        | inl late ↦ inl (late, rw (late, if◌then◌else◌) (exited-IsEnded w r v))
        | inr early ↦ inr (early, rw (early, if◌then◌else◌) refl)
      ])

-- The pid of a runner is not about the end of its run.
IsEnded-with_pid :
    {w : World} {r out : Runner} (p : ℕ) → IsEnded w (record r { pid = p }) out → IsEnded w r out
IsEnded-with_pid p h = record {
  left = h.left;
  no_agent = h.no_agent;
  done = h.done;
  since = h.since;
  only = h.only;
  files = h.files;
  told_helpers = h.told_helpers;
  told_state = h.told_state;
  told_error = h.told_error;
}

-- The start of `r` goes on in `out` with the pid, and nothing is told or done outside.
abbrev pub IsWaiting : ℕ → Runner → Runner → Type 0
IsWaiting p r out =
    (out.pid ≡ p) × (out.phase ≡ r.phase) × (out.state ≡ r.state) × (out.effects ≡ r.effects)

-- While QEMU starts, for a runner with a valid client, the first tick that finds its process
-- gone, that of the pid file if it names one, ends the run, and until then a tick only waits: the
-- phase, the state and the effects stay. IsEnded says what the end of a run is.
pub qemu-ends :
    (w : World) (r : Runner)
    → IsValid r.qmp
    → r.phase ≡ qemu
    → ((alive w (pid_or w.pid_file r.pid) ≡ false) × IsEnded w r (tick w r))
      ⊎ ((alive w (pid_or w.pid_file r.pid) ≡ true)
          × IsWaiting (pid_or w.pid_file r.pid) r (tick w r))
unfolding tick_branch tick_qemu
qemu-ends w r v p =
    let now = pid_or w.pid_file r.pid in
    let q = record r { pid = now } in
    let tail = log_tail true (file_name (qemu_for w.host q.args) ++ codes ":") w.log in
    let message = if is_empty tail then codes "QEMU stopped" else tail in
    tick-branch
      (λ x. ((alive w now ≡ false) × IsEnded w r x) ⊎ ((alive w now ≡ true) × IsWaiting now r x)) w
      r qemu p
      (elim (Bool-cases (alive w now)) [
        | inl here ↦ inr (
          here,
          rw (here, not, if◌then◌else◌)
              (if_cases (IsWaiting now r) (not r.connecting && w.exists (qmp_path r.dir))
                (λ e. (refl, refl, refl, refl)) (λ e. (refl, refl, refl, refl))),
        )
        | inr gone ↦ inl (
          gone,
          rw (gone, not, if◌then◌else◌)
              (IsEnded-with_pid now (
                if_cases (IsEnded w q) r.stop_requested (stop-IsEnded w q v)
                  (λ e. fail-IsEnded w message q v))),
        )
      ])

-- A virtiofsd process is gone, or they have not opened their sockets after ten seconds.
abbrev pub have_failed : World → Runner → Bool
have_failed w r =
    not (all_alive w r.helpers) || (not (all_listen w r.dir 0 r.helpers) && ltb 10000 w.elapsed)

-- While virtiofsd starts, for a runner with a valid client, the first tick that finds one of its
-- processes gone, or not all of their sockets after more than ten seconds, ends the run, also for
-- the other processes. IsEnded says what the end of a run is.
pub helpers-end :
    (w : World) (r : Runner)
    → IsValid r.qmp
    → r.phase ≡ helpers
    → have_failed w r ≡ true
    → IsEnded w r (tick w r)
unfolding tick_branch tick_helpers
helpers-end w r v p failed =
    let tail = log_tail false (file_name (qemu_for w.host r.args) ++ codes ":") w.log in
    tick-branch (IsEnded w r) w r helpers p (
      if_cases (IsEnded w r) (not (all_alive w r.helpers))
        (λ gone. fail-IsEnded w (codes "virtiofsd stopped:\n" ++ tail) r v)
        (λ here.
          let listen = all_listen w r.dir 0 r.helpers in
          let stays =
            or_right (not (all_alive w r.helpers)) (not listen && ltb 10000 w.elapsed) here
              failed in
          let (silent, late) = and-true (not listen) (ltb 10000 w.elapsed) stays in
          let closed : listen ≡ false = not-true listen silent in
          rw (closed, late, if◌then◌else◌)
            (fail-IsEnded w (codes "virtiofsd did not open its socket:\n" ++ tail) r v)))
