-- ===== src/VmRunner/Ended.antt =====
-- VmRunner: what cleanup and fail end outside the program, and what they tell.
use qemu_gui_manager.Prelude.{
  ℕ, ◌≡◌, refl, ap, ◌∙◌, subst, ◌⊎◌, inl, inr, Bool, true, false, ◌&&◌, List, [], ◌∷◌, ◌++◌,
  append-nil, append_assoc, if◌then◌else◌, Bool-cases, AllOf,
}
use qemu_gui_manager.QmpClient.Steps.{IsValid}
use qemu_gui_manager.VmRunner.Machine.{
  state_eq, set_state, alive, signal_if_ours, end_helpers, cleanup, fail, stopped, Helper, Effect,
  state_changed, reported, terminated, killed, removed_files, log_started, launched, mounting,
  Runner, World,
}
use qemu_gui_manager.VmRunner.Cleaning.{
  state_eq-true, set_state_lem, cleanup_lem, stop-IsClean, fail_lem, fail-IsClean, IsClean,
}
use qemu_gui_manager.Text.{Text, one_of}

-- An effect is among those of a list.
abbrev pub Done : Effect → List Effect → Type 0
Done e [] = ⊥
Done e (x ∷ xs) = (x ≡ e) ⊎ Done e xs

Done-left : (e : Effect) (xs ys : List Effect) → Done e xs → Done e (xs ++ ys)
Done-left e [] ys h = elim h [ ]
Done-left e (x ∷ xs) ys (inl h) = inl h
Done-left e (x ∷ xs) ys (inr h) = inr (Done-left e xs ys h)

Done-right : (e : Effect) (xs ys : List Effect) → Done e ys → Done e (xs ++ ys)
Done-right e [] ys h = h
Done-right e (x ∷ xs) ys h = inr (Done-right e xs ys h)

-- The process of the pid is there and is the helper.
abbrev pub is_ours : World → Helper → Bool
is_ours w h = alive w h.pid && one_of h.marker (w.cmdline h.pid)

-- The pid is that of a helper whose process is still its own.
abbrev pub IsHelper : World → List Helper → ℕ → Type 0
IsHelper w [] p = ⊥
IsHelper w (h ∷ hs) p = ((h.pid ≡ p) × (is_ours w h ≡ true)) ⊎ IsHelper w hs p

-- What is done at the end of a run with the helpers: nothing else is.
abbrev pub IsOfEnd : World → List Helper → Effect → Type 0
IsOfEnd w hs (state_changed s) = s ≡ stopped
IsOfEnd w hs (reported m) = Unit
IsOfEnd w hs (terminated p) = IsHelper w hs p
IsOfEnd w hs (killed p) = ⊥
IsOfEnd w hs removed_files = Unit
IsOfEnd w hs (log_started args) = ⊥
IsOfEnd w hs (launched program args) = ⊥
IsOfEnd w hs mounting = ⊥

-- The run of `r` has ended in `out`: nothing of it is left in the runner, and what was done since
-- ends it outside. Its helpers are told to end, where their processes are still theirs; its files
-- are removed; a change of the state is told, and the error unless the end was asked for; and
-- nothing else is done.
pub record IsEnded (w : World) (r out : Runner) : Type 0 where
  pub left : IsClean out
  pub no_agent : (out.agent ≡ false) × (out.connecting ≡ false)
  pub done : List Effect
  pub since : out.effects ≡ done ++ r.effects
  pub only : AllOf (IsOfEnd w r.helpers) done
  pub files : Done removed_files done
  pub told_helpers : AllOf (λ h. (is_ours w h ≡ false) ⊎ Done (terminated h.pid) done) r.helpers
  pub told_state : (r.state ≡ stopped) ⊎ Done (state_changed stopped) done
  pub told_error : (r.stop_requested ≡ true) ⊎ Done (reported out.error) done

own_signal : World → Helper → List Effect
own_signal w h = if is_ours w h then terminated h.pid ∷ [] else []

signals : World → List Helper → List Effect
unfolding own_signal
signals w [] = []
signals w (h ∷ hs) = signals w hs ++ own_signal w h

signal-effects :
    (w : World) (h : Helper) (r : Runner)
    → (signal_if_ours w h.pid h.marker (λ p. terminated p) r).effects ≡ own_signal w h ++ r.effects
unfolding signal_if_ours own_signal
signal-effects w h r = elim (Bool-cases (is_ours w h)) [
  | inl e ↦ rw (e, if◌then◌else◌) refl
  | inr e ↦ rw (e, if◌then◌else◌) refl
]

end_helpers-effects :
    (w : World) (hs : List Helper) (r : Runner)
    → (end_helpers w hs r).effects ≡ signals w hs ++ r.effects
unfolding end_helpers signals
end_helpers-effects w [] r = refl
end_helpers-effects w (h ∷ hs) r =
    end_helpers-effects w hs _ ∙ rw (signal-effects w h r, append_assoc) refl

cleanup-effects :
    (w : World) (r : Runner)
    → (cleanup w r).effects ≡ removed_files ∷ (signals w r.helpers ++ r.effects)
unfolding cleanup
cleanup-effects w r = ap (◌∷◌ removed_files) (end_helpers-effects w r.helpers _)

cleanup-state : (w : World) (r : Runner) → (cleanup w r).state ≡ r.state
cleanup-state w r = let (es, e) = cleanup_lem w r in rw e refl

change : Runner → List Effect
change r = if state_eq r.state stopped then [] else state_changed stopped ∷ []

set_state-effects : (r : Runner) → (set_state stopped r).effects ≡ change r ++ r.effects
unfolding set_state change
set_state-effects r = elim (Bool-cases (state_eq r.state stopped)) [
  | inl e ↦ rw (e, if◌then◌else◌) refl
  | inr e ↦ rw (e, if◌then◌else◌) refl
]

change-Done : (r : Runner) → (r.state ≡ stopped) ⊎ Done (state_changed stopped) (change r)
unfolding change
change-Done r = elim (Bool-cases (state_eq r.state stopped)) [
  | inl e ↦ inl (state_eq-true r.state stopped e)
  | inr e ↦ rw (e, if◌then◌else◌) (inr (inl refl))
]

own_signal-Done :
    (w : World) (h : Helper) → (is_ours w h ≡ false) ⊎ Done (terminated h.pid) (own_signal w h)
unfolding own_signal
own_signal-Done w h = elim (Bool-cases (is_ours w h)) [
  | inl e ↦ rw (e, if◌then◌else◌) (inr (inl refl))
  | inr e ↦ inl e
]

or_later : {A : Type 0} (e : Effect) (xs ys : List Effect) → A ⊎ Done e ys → A ⊎ Done e (xs ++ ys)
or_later e xs ys (inl a) = inl a
or_later e xs ys (inr h) = inr (Done-right e xs ys h)

or_earlier : {A : Type 0} (e : Effect) (xs ys : List Effect) → A ⊎ Done e xs → A ⊎ Done e (xs ++ ys)
or_earlier e xs ys (inl a) = inl a
or_earlier e xs ys (inr h) = inr (Done-left e xs ys h)

AreTold : World → List Effect → List Helper → Type 0
AreTold w done hs = AllOf (λ h. (is_ours w h ≡ false) ⊎ Done (terminated h.pid) done) hs

signals-AreTold :
    (w : World) (hs : List Helper) (before after : List Effect)
    → AreTold w (before ++ (signals w hs ++ after)) hs
unfolding signals AreTold
signals-AreTold w [] before after = tt
signals-AreTold w (h ∷ hs) before after =
    let es = signals w hs in
    let own = own_signal w h in
    let moved : es ++ (own ++ after) ≡ (es ++ own) ++ after = rw append_assoc refl in
    (
      or_later (terminated h.pid) before ((es ++ own) ++ after) (
          or_earlier (terminated h.pid) (es ++ own) after
            (or_later (terminated h.pid) es own (own_signal-Done w h))),
      subst (λ (x : List Effect). AreTold w (before ++ x) hs) moved
          (signals-AreTold w hs before (own ++ after)),
    )

AllOf-append :
    (P : Effect → Type 0) (xs ys : List Effect) → AllOf P xs → AllOf P ys → AllOf P (xs ++ ys)
AllOf-append P [] ys h k = k
AllOf-append P (x ∷ xs) ys (h, hs) k = (h, AllOf-append P xs ys hs k)

signals-only :
    (w : World) (all hs : List Helper)
    → ((p : ℕ) → IsHelper w hs p → IsHelper w all p)
    → AllOf (IsOfEnd w all) (signals w hs)
unfolding signals own_signal
signals-only w all [] among = tt
signals-only w all (h ∷ hs) among =
    AllOf-append (IsOfEnd w all) (signals w hs) (own_signal w h)
      (signals-only w all hs (λ p o. among p (inr o)))
      (elim (Bool-cases (is_ours w h)) [
        | inl e ↦ rw (e, if◌then◌else◌) (among h.pid (inl (refl, e)), tt)
        | inr e ↦ rw (e, if◌then◌else◌) tt
      ])

change-only : (w : World) (hs : List Helper) (r : Runner) → AllOf (IsOfEnd w hs) (change r)
unfolding change
change-only w hs r = elim (Bool-cases (state_eq r.state stopped)) [
  | inl e ↦ rw (e, if◌then◌else◌) tt
  | inr e ↦ rw (e, if◌then◌else◌) (refl, tt)
]

module _ (w : World) (r out : Runner) (first : List Effect) (left : IsClean out)
    (no_agent : (out.agent ≡ false) × (out.connecting ≡ false))
    (since : out.effects
      ≡ first ++ (change r ++ (removed_files ∷ (signals w r.helpers ++ r.effects))))
    (told : (r.stop_requested ≡ true) ⊎ Done (reported out.error) first)
    (first_only : AllOf (IsOfEnd w r.helpers) first) where
  ends_of : IsEnded w r out
  unfolding AreTold
  ends_of =
      let before = first ++ (change r ++ (removed_files ∷ [])) in
      let ends = removed_files ∷ signals w r.helpers in
      record {
        left = left;
        no_agent = no_agent;
        done = first ++ (change r ++ ends);
        since = since ∙ rw (append_assoc, append_assoc) refl;
        only = AllOf-append (IsOfEnd w r.helpers) first (change r ++ ends) first_only (
            AllOf-append (IsOfEnd w r.helpers) (change r) ends (change-only w r.helpers r)
              (tt, signals-only w r.helpers r.helpers (λ p o. o)));
        files =
            Done-right removed_files first _ (Done-right removed_files (change r) ends (inl refl));
        told_helpers =
            subst (λ (x : List Effect). AreTold w x r.helpers)
              (rw (append-nil, append_assoc, append_assoc) refl)
              (signals-AreTold w r.helpers before []);
        told_state =
            or_later (state_changed stopped) first (change r ++ ends)
              (or_earlier (state_changed stopped) (change r) ends (change-Done r));
        told_error = or_earlier (reported out.error) first (change r ++ ends) told;
      }

change-cleanup : (w : World) (r : Runner) → change (cleanup w r) ≡ change r
unfolding change
change-cleanup w r = rw (cleanup-state w r) refl

-- Whatever a runner with a valid client was doing, `cleanup` with the state set to Stopped ends its
-- run, if its end was asked for.
pub stop-IsEnded :
    (w : World) (r : Runner)
    → IsValid r.qmp
    → r.stop_requested ≡ true
    → IsEnded w r (set_state stopped (cleanup w r))
stop-IsEnded w r v asked =
    ends_of w r (set_state stopped (cleanup w r)) [] (stop-IsClean w r v)
      (let (es, e) = cleanup_lem w r in
        let (fs, f) = set_state_lem stopped (cleanup w r) in rw (f, e) (refl, refl))
      (set_state-effects (cleanup w r) ∙ rw (change-cleanup w r, cleanup-effects w r) refl)
      (inl asked) tt

fail-no_agent :
    (w : World) (message : Text) (r : Runner)
    → ((fail w message r).agent ≡ false) × ((fail w message r).connecting ≡ false)
fail-no_agent w message r =
    let (es, c) = cleanup_lem w r in let (fs, f) = fail_lem w message r in rw (f, c) (refl, refl)

-- A failure of a runner with a valid client ends its run.
pub fail-IsEnded :
    (w : World) (message : Text) (r : Runner) → IsValid r.qmp → IsEnded w r (fail w message r)
unfolding fail change
fail-IsEnded w message r v =
    let (clean, e) = fail-IsClean w message r v in
    ends_of w r (fail w message r) (reported message ∷ []) clean (fail-no_agent w message r)
      (ap (◌∷◌ (reported message)) (
        set_state-effects (record (cleanup w r) { error = message })
        ∙ rw (change-cleanup w r, cleanup-effects w r) refl))
      (inr (inl (rw e refl))) (tt, tt)
