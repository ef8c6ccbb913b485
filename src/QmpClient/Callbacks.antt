-- ===== src/QmpClient/Callbacks.antt =====
-- The callbacks of a QmpClient: how often one waits for its reply or has been called.
use qemu_gui_manager.Prelude.{
  ℕ, suc, ◌+◌, ◌≡◌, refl, inl, inr, Bool, true, false, Option, none, some, List, [], ◌∷◌, ◌++◌,
  arith, ◌==◌, Option-cases,
}
use qemu_gui_manager.Text.{Text}
use qemu_gui_manager.QmpClient.{
  insert_sent, find_sent, remove_sent, call_sent, call_queued, fail_all, wrote, called,
  became_ready, failed_to_connect, lost_connection, got_event, Command, Output, Client,
}
use qemu_gui_manager.QmpClient.Steps.{
  SentBelow, Increasing, SentBelow-wider, insert_callback, insert_all, write_all,
  SentBelow-insert_callback,
}

abbrev pub one_if : Bool → ℕ
one_if true = 1
one_if false = 0

unfoldable pub is_callback : ℕ → Option ℕ → ℕ
is_callback t none = 0
is_callback t (some b) = one_if (b == t)

unfoldable pub in_sent : ℕ → List (ℕ × ℕ) → ℕ
in_sent t [] = 0
in_sent t ((j, b) ∷ s) = one_if (b == t) + in_sent t s

unfoldable pub in_queue : ℕ → List Command → ℕ
unfolding is_callback
in_queue t [] = 0
in_queue t (q ∷ qs) = is_callback t q.callback + in_queue t qs

unfoldable pub in_log : ℕ → List Output → ℕ
in_log t [] = 0
in_log t (called b r e ∷ os) = one_if (b == t) + in_log t os
in_log t (wrote i n a ∷ os) = in_log t os
in_log t (became_ready ∷ os) = in_log t os
in_log t (failed_to_connect e ∷ os) = in_log t os
in_log t (lost_connection ∷ os) = in_log t os
in_log t (got_event n d ∷ os) = in_log t os

-- The callbacks `t` that wait for a reply, wait in the queue or have been called.
unfoldable pub total : ℕ → Client → ℕ
unfolding in_sent in_queue in_log
total t c = in_sent t c.sent + in_queue t c.queued + in_log t c.log

module _ (t : ℕ) where
  pub in_sent-insert_sent :
      (id b : ℕ) (s : List (ℕ × ℕ))
      → SentBelow id s
      → in_sent t (insert_sent id b s) ≡ in_sent t s + one_if (b == t)
  unfolding in_sent insert_sent
  in_sent-insert_sent id b [] h = omega arith
  in_sent-insert_sent id b ((j, a) ∷ s) (l, h) = ground (arith, in_sent-insert_sent id b s h)

  pub in_sent-insert_callback :
      (id : ℕ) (cb : Option ℕ) (s : List (ℕ × ℕ))
      → SentBelow id s
      → in_sent t (insert_callback id cb s) ≡ in_sent t s + is_callback t cb
  unfolding insert_callback is_callback
  in_sent-insert_callback id none s h = omega arith
  in_sent-insert_callback id (some b) s h = in_sent-insert_sent id b s h

  pub in_sent-insert_all :
      (lo hi : ℕ) (qs : List Command) (s : List (ℕ × ℕ))
      → Increasing lo hi qs
      → SentBelow lo s
      → in_sent t (insert_all qs s) ≡ in_sent t s + in_queue t qs
  unfolding insert_all in_queue
  in_sent-insert_all lo hi [] s i h = omega arith
  in_sent-insert_all lo hi (q ∷ qs) s (l, i) h = omega (
    arith,
    in_sent-insert_all (suc q.id) hi qs (insert_callback q.id q.callback s) i (
        SentBelow-insert_callback (suc q.id) q.id q.callback s (omega arith)
          (SentBelow-wider lo (suc q.id) s (omega arith) h)),
    in_sent-insert_callback q.id q.callback s (SentBelow-wider lo q.id s l h),
  )

  pub in_sent-remove_sent :
      (id b : ℕ) (s : List (ℕ × ℕ))
      → find_sent id s ≡ some b
      → in_sent t s ≡ in_sent t (remove_sent id s) + one_if (b == t)
  unfolding in_sent find_sent remove_sent
  in_sent-remove_sent id b [] h = cc
  in_sent-remove_sent id b ((j, a) ∷ s) h = ground (arith, in_sent-remove_sent id b s)

  pub in_log-write_all :
      (qs : List Command) (log : List Output) → in_log t (write_all qs log) ≡ in_log t log
  unfolding in_log write_all
  in_log-write_all [] log = refl
  in_log-write_all (q ∷ qs) log = in_log-write_all qs (wrote q.id q.name q.arguments ∷ log)

  pub in_log-call_sent :
      (e : Text) (s : List (ℕ × ℕ)) (log : List Output)
      → in_log t (call_sent e s log) ≡ in_sent t s + in_log t log
  unfolding in_log call_sent in_sent
  in_log-call_sent e [] log = omega arith
  in_log-call_sent e ((j, b) ∷ s) log = omega (arith, in_log-call_sent e s (called b [] e ∷ log))

  pub in_log-call_queued :
      (e : Text) (qs : List Command) (log : List Output)
      → in_log t (call_queued e qs log) ≡ in_queue t qs + in_log t log
  unfolding in_log call_queued in_queue is_callback
  in_log-call_queued e [] log = omega arith
  in_log-call_queued e (q ∷ qs) log = elim (Option-cases q.callback) [
    | inl n ↦
        rw (n, call_queued, in_queue, is_callback) (omega (arith, in_log-call_queued e qs log))
    | inr (b, n) ↦
        rw (n, call_queued, in_queue, is_callback)
          (omega (arith, in_log-call_queued e qs (called b [] e ∷ log)))
  ]

  pub total-fail_all : (e : Text) (c : Client) → total t (fail_all e c) ≡ total t c
  unfolding total fail_all in_sent in_queue
  total-fail_all e c = omega (
    arith,
    in_log-call_queued e c.queued (call_sent e c.sent c.log),
    in_log-call_sent e c.sent c.log,
  )

  pub in_queue-append :
      (qs : List Command) (q : Command)
      → in_queue t (qs ++ (q ∷ [])) ≡ in_queue t qs + is_callback t q.callback
  unfolding in_queue
  in_queue-append [] q = omega arith
  in_queue-append (p ∷ qs) q = omega (arith, in_queue-append qs q)
