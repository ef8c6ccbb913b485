-- ===== src/QmpClient/Once.antt =====
-- What the methods and the slots of QmpClient do to the number of callbacks.
use qemu_gui_manager.Prelude.{
  ℕ, zero, suc, ◌+◌, ◌≡◌, refl, ◌∙◌, inl, inr, Bool, true, false, not, ◌&&◌, Option, none, some,
  List, [], ◌∷◌, ◌++◌, arith, if◌then◌else◌, Bool-cases, Option-cases, length, take,
}
use qemu_gui_manager.QmpClient.Methods.{handle-IsValid, with_buffer-IsValid}
use qemu_gui_manager.QmpClient.Invariant.{
  handle-connected, step-IsValid, initial-IsValid, run-IsValid,
}
use qemu_gui_manager.Text.{Text, codes, is_empty, index_of, trimmed}
use qemu_gui_manager.QmpClient.{
  Json, initial, send, find_sent, drop_socket, fail_all, handshake, answer, greet, handle_answer,
  handle, closed, connect_to_socket, socket_connected, socket_error, disconnect_from_socket,
  execute, read_lines, read, or_empty, Message, Client,
}
use qemu_gui_manager.QmpClient.Steps.{
  step, run, send_all_lem, Input, connect, hung_up, disconnect, socket_up, socket_failed, arrived,
  call, IsValid,
}
use qemu_gui_manager.QmpClient.Callbacks.{
  is_callback, in_sent, in_queue, in_log, total, in_sent-insert_sent, in_sent-insert_all,
  in_sent-remove_sent, in_log-write_all, total-fail_all, in_queue-append,
}
use qemu_gui_manager.Prelude.{drop as list_drop}

module _ (t : ℕ) {c : Client} (v : IsValid c) where
  total-handshake : (error : Text) → c.ready ≡ false → total t (handshake error c) ≡ total t c
  unfolding handshake drop_socket total in_log
  total-handshake error r = elim (Bool-cases (is_empty error)) [
    | inr e ↦ rw (e, handshake, if◌then◌else◌, not) refl
    | inl e ↦
        rw (e, handshake, if◌then◌else◌, not, send_all_lem, v.idle r)
          (omega (
            arith,
            in_sent-insert_all t 0 c.next_id c.queued [] v.increasing tt,
            in_log-write_all t c.queued c.log,
          ))
  ]

  total-answer :
      (id : Option ℕ) (result error : Text) → total t (answer id result error c) ≡ total t c
  unfolding answer total in_log
  total-answer none result error = refl
  total-answer (some id) result error = elim (Option-cases (find_sent id c.sent)) [
    | inl e ↦ rw (e, answer) refl
    | inr (b, e) ↦ rw (e, answer) (omega (arith, in_sent-remove_sent t id b c.sent e))
  ]

  total-handle_answer : (m : Message) → total t (handle_answer m c) ≡ total t c
  unfolding handle_answer
  total-handle_answer m = ground (
    arith,
    total-handshake (or_empty m.fault),
    total-answer m.id (or_empty m.result) (or_empty m.fault),
  )

  total-handle : (m : Message) → total t (handle m c) ≡ total t c
  unfolding handle greet send total in_log
  total-handle m = elim (Bool-cases m.greeting) [
    | inl e ↦ rw (e, handle, if◌then◌else◌) refl
    | inr e ↦ elim (Option-cases m.event) [
      | inl n ↦ rw (e, n, handle, if◌then◌else◌) (total-handle_answer m)
      | inr (d, n) ↦ rw (e, n, handle, if◌then◌else◌) refl
    ]
  ]

  total-closed : total t (closed c) ≡ total t c
  unfolding closed drop_socket total in_log
  total-closed = elim (Bool-cases c.ready) [
    | inl e ↦
        rw (e, closed, if◌then◌else◌)
          (total-fail_all t (codes "The connection to QEMU closed") (drop_socket c))
    | inr e ↦ rw (e, closed, if◌then◌else◌) refl
  ]

  total-connect : total t (connect_to_socket c) ≡ total t c
  unfolding connect_to_socket drop_socket total
  total-connect = elim (Bool-cases c.connected) [
    | inl e ↦
        rw (e, connect_to_socket, if◌then◌else◌)
          (total-fail_all t (codes "Reconnecting to QEMU") (drop_socket c))
    | inr e ↦ rw (e, connect_to_socket, if◌then◌else◌) refl
  ]

  total-disconnect : total t (disconnect_from_socket c) ≡ total t c
  unfolding disconnect_from_socket drop_socket total
  total-disconnect = total-fail_all t (codes "Disconnected from QEMU") (drop_socket c)

  total-socket_error : (e : Text) → total t (socket_error e c) ≡ total t c
  unfolding socket_error drop_socket total in_log
  total-socket_error e = ground arith

  total-socket_connected : total t (socket_connected c) ≡ total t c
  unfolding socket_connected total
  total-socket_connected = refl

  total-execute :
      (name : Text) (arguments : Json) (cb : Option ℕ)
      → total t (execute name arguments cb c) ≡ total t c + is_callback t cb
  unfolding execute send total in_log is_callback
  total-execute name arguments none = elim (Bool-cases c.ready) [
    | inl e ↦ rw (e, execute, if◌then◌else◌, not) (omega arith)
    | inr e ↦
        rw (e, execute, if◌then◌else◌, not)
          (omega (
            arith,
            in_queue-append t c.queued
                (record { id = c.next_id; name = name; arguments = arguments; callback = none }),
          ))
  ]
  total-execute name arguments (some b) = elim (Bool-cases c.ready) [
    | inl e ↦
        rw (e, execute, if◌then◌else◌, not)
          (omega (arith, in_sent-insert_sent t c.next_id b c.sent v.sent_below))
    | inr e ↦
        rw (e, execute, if◌then◌else◌, not)
          (omega (
            arith,
            in_queue-append t c.queued
                (record { id = c.next_id; name = name; arguments = arguments; callback = some b }),
          ))
  ]

total-read_lines :
    (t : ℕ) (fuel : ℕ) (from_json : Text → Option Message) (c : Client)
    → IsValid c
    → c.socket ≡ true
    → c.connected ≡ true
    → total t (read_lines fuel from_json c) ≡ total t c
unfolding read_lines total
total-read_lines t zero from_json c v s k = refl
total-read_lines t (suc fuel) from_json c v s k = elim (Option-cases (index_of b'\n' c.buffer)) [
  | inl e ↦ rw (e, read_lines) refl
  | inr (at, e) ↦
      let rest = record c { buffer = list_drop (suc at) c.buffer } in
      elim (Option-cases (from_json (trimmed (take at c.buffer)))) [
        | inl g ↦
            rw (e, g, read_lines)
              (total-read_lines t fuel from_json rest (with_buffer-IsValid v _) s k)
        | inr (m, g) ↦ elim (Bool-cases (handle m rest).socket) [
          | inr d ↦ rw (e, g, d, read_lines) (total-handle t (with_buffer-IsValid v _) m)
          | inl d ↦
              rw (e, g, d, read_lines)
                (total-read_lines t fuel from_json (handle m rest)
                    (handle-IsValid (with_buffer-IsValid v _) m s k) d (handle-connected m rest k d)
                  ∙ total-handle t (with_buffer-IsValid v _) m)
        ]
      ]
]

-- How often the callback `t` is given to `execute`.
pub given_by : ℕ → Input → ℕ
given_by t (call n a cb) = is_callback t cb
given_by t _ = 0

pub given : ℕ → List Input → ℕ
unfolding given_by
given t [] = 0
given t (i ∷ is) = given_by t i + given t is

total-if :
    (t : ℕ) (b : Bool) (x c : Client)
    → total t x ≡ total t c
    → total t (if b then x else c) ≡ total t c
total-if t true x c h = h
total-if t false x c h = refl

total-read :
    (t : ℕ) (from_json : Text → Option Message) (x : Text) (c : Client)
    → IsValid c
    → total t (if c.socket && c.connected then read from_json x c else c) ≡ total t c
unfolding read total
total-read t from_json x c v = elim (Bool-cases (c.socket && c.connected)) [
  | inl e ↦
      rw (e, if◌then◌else◌)
        (total-read_lines t (suc (length (c.buffer ++ x))) from_json
          (record c { buffer = c.buffer ++ x }) (with_buffer-IsValid v _) (ground arith)
          (ground arith))
  | inr e ↦ rw (e, if◌then◌else◌) refl
]

total-step :
    (t : ℕ) (from_json : Text → Option Message) (i : Input) (c : Client)
    → IsValid c
    → total t (step from_json i c) ≡ total t c + given_by t i
unfolding step given_by
total-step t from_json connect c v = omega (arith, total-connect t v)
total-step t from_json hung_up c v =
    omega (arith, total-if t c.socket (closed c) c (total-closed t v))
total-step t from_json disconnect c v = omega (arith, total-disconnect t v)
total-step t from_json socket_up c v =
    omega (arith, total-if t c.socket (socket_connected c) c (total-socket_connected t v))
total-step t from_json (socket_failed e) c v =
    omega (arith, total-if t c.socket (socket_error e c) c (total-socket_error t v e))
total-step t from_json (arrived x) c v = omega (arith, total-read t from_json x c v)
total-step t from_json (call name arguments cb) c v = total-execute t v name arguments cb

-- From a valid client, whatever happens, in any order, a callback waits or has been called as
-- often in all as it was given: none is lost and none is called twice for one command.
pub total-run :
    (t : ℕ) (from_json : Text → Option Message) (is : List Input) (c : Client)
    → IsValid c
    → total t (run from_json is c) ≡ total t c + given t is
unfolding run given
total-run t from_json [] c v = omega arith
total-run t from_json (i ∷ is) c v = omega (
  arith,
  total-run t from_json is (step from_json i c) (step-IsValid from_json i c v),
  total-step t from_json i c v,
)

-- Once the owner disconnects a client that began as new, whatever happened
-- before, each callback has been called exactly as often as it was given.
pub disconnect-calls_all :
    (t : ℕ) (from_json : Text → Option Message) (is : List Input)
    → in_log t (disconnect_from_socket (run from_json is initial)).log ≡ given t is
unfolding total fail_all drop_socket disconnect_from_socket in_log in_sent in_queue
disconnect-calls_all t from_json is = omega (
  arith,
  total-disconnect t (run-IsValid from_json is initial initial-IsValid),
  total-run t from_json is initial initial-IsValid,
)
