-- ===== src/QmpClient/Invariant.antt =====
-- The invariant of a QmpClient, for each of its methods and slots.
use qemu_gui_manager.QmpClient.Methods.{
  handle-IsValid, closed-IsValid, connect-IsValid, disconnect-IsValid, socket_connected-IsValid,
  socket_error-IsValid, execute-IsValid, with_buffer-IsValid,
}
use qemu_gui_manager.Prelude.{
  ℕ, zero, suc, ◌≡◌, refl, ap, inl, inr, true, ◌&&◌, Option, List, [], ◌∷◌, ◌++◌, arith,
  if◌then◌else◌, Bool-cases, Option-cases, length, take,
}
use qemu_gui_manager.Prelude.{drop as list_drop}
use qemu_gui_manager.Text.{Text, index_of, trimmed}
use qemu_gui_manager.QmpClient.{
  initial, send, drop_socket, handshake, answer, greet, handle_answer, handle, read_lines, read,
  Message, Client,
}
use qemu_gui_manager.QmpClient.Steps.{
  step, run, send_all_lem, Input, connect, hung_up, disconnect, socket_up, socket_failed, arrived,
  call, IsValid,
}

-- A valid client that a message left with a socket is connected if it was.
pub handle-connected :
    (m : Message) (c : Client)
    → c.connected ≡ true
    → (handle m c).socket ≡ true
    → (handle m c).connected ≡ true
unfolding handle handle_answer handshake answer greet send drop_socket
handle-connected m c k h = ground (
  arith,
  ap (λ (x : Client). x.connected) (send_all_lem c.queued (record c { ready = true; queued = [] })),
)

read_lines-IsValid :
    (fuel : ℕ) (from_json : Text → Option Message) (c : Client)
    → IsValid c
    → c.socket ≡ true
    → c.connected ≡ true
    → IsValid (read_lines fuel from_json c)
unfolding read_lines
read_lines-IsValid zero from_json c v s k = v
read_lines-IsValid (suc fuel) from_json c v s k = elim (Option-cases (index_of b'\n' c.buffer)) [
  | inl e ↦ rw (e, read_lines) v
  | inr (at, e) ↦
      let rest = record c { buffer = list_drop (suc at) c.buffer } in
      elim (Option-cases (from_json (trimmed (take at c.buffer)))) [
        | inl g ↦
            rw (e, g, read_lines)
              (read_lines-IsValid fuel from_json rest (with_buffer-IsValid v _) s k)
        | inr (m, g) ↦ elim (Bool-cases (handle m rest).socket) [
          | inr d ↦ rw (e, g, d, read_lines) (handle-IsValid (with_buffer-IsValid v _) m s k)
          | inl d ↦
              rw (e, g, d, read_lines)
                (read_lines-IsValid fuel from_json (handle m rest)
                  (handle-IsValid (with_buffer-IsValid v _) m s k) d (handle-connected m rest k d))
        ]
      ]
]

pub step-IsValid :
    (from_json : Text → Option Message) (i : Input) (c : Client)
    → IsValid c
    → IsValid (step from_json i c)
unfolding step read
step-IsValid from_json connect c v = connect-IsValid v
step-IsValid from_json hung_up c v = ground (arith, closed-IsValid v)
step-IsValid from_json disconnect c v = disconnect-IsValid v
step-IsValid from_json socket_up c v = ground (arith, socket_connected-IsValid v)
step-IsValid from_json (socket_failed e) c v = ground (arith, socket_error-IsValid v e)
step-IsValid from_json (arrived t) c v = elim (Bool-cases (c.socket && c.connected)) [
  | inl e ↦ ground (
    arith,
    read_lines-IsValid (suc (length (c.buffer ++ t))) from_json
        (record c { buffer = c.buffer ++ t }) (with_buffer-IsValid v (c.buffer ++ t)),
  )
  | inr e ↦ rw (e, step, if◌then◌else◌) v
]
step-IsValid from_json (call name arguments cb) c v = execute-IsValid v name arguments cb

pub initial-IsValid : IsValid initial
initial-IsValid = record {
  sent_below = tt;
  increasing = omega arith;
  idle = λ r. refl;
  flushed = λ r. refl;
  live = λ r. cc;
  joined = λ r. cc;
}

-- A valid client stays valid, whatever the owner calls and whatever the socket brings, in any
-- order: the ids of the callbacks that wait are below the next id, the ids of the queue increase,
-- nothing waits for a reply before the client is ready, the queue is empty from then on, and a
-- client that is ready has a connected socket.
pub run-IsValid :
    (from_json : Text → Option Message) (is : List Input) (c : Client)
    → IsValid c
    → IsValid (run from_json is c)
unfolding run
run-IsValid from_json [] c v = v
run-IsValid from_json (i ∷ is) c v =
    run-IsValid from_json is (step from_json i c) (step-IsValid from_json i c v)
