-- ===== src/QmpClient/Methods.antt =====
-- The invariant of a QmpClient, for its methods and slots that take no more than one message.
use qemu_gui_manager.Prelude.{
  ℕ, ◌+◌, ◌≡◌, refl, inl, inr, true, false, not, Option, none, some, arith, if◌then◌else◌,
  Bool-cases,
}
use qemu_gui_manager.Text.{Text, is_empty}
use qemu_gui_manager.QmpClient.{
  Json, send, drop_socket, fail_all, handshake, answer, greet, handle_answer, handle, closed,
  connect_to_socket, socket_connected, socket_error, disconnect_from_socket, execute, or_empty,
  Message, Client,
}
use qemu_gui_manager.QmpClient.Steps.{
  Increasing-append, Increasing-wider, SentBelow-wider, SentBelow-insert_sent,
  SentBelow-remove_sent, send_all_lem, SentBelow-insert_all, remove_sent-nil, IsValid,
}

module _ {c : Client} (v : IsValid c) where
  handshake-IsValid :
      (error : Text)
      → c.ready ≡ false
      → c.socket ≡ true
      → c.connected ≡ true
      → IsValid (handshake error c)
  unfolding handshake drop_socket
  handshake-IsValid error r s k = elim (Bool-cases (is_empty error)) [
    | inr e ↦ ground (arith, v.idle r)
    | inl e ↦
        rw (e, handshake, if◌then◌else◌, not, send_all_lem)
          (record {
            sent_below = SentBelow-insert_all 0 c.next_id c.queued c.sent v.increasing v.sent_below;
            increasing = omega arith;
            idle = λ r. cc;
            flushed = λ r. refl;
            live = λ r. s;
            joined = λ r. k;
          })
  ]

  answer-IsValid : (id : Option ℕ) (result error : Text) → IsValid (answer id result error c)
  unfolding answer
  answer-IsValid none result error = v
  answer-IsValid (some id) result error = ground (
    arith,
    SentBelow-remove_sent c.next_id id c.sent,
    v.idle,
    v.flushed,
    v.live,
    v.joined,
    remove_sent-nil id,
  )

  greet-IsValid : IsValid (greet c)
  unfolding greet send
  greet-IsValid = record {
    sent_below = SentBelow-wider c.next_id (c.next_id + 1) c.sent (omega arith) v.sent_below;
    increasing = Increasing-wider 0 c.next_id c.queued v.increasing;
    idle = v.idle;
    flushed = v.flushed;
    live = v.live;
    joined = v.joined;
  }

  handle_answer-IsValid :
      (m : Message) → c.socket ≡ true → c.connected ≡ true → IsValid (handle_answer m c)
  unfolding handle_answer
  handle_answer-IsValid m s k = ground (
    arith,
    (λ (r : c.ready ≡ false). handshake-IsValid (or_empty m.fault) r s k),
    answer-IsValid m.id (or_empty m.result) (or_empty m.fault),
  )

  pub handle-IsValid : (m : Message) → c.socket ≡ true → c.connected ≡ true → IsValid (handle m c)
  unfolding handle
  handle-IsValid m s k = ground (arith, handle_answer-IsValid m s k, greet-IsValid)

  pub closed-IsValid : IsValid (closed c)
  unfolding closed drop_socket fail_all
  closed-IsValid = ground (arith, v.idle)

  pub connect-IsValid : IsValid (connect_to_socket c)
  unfolding connect_to_socket drop_socket fail_all
  connect-IsValid = ground (arith, v.idle, v.joined)

  pub disconnect-IsValid : IsValid (disconnect_from_socket c)
  unfolding disconnect_from_socket drop_socket fail_all
  disconnect-IsValid = ground arith

  pub socket_connected-IsValid : IsValid (socket_connected c)
  unfolding socket_connected
  socket_connected-IsValid = ground arith

  pub socket_error-IsValid : (e : Text) → IsValid (socket_error e c)
  unfolding socket_error drop_socket
  socket_error-IsValid e = ground (arith, v.idle, v.joined)

  ready_execute-IsValid :
      (name : Text) (arguments : Json) (cb : Option ℕ)
      → c.ready ≡ true
      → IsValid (execute name arguments cb c)
  unfolding execute send
  ready_execute-IsValid name arguments none e =
      rw (e, execute, if◌then◌else◌, not, send)
        (record {
          sent_below = SentBelow-wider c.next_id (c.next_id + 1) c.sent (omega arith) v.sent_below;
          increasing = Increasing-wider 0 c.next_id c.queued v.increasing;
          idle = λ r. cc;
          flushed = λ r. v.flushed e;
          live = λ r. v.live e;
          joined = λ r. v.joined e;
        })
  ready_execute-IsValid name arguments (some b) e =
      rw (e, execute, if◌then◌else◌, not, send)
        (record {
          sent_below =
              SentBelow-insert_sent (c.next_id + 1) c.next_id b c.sent (omega arith)
                (SentBelow-wider c.next_id (c.next_id + 1) c.sent (omega arith) v.sent_below);
          increasing = Increasing-wider 0 c.next_id c.queued v.increasing;
          idle = λ r. cc;
          flushed = λ r. v.flushed e;
          live = λ r. v.live e;
          joined = λ r. v.joined e;
        })

  pub execute-IsValid :
      (name : Text) (arguments : Json) (cb : Option ℕ) → IsValid (execute name arguments cb c)
  unfolding execute
  execute-IsValid name arguments cb = elim (Bool-cases c.ready) [
    | inl e ↦ ready_execute-IsValid name arguments cb e
    | inr e ↦
        rw (e, execute, if◌then◌else◌, not)
          (record {
            sent_below =
                SentBelow-wider c.next_id (c.next_id + 1) c.sent (omega arith) v.sent_below;
            increasing = Increasing-append 0 c.next_id c.queued _ v.increasing refl;
            idle = λ r. v.idle e;
            flushed = λ r. cc;
            live = λ r. cc;
            joined = λ r. cc;
          })
  ]

  -- What the fields of the invariant say of a client with another buffer.
  pub with_buffer-IsValid : (t : Text) → IsValid (record c { buffer = t })
  with_buffer-IsValid t = record {
    sent_below = v.sent_below;
    increasing = v.increasing;
    idle = v.idle;
    flushed = v.flushed;
    live = v.live;
    joined = v.joined;
  }
