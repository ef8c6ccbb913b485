-- ===== src/QmpClient/Handshake.antt =====
-- The start of a connection in QmpClient: greeting, capabilities, and the queue.
use qemu_gui_manager.Prelude.{
  ℕ, ◌≡◌, refl, true, false, not, ◌&&◌, Option, none, some, [], ◌∷◌, arith, if◌then◌else◌,
}
use qemu_gui_manager.Text.{is_empty}
use qemu_gui_manager.QmpClient.{
  Json, initial, drop_socket, handshake, same_id, handle_answer, handle, connect_to_socket,
  socket_connected, became_ready, Message, Client,
}
use qemu_gui_manager.QmpClient.Steps.{insert_all, write_all, send_all_lem}

same_id_refl : (o : Option ℕ) → same_id o o ≡ true
unfolding same_id
same_id_refl none = refl
same_id_refl (some n) = ground arith

-- A message that is neither greeting, event nor error and gives a result with the id that the
-- client waits for while it is not ready makes it ready, and sends the whole queue in its order,
-- each command with its callback.
answer-starts :
    (m : Message) (c : Client) (r : Json)
    → m.greeting ≡ false
    → m.event ≡ none
    → m.result ≡ some r
    → m.fault ≡ none
    → m.id ≡ c.capabilities_id
    → c.ready ≡ false
    → handle m c ≡ record c {
      ready = true;
      queued = [];
      sent = insert_all c.queued c.sent;
      log = became_ready ∷ write_all c.queued c.log;
    }
unfolding handle handle_answer handshake
answer-starts m c r g e res f i n =
    rw
      (
        g, e, res, f, i, n, same_id_refl, handle, handle_answer, handshake, if◌then◌else◌, not,
        ◌&&◌, is_empty, send_all_lem,
      )
      refl

-- Before the greeting, a result without an id, that is neither greeting, event nor error, is
-- taken for the answer to qmp_capabilities: a new client that has connected is ready, although it
-- has sent nothing.
answer_without_id-starts :
    (m : Message) (r : Json)
    → m.greeting ≡ false
    → m.event ≡ none
    → m.result ≡ some r
    → m.fault ≡ none
    → m.id ≡ none
    → handle m (socket_connected (connect_to_socket initial))
      ≡ record (socket_connected (connect_to_socket initial)) {
        ready = true;
        log = became_ready ∷ [];
      }
unfolding connect_to_socket drop_socket socket_connected insert_all write_all
answer_without_id-starts m r g e res f i =
    answer-starts m (socket_connected (connect_to_socket initial)) r g e res f i refl
