-- ===== src/QmpClient.antt =====
-- src/core/qmpclient.cpp: the QMP connection to QEMU. The methods and the slots of the socket are
-- functions on the state, which records what the client does in `log`. A callback is known by a
-- number; what a callback does to the client comes as further calls after it.
pub mod Steps
pub mod Methods
pub mod Invariant
pub mod Callbacks
pub mod Once
pub mod Reading
pub mod Handshake
use qemu_gui_manager.Prelude.{
  ℕ, zero, suc, ◌+◌, Bool, true, false, not, ◌&&◌, Option, none, some, List, [], ◌∷◌, ◌++◌, ◌==◌,
  if◌then◌else◌, length, take, drop,
}
use qemu_gui_manager.Prelude.{drop as list_drop}
use qemu_gui_manager.Text.{Text, codes, is_empty, index_of, trimmed}
use qemu_gui_manager.Numbers.{number}

-- A JSON value, in its compact form.
abbrev pub Json : Type 0
Json = Text

-- A message from QEMU, as far as `handle` looks at it. `fault` is the text of its error: `desc`,
-- else `class`, else "error".
pub record Message : Type 0 where
  pub greeting : Bool
  pub event : Option (Text × Json)
  pub result : Option Json
  pub fault : Option Text
  pub id : Option ℕ

pub record Command : Type 0 where
  pub id : ℕ
  pub name : Text
  pub arguments : Json
  pub callback : Option ℕ

pub data Output : Type 0 where
  wrote : ℕ → Text → Json → Output
  called : ℕ → Json → Text → Output
  became_ready : Output
  failed_to_connect : Text → Output
  lost_connection : Output
  got_event : Text → Json → Output

-- `socket` tells that there is one; `capabilities_id` is `none` for -1.
pub record Client : Type 0 where
  pub socket : Bool
  pub buffer : Text
  pub connected : Bool
  pub ready : Bool
  pub next_id : ℕ
  pub capabilities_id : Option ℕ
  pub queued : List Command
  pub sent : List (ℕ × ℕ)
  pub log : List Output

abbrev pub initial : Client
initial = record {
  socket = false;
  buffer = [];
  connected = false;
  ready = false;
  next_id = 1;
  capabilities_id = none;
  queued = [];
  sent = [];
  log = [];
}

abbrev emit : Output → Client → Client
emit o c = record c { log = o ∷ c.log }

unfoldable pub send : ℕ → Text → Json → Client → Client
send id name arguments c = emit (wrote id name arguments) c

-- sent.insert(id, callback)
unfoldable pub insert_sent : ℕ → ℕ → List (ℕ × ℕ) → List (ℕ × ℕ)
insert_sent id cb [] = (id, cb) ∷ []
insert_sent id cb ((j, b) ∷ rest) =
    if j == id then (id, cb) ∷ rest else (j, b) ∷ insert_sent id cb rest

unfoldable pub find_sent : ℕ → List (ℕ × ℕ) → Option ℕ
find_sent id [] = none
find_sent id ((j, b) ∷ rest) = if j == id then some b else find_sent id rest

unfoldable pub remove_sent : ℕ → List (ℕ × ℕ) → List (ℕ × ℕ)
remove_sent id [] = []
remove_sent id ((j, b) ∷ rest) = if j == id then rest else (j, b) ∷ remove_sent id rest

-- drop(): closes the socket quietly.
unfoldable pub drop_socket : Client → Client
drop_socket c = record c {
  socket = false;
  buffer = [];
  connected = false;
  ready = false;
  capabilities_id = none;
}

-- The callbacks of failAll: those that were sent, then those of the queue.
unfoldable pub call_sent : Text → List (ℕ × ℕ) → List Output → List Output
call_sent error [] log = log
call_sent error ((id, b) ∷ rest) log = call_sent error rest (called b [] error ∷ log)

unfoldable pub call_queued : Text → List Command → List Output → List Output
call_queued error [] log = log
call_queued error (q ∷ qs) log = elim q.callback [
  | none ↦ call_queued error qs log
  | some b ↦ call_queued error qs (called b [] error ∷ log)
]

unfoldable pub fail_all : Text → Client → Client
unfolding call_sent call_queued
fail_all error c = record c {
  sent = [];
  queued = [];
  log = call_queued error c.queued (call_sent error c.sent c.log);
}

-- One round of the loop over the queue once the capabilities are agreed on.
unfoldable pub send_queued : Command → Client → Client
unfolding insert_sent send
send_queued q c = elim q.callback [
  | none ↦ send q.id q.name q.arguments c
  | some b ↦ send q.id q.name q.arguments (record c { sent = insert_sent q.id b c.sent })
]

unfoldable pub send_all : List Command → Client → Client
unfolding send_queued
send_all [] c = c
send_all (q ∷ qs) c = send_all qs (send_queued q c)

-- The answer to qmp_capabilities.
unfoldable pub handshake : Text → Client → Client
unfolding drop_socket send_all
handshake error c =
    if not (is_empty error)
    then emit (failed_to_connect error) (drop_socket c)
    else emit became_ready (send_all c.queued (record c { ready = true; queued = [] }))

unfoldable pub same_id : Option ℕ → Option ℕ → Bool
same_id none none = true
same_id (some a) (some b) = a == b
same_id _ _ = false

abbrev or_empty : Option Text → Text
or_empty none = []
or_empty (some t) = t

-- `sent.take(id)`, and the call of what it gives.
unfoldable pub answer : Option ℕ → Json → Text → Client → Client
unfolding find_sent remove_sent
answer none result error c = c
answer (some id) result error c = elim (find_sent id c.sent) [
  | none ↦ c
  | some b ↦ emit (called b result error) (record c { sent = remove_sent id c.sent })
]

abbrev is_given {ℓ} : {A : Type ℓ} → Option A → Bool
is_given none = false
is_given (some a) = true

unfoldable pub greet : Client → Client
unfolding send
greet c =
    send c.next_id (codes "qmp_capabilities") []
      (record c { capabilities_id = some c.next_id; next_id = c.next_id + 1 })

-- The part of `handle` about answers.
unfoldable pub handle_answer : Message → Client → Client
unfolding handshake answer same_id
handle_answer m c =
    let error = or_empty m.fault in
    if not (is_given m.result) && not (is_given m.fault)
    then c
    else if not c.ready && same_id m.id c.capabilities_id
    then handshake error c
    else answer m.id (or_empty m.result) error c

unfoldable pub handle : Message → Client → Client
unfolding greet handle_answer
handle m c =
    if m.greeting
    then greet c
    else elim m.event [ none ↦ handle_answer m c | some e ↦ emit (got_event e.0 e.1) c ]

-- The slot of QLocalSocket::disconnected.
unfoldable pub closed : Client → Client
unfolding drop_socket fail_all
closed c =
    if c.ready
    then emit lost_connection (fail_all (codes "The connection to QEMU closed") (drop_socket c))
    else emit (failed_to_connect (codes "QEMU closed the connection")) (drop_socket c)

unfoldable pub connect_to_socket : Client → Client
unfolding drop_socket fail_all
connect_to_socket c =
    let dropped =
      if c.connected
      then fail_all (codes "Reconnecting to QEMU") (drop_socket c)
      else drop_socket c in
    record dropped { socket = true }

-- The slots of QLocalSocket::connected and errorOccurred.
unfoldable pub socket_connected : Client → Client
socket_connected c = record c { connected = true }

unfoldable pub socket_error : Text → Client → Client
unfolding drop_socket
socket_error error c =
    if not c.connected && c.socket then emit (failed_to_connect error) (drop_socket c) else c

unfoldable pub disconnect_from_socket : Client → Client
unfolding drop_socket fail_all
disconnect_from_socket c = fail_all (codes "Disconnected from QEMU") (drop_socket c)

unfoldable pub execute : Text → Json → Option ℕ → Client → Client
unfolding insert_sent send
execute name arguments callback c =
    let id = c.next_id in
    let counted = record c { next_id = id + 1 } in
    if not c.ready
    then record counted {
      queued =
          c.queued
          ++ (record { id = id; name = name; arguments = arguments; callback = callback } ∷ []);
    }
    else elim callback [
      | none ↦ send id name arguments counted
      | some b ↦ send id name arguments (record counted { sent = insert_sent id b c.sent })
    ]

-- The loop of `read`, which stops when a message ended the connection. QJsonDocument::fromJson
-- and the object's fields are the parameter.
unfoldable pub read_lines : ℕ → (Text → Option Message) → Client → Client
unfolding handle index_of
read_lines zero from_json c = c
read_lines (suc fuel) from_json c = elim (index_of b'\n' c.buffer) [
  | none ↦ c
  | some at ↦
      let rest = record c { buffer = list_drop (suc at) c.buffer } in
      elim (from_json (trimmed (take at c.buffer))) [
        | none ↦ read_lines fuel from_json rest
        | some m ↦
            let next = handle m rest in
            elim next.socket [ true ↦ read_lines fuel from_json next | false ↦ next ]
      ]
]

-- `read` with what the socket had to read.
unfoldable pub read : (Text → Option Message) → Text → Client → Client
unfolding read_lines
read from_json chunk c =
    let filled = record c { buffer = c.buffer ++ chunk } in
    read_lines (suc (length filled.buffer)) from_json filled
