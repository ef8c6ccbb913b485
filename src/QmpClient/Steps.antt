-- ===== src/QmpClient/Steps.antt =====
-- The events that reach a QmpClient, in any order, and the invariant of its state.
use qemu_gui_manager.Prelude.{
  ℕ, suc, ◌+◌, ◌≤◌, ◌<◌, ◌≡◌, refl, ◌∙◌, true, false, ◌&&◌, Option, none, some, List, [], ◌∷◌, ◌++◌,
  arith, if◌then◌else◌,
}
use qemu_gui_manager.Text.{Text}
use qemu_gui_manager.QmpClient.{
  Json, send, insert_sent, remove_sent, send_queued, send_all, closed, connect_to_socket,
  socket_connected, socket_error, disconnect_from_socket, execute, read, wrote, Message, Command,
  Output, Client,
}

pub data Input : Type 0 where
  connect hung_up disconnect socket_up : Input
  socket_failed : Text → Input
  arrived : Text → Input
  call : Text → Json → Option ℕ → Input

-- The slots of the socket run only while the client has it: `drop` disconnects them. It has bytes
-- to read only once it is connected.
abbrev with_socket : (Client → Client) → Client → Client
with_socket f c = if c.socket then f c else c

unfoldable pub step : (Text → Option Message) → Input → Client → Client
unfolding read
step from_json connect c = connect_to_socket c
step from_json hung_up c = with_socket closed c
step from_json disconnect c = disconnect_from_socket c
step from_json socket_up c = with_socket socket_connected c
step from_json (socket_failed e) c = with_socket (socket_error e) c
step from_json (arrived t) c = if c.socket && c.connected then read from_json t c else c
step from_json (call name arguments callback) c = execute name arguments callback c

unfoldable pub run : (Text → Option Message) → List Input → Client → Client
unfolding step
run from_json [] c = c
run from_json (i ∷ is) c = run from_json is (step from_json i c)

abbrev pub SentBelow : ℕ → List (ℕ × ℕ) → Type 0
SentBelow n [] = Unit
SentBelow n ((j, b) ∷ rest) = (j < n) × SentBelow n rest

-- The ids of the queue increase from `lo` on and stay below `hi`.
abbrev pub Increasing : ℕ → ℕ → List Command → Type 0
Increasing lo hi [] = lo ≤ hi
Increasing lo hi (q ∷ qs) = (lo ≤ q.id) × Increasing (suc q.id) hi qs

pub record IsValid (c : Client) : Type 0 where
  pub sent_below : SentBelow c.next_id c.sent
  pub increasing : Increasing 0 c.next_id c.queued
  pub idle : c.ready ≡ false → c.sent ≡ []
  pub flushed : c.ready ≡ true → c.queued ≡ []
  pub live : c.ready ≡ true → c.socket ≡ true
  pub joined : c.ready ≡ true → c.connected ≡ true

pub Increasing-append :
    (lo hi : ℕ) (qs : List Command) (q : Command)
    → Increasing lo hi qs
    → q.id ≡ hi
    → Increasing lo (hi + 1) (qs ++ (q ∷ []))
Increasing-append lo hi [] q h e = omega arith
Increasing-append lo hi (p ∷ qs) q (l, h) e = (l, Increasing-append (suc p.id) hi qs q h e)

pub Increasing-le : (lo hi : ℕ) (qs : List Command) → Increasing lo hi qs → lo ≤ hi
Increasing-le lo hi [] h = h
Increasing-le lo hi (q ∷ qs) (l, h) = omega (arith, Increasing-le (suc q.id) hi qs h)

pub Increasing-wider :
    (lo hi : ℕ) (qs : List Command) → Increasing lo hi qs → Increasing lo (hi + 1) qs
Increasing-wider lo hi [] h = omega arith
Increasing-wider lo hi (q ∷ qs) (l, h) = (l, Increasing-wider (suc q.id) hi qs h)

pub SentBelow-wider : (m n : ℕ) (s : List (ℕ × ℕ)) → m ≤ n → SentBelow m s → SentBelow n s
SentBelow-wider m n [] le h = tt
SentBelow-wider m n ((j, b) ∷ s) le (l, h) = (omega arith, SentBelow-wider m n s le h)

pub SentBelow-insert_sent :
    (n id b : ℕ) (s : List (ℕ × ℕ)) → id < n → SentBelow n s → SentBelow n (insert_sent id b s)
unfolding insert_sent
SentBelow-insert_sent n id b [] l h = (l, tt)
SentBelow-insert_sent n id b ((j, a) ∷ s) l (k, h) = ground (arith, SentBelow-insert_sent n id b s)

pub SentBelow-remove_sent :
    (n id : ℕ) (s : List (ℕ × ℕ)) → SentBelow n s → SentBelow n (remove_sent id s)
unfolding remove_sent
SentBelow-remove_sent n id [] h = tt
SentBelow-remove_sent n id ((j, a) ∷ s) (k, h) = ground (arith, SentBelow-remove_sent n id s)

unfoldable pub insert_callback : ℕ → Option ℕ → List (ℕ × ℕ) → List (ℕ × ℕ)
insert_callback id none s = s
insert_callback id (some b) s = insert_sent id b s

-- What `send_all` adds to the callbacks and to the log.
unfoldable pub insert_all : List Command → List (ℕ × ℕ) → List (ℕ × ℕ)
insert_all [] s = s
insert_all (q ∷ qs) s = insert_all qs (insert_callback q.id q.callback s)

unfoldable pub write_all : List Command → List Output → List Output
write_all [] log = log
write_all (q ∷ qs) log = write_all qs (wrote q.id q.name q.arguments ∷ log)

pub send_all_lem :
    (qs : List Command) (c : Client)
    → send_all qs c ≡ record c { sent = insert_all qs c.sent; log = write_all qs c.log }
unfolding send_all insert_all write_all insert_callback
send_all_lem [] c = refl
send_all_lem (q ∷ qs) c =
    send_all_lem qs (send_queued q c) ∙ (unfold send_queued send in ground arith)

pub SentBelow-insert_callback :
    (n id : ℕ) (cb : Option ℕ) (s : List (ℕ × ℕ))
    → id < n
    → SentBelow n s
    → SentBelow n (insert_callback id cb s)
unfolding insert_callback
SentBelow-insert_callback n id none s l h = h
SentBelow-insert_callback n id (some b) s l h = SentBelow-insert_sent n id b s l h

pub SentBelow-insert_all :
    (lo n : ℕ) (qs : List Command) (s : List (ℕ × ℕ))
    → Increasing lo n qs
    → SentBelow n s
    → SentBelow n (insert_all qs s)
unfolding insert_all
SentBelow-insert_all lo n [] s i h = h
SentBelow-insert_all lo n (q ∷ qs) s (l, i) h =
    SentBelow-insert_all (suc q.id) n qs (insert_callback q.id q.callback s) i
      (SentBelow-insert_callback n q.id q.callback s (Increasing-le (suc q.id) n qs i) h)

pub remove_sent-nil : (id : ℕ) → remove_sent id [] ≡ []
unfolding remove_sent
remove_sent-nil id = refl
