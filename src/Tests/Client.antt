-- ===== src/Tests/Client.antt =====
-- The QMP client: concrete conversations.
use qemu_gui_manager.Prelude.{
  ℕ, ◌+◌, ◌≡◌, refl, ◌⊎◌, true, false, Option, none, some, List, [], ◌∷◌, ◌==◌, if◌then◌else◌,
}
use qemu_gui_manager.Text.{Text, codes, index_of, trimmed}
use qemu_gui_manager.QmpClient.{
  initial, connect_to_socket, socket_connected, disconnect_from_socket, execute, read, Message,
  Client,
}
use qemu_gui_manager.QmpClient.Steps.{run, Input, connect, socket_up, arrived, call, IsValid}
use qemu_gui_manager.QmpClient.Invariant.{initial-IsValid, run-IsValid}
use qemu_gui_manager.QmpClient.Callbacks.{in_log, total}
use qemu_gui_manager.QmpClient.Once.{given, total-run, disconnect-calls_all}
use qemu_gui_manager.QmpClient.Reading.{read-ends}

abbrev greeting_message : Message
greeting_message = record { greeting = true; event = none; result = none; fault = none; id = none }

abbrev empty_result : Option ℕ → Message
empty_result id = record {
  greeting = false;
  event = none;
  result = some (codes "{}");
  fault = none;
  id = id;
}

-- A line that starts with `Q` is the greeting, one that starts with `A` answers with the id 2.
from_json : Text → Option Message
from_json [] = none
from_json (c ∷ cs) =
    if c == b'Q'
    then some greeting_message
    else if c == b'A'
    then some (empty_result (some 2))
    else none

abbrev inputs : List Input
inputs =
    call (codes "query-status") [] (some 7)
    ∷ connect
    ∷ socket_up
    ∷ arrived (codes "QMP\n")
    ∷ arrived (codes "A\n")
    ∷ call (codes "quit") [] (some 7)
    ∷ []

-- The queued command follows the answer to qmp_capabilities, and keeps its own id.
becomes_ready : (run from_json inputs initial).sent ≡ (1, 7) ∷ (3, 7) ∷ []
unfolding run from_json execute connect_to_socket socket_connected trimmed
becomes_ready = refl

run-IsValid_example : IsValid (run from_json inputs initial)
run-IsValid_example = run-IsValid from_json inputs initial initial-IsValid

total-run_example : total 7 (run from_json inputs initial) ≡ total 7 initial + given 7 inputs
total-run_example = total-run 7 from_json inputs initial initial-IsValid

disconnect-calls_all_example :
    in_log 7 (disconnect_from_socket (run from_json inputs initial)).log ≡ given 7 inputs
disconnect-calls_all_example = disconnect-calls_all 7 from_json inputs

-- A client with a socket that waits for the greeting.
abbrev linked : Client
linked = record initial { socket = true; connected = true }

read-ends_example :
    (index_of b'\n' (read from_json (codes "QMP\nA\nrest") linked).buffer ≡ none)
    ⊎ ((read from_json (codes "QMP\nA\nrest") linked).socket ≡ false)
read-ends_example = read-ends from_json (codes "QMP\nA\nrest") linked

abbrev waiting : Client
waiting = record initial { socket = true; connected = true; capabilities_id = some 2 }
