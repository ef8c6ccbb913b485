-- ===== src/QmpClient/Reading.antt =====
-- The loop of QmpClient::Private::read.
use qemu_gui_manager.Prelude.{
  ℕ, zero, suc, ◌≤◌, ◌<◌, ◌≡◌, ap, ◌⊎◌, inl, inr, true, false, Option, none, some, [], ◌∷◌, ◌++◌,
  arith, Bool-cases, Option-cases, length, take, length-drop,
}
use qemu_gui_manager.Text.{Text, index_of, trimmed}
use qemu_gui_manager.QmpClient.{
  send, drop_socket, handshake, answer, greet, handle_answer, handle, read_lines, read, Message,
  Client,
}
use qemu_gui_manager.QmpClient.Steps.{send_all_lem}
use qemu_gui_manager.Prelude.{drop as list_drop}

length-handle : (m : Message) (c : Client) → length (handle m c).buffer ≤ length c.buffer
unfolding handle handle_answer handshake answer greet send drop_socket
length-handle m c = ground (
  arith,
  ap (λ (x : Client). x.buffer) (send_all_lem c.queued (record c { ready = true; queued = [] })),
)

index_of-bound : (ch : ℕ) (t : Text) (at : ℕ) → index_of ch t ≡ some at → at < length t
unfolding index_of
index_of-bound ch [] at h = cc
index_of-bound ch (a ∷ t) at h = elim (Option-cases (index_of ch t)) [
  | inl e ↦ ground arith
  | inr (i, e) ↦ ground (arith, index_of-bound ch t i e)
]

read_lines-ends :
    (fuel : ℕ) (from_json : Text → Option Message) (c : Client)
    → length c.buffer < fuel
    → (index_of b'\n' (read_lines fuel from_json c).buffer ≡ none)
      ⊎ ((read_lines fuel from_json c).socket ≡ false)
unfolding read_lines
read_lines-ends zero from_json c h = absurd (omega (arith, h))
read_lines-ends (suc fuel) from_json c h = elim (Option-cases (index_of b'\n' c.buffer)) [
  | inl e ↦ inl (rw (e, read_lines) e)
  | inr (at, e) ↦
      let rest = record c { buffer = list_drop (suc at) c.buffer } in
      let shorter : length rest.buffer < length c.buffer =
        omega (arith, length-drop (suc at) c.buffer, index_of-bound b'\n' c.buffer at e) in
      elim (Option-cases (from_json (trimmed (take at c.buffer)))) [
        | inl g ↦ rw (e, g, read_lines) (read_lines-ends fuel from_json rest (omega arith))
        | inr (m, g) ↦ elim (Bool-cases (handle m rest).socket) [
          | inr d ↦ rw (e, g, d, read_lines) (inr d)
          | inl d ↦
              rw (e, g, d, read_lines)
                (read_lines-ends fuel from_json (handle m rest)
                  (omega (arith, length-handle m rest)))
        ]
      ]
]

-- After `read`, no whole line is left in the buffer, unless a message ended the
-- connection: the fuel of the loop is enough.
pub read-ends :
    (from_json : Text → Option Message) (chunk : Text) (c : Client)
    → (index_of b'\n' (read from_json chunk c).buffer ≡ none)
      ⊎ ((read from_json chunk c).socket ≡ false)
unfolding read
read-ends from_json chunk c =
    read_lines-ends (suc (length (c.buffer ++ chunk))) from_json
      (record c { buffer = c.buffer ++ chunk }) (omega arith)
