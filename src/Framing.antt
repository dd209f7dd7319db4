-- ===== src/Framing.antt =====
-- The newline framing of src/cpp/push/main.cpp (`Server::on_conn`) and of src/mfc/StreamClient.cpp
-- (`StreamClient::run`): both loops take a line off the front of a buffer until no '\n' is left.
pub mod Split
pub mod Loop
pub mod Segments
use stream_monitor.Prelude.{
  ℕ, zero, suc, List, [], ◌∷◌, ◌++◌, Option, none, some, ◌==◌, if◌then◌else◌, length,
}

abbrev pub Bytes : Type 0
Bytes = List ℕ

-- `p = in.find('\n')`; `in.substr(0, p)` with what `in.erase(0, p + 1)` leaves.
unfoldable pub next_line : Bytes → Option (Bytes × Bytes)
next_line [] = none
next_line (c ∷ cs) =
    if c == b'\n'
    then some ([], cs)
    else elim (next_line cs) [ none ↦ none | some (l, r) ↦ some (c ∷ l, r) ]

-- `if (!line.empty()) handle_line(line)`. The handler gives `none` where it throws.
unfoldable pub on_line {ℓ} : {S : Type ℓ} → (S → Bytes → Option S) → Bytes → S → Option S
on_line handle [] s = some s
on_line handle (c ∷ l) s = handle s (c ∷ l)

-- The loop over the buffer, on fuel: the final state and the bytes of the unfinished line.
-- The handlers neither read nor write the buffer.
unfoldable pub drain {ℓ} :
    {S : Type ℓ} → ℕ → (S → Bytes → Option S) → Bytes → S → Option (S × Bytes)
drain zero handle buf s = none
drain (suc fuel) handle buf s = elim (next_line buf) [
  | none ↦ some (s, buf)
  | some (l, r) ↦ elim (on_line handle l s) [ none ↦ none | some s' ↦ drain fuel handle r s' ]
]

-- What a peer writes: each message, then '\n'.
unfoldable pub frame : List Bytes → Bytes
frame [] = []
frame (m ∷ ms) = m ++ (b'\n' ∷ frame ms)

-- `buf.append(chunk, n)` and the loop over the buffer.
pub receive {ℓ} : {S : Type ℓ} → (S → Bytes → Option S) → Bytes → S × Bytes → Option (S × Bytes)
receive handle chunk (s, buf) = drain (suc (length (buf ++ chunk))) handle (buf ++ chunk) s

-- What one connection's `recv` calls return, in turn.
unfoldable pub receive_all {ℓ} :
    {S : Type ℓ} → (S → Bytes → Option S) → List Bytes → S × Bytes → Option (S × Bytes)
receive_all handle [] p = some p
receive_all handle (c ∷ cs) p = elim (receive handle c p) [
  | none ↦ none
  | some p' ↦ receive_all handle cs p'
]
