-- ===== src/Client/Wire.antt =====
-- src/mfc/StreamClient.cpp: `start`, `stop`, the requests and `send_line`. The mutexes and the
-- threads are not modelled: an operation runs to its end.
use stream_monitor.Prelude.{
  ℕ, zero, suc, ◌≡◌, ◌↔◌, refl, sym, ap, ◌∙◌, Bool, true, false, List, [], ◌∷◌, ◌++◌, Option, none,
  some, append_assoc, append-nil, arith, if◌then◌else◌, take, drop, take-append-drop,
}
use stream_monitor.Prelude.Int.{ℤ, pos, negsuc, ◌+ℤ◌}
use stream_monitor.Framing.{Bytes}
use stream_monitor.Json.{Json, int, str, object, codes, c_str}
use stream_monitor.Collector.Fetch.{to_string}
use stream_monitor.Client.{Wide, to_int}

-- What `send` returns: a size, or a value that is 0 or less.
pub data SendResult : Type 0 where
  accepted : ℕ → SendResult
  refused : SendResult

-- How a `send_line` call ends; `unanswered` where it waits in `send`.
pub data SendLine : Type 0 where
  sent not_sent unanswered : SendLine

-- `while (sent < payload.size()) { n = send(…); if (n <= 0) return false; sent += n; }`, where
-- `rest` is what stands behind `payload.data() + sent`; the bytes on the wire come with the result.
unfoldable pub send_loop : List SendResult → Bytes → Bytes → SendLine × Bytes
send_loop rs [] wire = (sent, wire)
send_loop [] (c ∷ cs) wire = (unanswered, wire)
send_loop (refused ∷ rs) (c ∷ cs) wire = (not_sent, wire)
send_loop (accepted zero ∷ rs) (c ∷ cs) wire = (not_sent, wire)
send_loop (accepted (suc n) ∷ rs) (c ∷ cs) wire =
    send_loop rs (drop n cs) (wire ++ take (suc n) (c ∷ cs))

-- The flags, the socket (`none` for ~0) as the bytes that it was given, and the next id.
pub record Client : Type 0 where
  pub running : Bool
  pub connected : Bool
  pub sock : Option Bytes
  pub next_id : ℤ

-- The end of a call on a socket that is open.
abbrev pub on_wire : Client → SendLine × Bytes → SendLine × Client
on_wire c (r, wire) = (r, record c { sock = some wire })

unfoldable pub send_line : List SendResult → Bytes → Client → SendLine × Client
send_line rs line c = elim c.sock [
  | none ↦ (not_sent, c)
  | some wire ↦ on_wire c (send_loop rs (line ++ (b'\n' ∷ [])) wire)
]

abbrev int_to_string : ℤ → Bytes
int_to_string (pos n) = to_string n
int_to_string (negsuc n) = b'-' ∷ to_string (suc n)

-- `next_id_++`, on an int that wraps around.
abbrev pub used_id : Client → Client
used_id c = record c { next_id = to_int (c.next_id +ℤ pos 1) }

unfoldable pub request_channels : List SendResult → Client → SendLine × Client
request_channels rs c =
    if c.connected
    then send_line rs
        (codes "{\"type\":\"channels\",\"id\":\"c" ++ int_to_string c.next_id ++ codes "\"}")
        (used_id c)
    else (not_sent, c)

-- `write` is rapidjson's writer and `utf8` is wide_to_utf8.
unfoldable pub samples_request : (Wide → Bytes) → ℤ → Wide → ℤ → ℤ → Json
samples_request utf8 id ch from to = object (
    (codes "type", str (codes "samples"))
    ∷ (codes "id", str (codes "q" ++ int_to_string id))
    ∷ (codes "channel_id", str (c_str (utf8 ch)))
    ∷ (codes "from", int from)
    ∷ (codes "to", int to)
    ∷ [])

unfoldable pub request_samples :
    (Json → Bytes) → (Wide → Bytes) → List SendResult → Wide → ℤ → ℤ → Client → SendLine × Client
request_samples write utf8 rs ch from to c =
    if c.connected
    then send_line rs (write (samples_request utf8 c.next_id ch from to)) (used_id c)
    else (not_sent, c)

-- The thread that `start` makes is `run` of Session.
unfoldable start : Client → Client
start c = record c { running = true }

unfoldable close_socket : Client → Client
close_socket c = record c { sock = none }

unfoldable stop : Client → Client
stop c = if c.running then close_socket (record c { running = false }) else c

-- What `send` calls did: a first part of the bytes went on the wire, and all where all are told sent.
abbrev pub Sends : Bytes → Bytes → SendLine × Bytes → Type 0
Sends rest wire out =
    (done : Bytes) × (left : Bytes) × (done ++ left ≡ rest)
    × (out.1 ≡ wire ++ done)
    × (out.0 ≡ sent ↔ left ≡ [])

send_loop-Sends :
    (rs : List SendResult) (rest wire : Bytes) → Sends rest wire (send_loop rs rest wire)
unfolding send_loop
send_loop-Sends rs [] wire = ([], [], refl, sym (append-nil wire), ground arith)
send_loop-Sends [] (c ∷ cs) wire = ([], c ∷ cs, refl, sym (append-nil wire), ground arith)
send_loop-Sends (refused ∷ rs) (c ∷ cs) wire =
    ([], c ∷ cs, refl, sym (append-nil wire), ground arith)
send_loop-Sends (accepted zero ∷ rs) (c ∷ cs) wire =
    ([], c ∷ cs, refl, sym (append-nil wire), ground arith)
send_loop-Sends (accepted (suc n) ∷ rs) (c ∷ cs) wire =
    let (done, left, e, w, s) = send_loop-Sends rs (drop n cs) (wire ++ (c ∷ take n cs)) in
    (
      (c ∷ take n cs) ++ done,
      left,
      append_assoc (c ∷ take n cs) done left
          ∙ ap (λ r. c ∷ (take n cs ++ r)) e
          ∙ ap (λ r. c ∷ r) (take-append-drop n cs),
      w ∙ append_assoc wire (c ∷ take n cs) done,
      s,
    )

-- On an open socket a call puts a first part of the line and its newline on the wire, and it
-- returns true exactly where all of it is there.
pub send_line-Sends :
    (rs : List SendResult) (line : Bytes) (c : Client) (wire : Bytes)
    → c.sock ≡ some wire
    → (done : Bytes) × (left : Bytes) × (done ++ left ≡ line ++ (b'\n' ∷ []))
      × ((send_line rs line c).1.sock ≡ some (wire ++ done))
      × ((send_line rs line c).0 ≡ sent ↔ left ≡ [])
unfolding send_line
send_line-Sends rs line c wire h =
    let (done, left, e, w, s) = send_loop-Sends rs (line ++ (b'\n' ∷ [])) wire in
    (done, left, e, rw (send_line, h) (ap some w), rw (send_line, h) s)
