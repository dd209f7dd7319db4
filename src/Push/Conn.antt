-- ===== src/Push/Conn.antt =====
-- src/cpp/push/main.cpp: struct Conn, `send_json`, `send_error`, `flush` and the receive loop of
-- `on_conn`. The kernel's answers to `recv` and `send` are arguments.
pub mod Flush
use stream_monitor.Prelude.{
  ℕ, zero, suc, ◌+◌, ◌*◌, Bool, true, false, List, [], ◌∷◌, ◌++◌, Option, none, some, ltb,
  if◌then◌else◌, length, take, drop,
}
use stream_monitor.Prelude.Int.{ℤ, pos}
use stream_monitor.Framing.{Bytes}
use stream_monitor.Json.{Json, int, str, object, codes}

abbrev pub proto_v : ℕ
proto_v = 1

abbrev pub max_line : ℕ
max_line = 64 * 1024

abbrev pub max_out_buf : ℕ
max_out_buf = 4 * 1024 * 1024

abbrev pub hello_timeout : ℕ
hello_timeout = 60

abbrev pub ping_interval : ℕ
ping_interval = 30

abbrev pub max_range : ℕ
max_range = 30 * 86400

-- `in` is `in_buf` here. `want_out` is the EPOLLOUT bit of the descriptor's registration in `ep_`,
-- which `mod` sets; `add` registers a new connection without it. A clock is in whole seconds.
pub record Conn : Type 0 where
  pub fd : ℕ
  pub peer : Bytes
  pub in_buf : Bytes
  pub out : Bytes
  pub opened_at : ℕ
  pub last_ping : ℕ
  pub hello : Bool
  pub want_out : Bool

-- One document and its newline go to the end of `out`. `write` is rapidjson's writer.
abbrev pub append_json : (Json → Bytes) → Conn → Json → Conn
append_json write c j = record c { out = c.out ++ (write j ++ b'\n' ∷ []) }

-- `if (id) { w.Key("id"); w.String(id); }`
abbrev pub id_member : Option Bytes → List (Bytes × Json)
id_member none = []
id_member (some id) = (codes "id", str id) ∷ []

unfoldable pub send_json : (Json → Bytes) → Conn → List (Bytes × Json) → Option Bytes → Conn
send_json write c body id = append_json write c (object (body ++ id_member id))

unfoldable pub error_body : Bytes → Bytes → List (Bytes × Json)
error_body code message =
    (codes "type", str (codes "error"))
    ∷ (codes "code", str code)
    ∷ (codes "message", str message)
    ∷ []

unfoldable pub send_error : (Json → Bytes) → Conn → Option Bytes → Bytes → Bytes → Conn
unfolding send_json error_body
send_error write c id code message = send_json write c (error_body code message) id

-- How a run of `send` calls ends: EAGAIN, or an error or 0.
pub data SendEnd : Type 0 where
  again failed : SendEnd

-- The sizes that successive calls accept before that.
pub record Outbound : Type 0 where
  pub sizes : List ℕ
  pub ending : SendEnd

-- `alive` is the result of `flush`; `sent` is what went to the peer.
pub record Flushed : Type 0 where
  pub conn : Conn
  pub sent : Bytes
  pub alive : Bool

abbrev pub flush_blocked : SendEnd → Conn → Flushed
flush_blocked failed c = record { conn = c; sent = []; alive = false }
flush_blocked again c =
    if ltb max_out_buf (length c.out)
    then record { conn = c; sent = []; alive = false }
    else record { conn = record c { want_out = true }; sent = []; alive = true }

abbrev pub flush_done : Conn → Flushed
flush_done c = record { conn = record c { want_out = false }; sent = []; alive = true }

-- `n` bytes of `out` went to the peer, and then what `f` says.
abbrev pub after_send : ℕ → Conn → Flushed → Flushed
after_send n c f = record f { sent = take n c.out ++ f.sent }

unfoldable pub flush_loop : List ℕ → SendEnd → Conn → Flushed
flush_loop [] e c = elim c.out [ [] ↦ flush_done c | _ ∷ _ ↦ flush_blocked e c ]
flush_loop (n ∷ ns) e c = elim c.out [
  | [] ↦ flush_done c
  | _ ∷ _ ↦ elim n [
    | zero ↦ record { conn = c; sent = []; alive = false }
    | suc m ↦ after_send (suc m) c (flush_loop ns e (record c { out = drop (suc m) c.out }))
  ]
]

unfoldable pub flush : Outbound → Conn → Flushed
unfolding flush_loop
flush o c = flush_loop o.sizes o.ending c

-- How a run of `recv` calls ends: EAGAIN, 0, or another error.
pub data RecvEnd : Type 0 where
  drained closed broken : RecvEnd

pub record Inbound : Type 0 where
  pub chunks : List Bytes
  pub ending : RecvEnd

-- The reasons that `close_conn` logs.
pub data Why : Type 0 where
  hup line_too_long peer_closed recv_failed send_failed timeout : Why

pub data Received : Type 0 where
  buffer : Bytes → Received
  dropped : Why → Received

abbrev received_end : RecvEnd → Bytes → Received
received_end drained buf = buffer buf
received_end closed buf = dropped peer_closed
received_end broken buf = dropped recv_failed

-- The loop over `recv`: the input buffer, or the reason to close.
unfoldable pub recv_loop : List Bytes → RecvEnd → Bytes → Received
recv_loop [] e buf = received_end e buf
recv_loop (chunk ∷ chunks) e buf =
    if ltb max_line (length (buf ++ chunk))
    then dropped line_too_long
    else recv_loop chunks e (buf ++ chunk)
