-- ===== src/Push/Session.antt =====
-- What the relay promises to one client, apart from buffers and sockets: the session of a
-- connection. Below, `Server::on_conn` with the bytes that its
-- calls of `send` hand over, and the same for the pings of `on_tick`.
pub mod Input
pub mod Refines
use mathlib.Core.Option
use stream_monitor.Prelude.{
  ℕ, suc, ◌+◌, leb, ltb, not, ◌&&◌, Bool, true, false, ◌||◌, List, [], ◌∷◌, ◌++◌, Option, none,
  some, if◌then◌else◌, map, length,
}
use stream_monitor.Prelude.Int.{ℤ, pos, ltb_ℤ, ◌-ℤ◌}
use stream_monitor.Framing.{Bytes, drain, frame}
use stream_monitor.Framing.Split.{split}
use stream_monitor.Json.{Json, codes}
use stream_monitor.Push.Conn.{
  Conn, Outbound, Flushed, flush, hup, Received, buffer, dropped, recv_loop, send_json,
  hello_timeout, ping_interval,
}
use stream_monitor.Push.Request.{Env, handle_line, type_member}
use stream_monitor.Push.Request.Answer.{answers, document}
use stream_monitor.Push.Server.{Outcome, keep, close, Ready, on_conn, flushed, tick_conn}

-- ── the session ──
-- The line that is not finished, all that the client is to get, and when it was pinged last.
pub record Session : Type 0 where
  pub unfinished : Bytes
  pub transcript : Bytes
  pub pinged : ℕ

abbrev pub say : Env → Session → Bytes → Option (List Json) → Option Session
say env s rest none = none
say env s rest (some js) =
    some (record s { unfinished = rest; transcript = s.transcript ++ frame (map env.write js) })

-- Bytes of the client arrive.
unfoldable pub listen : Env → ℕ → ℕ → Bytes → Session → Option Session
listen env now clients bytes s =
    let (lines, rest) = split (s.unfinished ++ bytes) in
    say env s rest (answers env now clients lines)

abbrev pub concat : List Bytes → Bytes
concat [] = []
concat (c ∷ cs) = c ++ concat cs

-- An event of the connection: what arrives is heard, and nothing else matters.
unfoldable pub hear : Env → ℕ → ℕ → Ready → Session → Option Session
hear env now clients e s =
    if e.readable then listen env now clients (concat e.input.chunks) s else some s

abbrev pub ping_doc : Json
ping_doc = document none (type_member (codes "ping"))

-- 30 seconds after the last ping the client is to get the next one.
unfoldable pub ping : Env → ℕ → Session → Session
ping env now s =
    if leb (s.pinged + 30) now
    then record s { transcript = s.transcript ++ frame (env.write ping_doc ∷ []); pinged = now }
    else s

-- What happens to a connection: an epoll event of its descriptor, with the number of clients, or a
-- tick of the timer; each at its time and with the answers that the database gives then.
pub data Moment : Type 0 where
  arrived : Env → ℕ → ℕ → Ready → Moment
  ticked : Env → ℕ → Outbound → Moment

abbrev pub hear_one : Moment → Session → Option Session
hear_one (arrived env now clients e) s = hear env now clients e s
hear_one (ticked env now o) s = some (ping env now s)

unfoldable pub hear_all : List Moment → Session → Option Session
hear_all [] s = some s
hear_all (m ∷ ms) s = elim (hear_one m s) [ none ↦ none | some s' ↦ hear_all ms s' ]

-- ── on_conn with the bytes that are sent ──
abbrev pub traced : Flushed → Outcome × Bytes
traced f = (flushed f, f.sent)

abbrev pub lines_traced : Outbound → Option (Conn × Bytes) → Option (Outcome × Bytes)
lines_traced o none = none
lines_traced o (some (c, rest)) = some (traced (flush o (record c { in_buf = rest })))

abbrev pub received_traced : Env → ℕ → ℕ → Outbound → Conn → Received → Option (Outcome × Bytes)
received_traced env now clients o c (dropped why) = some (close why, [])
received_traced env now clients o c (buffer buf) =
    lines_traced o (drain (suc (length buf)) (handle_line env now clients) buf c)

abbrev pub behind : Bytes → Outcome × Bytes → Outcome × Bytes
behind sent (o, more) = (o, sent ++ more)

abbrev pub output_traced : Ready → Option (Outcome × Bytes) → Option (Outcome × Bytes)
output_traced e (some (keep c, sent)) =
    some (if e.writable then behind sent (traced (flush e.second c)) else (keep c, sent))
output_traced e r = r

unfoldable pub on_conn_traced : Env → ℕ → ℕ → Ready → Conn → Option (Outcome × Bytes)
on_conn_traced env now clients e c =
    if e.hung_up
    then some (close hup, [])
    else output_traced e (
        if e.readable
        then received_traced env now clients e.first c
            (recv_loop e.input.chunks e.input.ending c.in_buf)
        else some (keep c, []))

abbrev pub outcome_of : Outcome × Bytes → Outcome
outcome_of (o, sent) = o

abbrev pub sent_of : Option (Outcome × Bytes) → Bytes
sent_of none = []
sent_of (some (o, sent)) = sent

-- ── on_tick with the bytes that are sent ──
unfoldable pub tick_traced : Env → ℕ → Outbound → Conn → (Conn × Bool) × Bytes
tick_traced env now o c =
    if not c.hello && ltb (c.opened_at + hello_timeout) now
    then ((c, true), [])
    else if leb (c.last_ping + ping_interval) now
    then (let f =
          flush o (record (send_json env.write c (type_member (codes "ping")) none) {
            last_ping = now;
          }) in
        ((f.conn, not f.alive), f.sent))
    else ((c, false), [])

abbrev pub survivor : Conn × Bool → Option Conn
survivor (c, true) = none
survivor (c, false) = some c

abbrev pub kept : Option Outcome → Option Conn
kept none = none
kept (some (close why)) = none
kept (some (keep d)) = some d

-- The connection behind a moment, `none` where it is closed.
abbrev pub meet : Moment → Conn → Option Conn
meet (arrived env now clients e) c = kept (on_conn env now clients e c)
meet (ticked env now o) c = survivor (tick_conn env now o c)

-- The bytes that the client gets in it.
abbrev pub sent_in : Moment → Conn → Bytes
sent_in (arrived env now clients e) c = sent_of (on_conn_traced env now clients e c)
sent_in (ticked env now o) c = (tick_traced env now o c).1

-- A connection over some moments, with all that its client was sent; `none` where it is closed.
unfoldable pub serve : List Moment → Bytes × Conn → Option (Bytes × Conn)
serve [] p = some p
serve (m ∷ ms) (sent, c) = elim (meet m c) [
  | none ↦ none
  | some d ↦ serve ms (sent ++ sent_in m c, d)
]
