-- ===== src/Push/Server.antt =====
-- src/cpp/push/main.cpp: class Server. The map `conns_` is a list in the order of its keys; epoll,
-- the sockets, the timer and the clock give the events that are its arguments, with one reading of the
-- clock for all lines of an event. Logging, socket
-- options and the construction of the listening socket are left out.
use mathlib.Core.Option
pub mod Invariant
pub mod Tick
pub mod Run
pub mod Stop
pub mod Total
use stream_monitor.Prelude.{
  ℕ, suc, ◌+◌, Bool, true, false, not, ◌&&◌, List, [], ◌∷◌, Option, none, some, ltb, leb, length,
  if◌then◌else◌,
}
use stream_monitor.Prelude.Maps.{find, insert, erase, update}
use stream_monitor.Framing.{Bytes, drain}
use stream_monitor.Json.{str, codes}
use stream_monitor.Push.Conn.{
  Conn, hello_timeout, ping_interval, send_json, Outbound, Flushed, flush, Inbound, Why, hup,
  send_failed, Received, buffer, dropped, recv_loop,
}
use stream_monitor.Push.Request.{Env, Queries, handle_line, type_member}

pub record Server : Type 0 where
  pub conns : List (ℕ × Conn)
  pub stop : Bool

-- ── on_conn ──
pub data Outcome : Type 0 where
  keep : Conn → Outcome
  close : Why → Outcome

abbrev pub flushed : Flushed → Outcome
flushed f = if f.alive then keep f.conn else close send_failed

-- The lines of the buffer, then `flush`.
abbrev after_lines : Outbound → Option (Conn × Bytes) → Option Outcome
after_lines o none = none
after_lines o (some (c, rest)) = some (flushed (flush o (record c { in_buf = rest })))

abbrev pub on_received : Env → ℕ → ℕ → Outbound → Conn → Received → Option Outcome
on_received env now clients o c (dropped why) = some (close why)
on_received env now clients o c (buffer buf) =
    after_lines o (drain (suc (length buf)) (handle_line env now clients) buf c)

-- The branch `events & EPOLLIN`.
unfoldable pub on_input : Env → ℕ → ℕ → Inbound → Outbound → Conn → Option Outcome
on_input env now clients i o c =
    on_received env now clients o c (recv_loop i.chunks i.ending c.in_buf)

-- One descriptor's epoll event with the kernel's answers: `first` to the flush after the input,
-- `second` to that of the EPOLLOUT branch.
pub record Ready : Type 0 where
  pub hung_up : Bool
  pub readable : Bool
  pub writable : Bool
  pub input : Inbound
  pub first : Outbound
  pub second : Outbound

-- The branch `events & EPOLLOUT`.
abbrev pub on_output : Ready → Option Outcome → Option Outcome
on_output e (some (keep c)) = some (if e.writable then flushed (flush e.second c) else keep c)
on_output e r = r

unfoldable pub on_conn : Env → ℕ → ℕ → Ready → Conn → Option Outcome
on_conn env now clients e c =
    if e.hung_up
    then some (close hup)
    else on_output e
        (if e.readable then on_input env now clients e.input e.first c else some (keep c))

abbrev pub settle : ℕ → Server → Outcome → Server
settle fd s (keep c) = record s { conns = update fd c s.conns }
settle fd s (close why) = record s { conns = erase fd s.conns }

-- ── accept_all ──
-- A descriptor that `accept4` returned, and the peer's name.
unfoldable pub accept_all : ℕ → List (ℕ × Bytes) → Server → Server
accept_all now [] s = s
accept_all now ((fd, peer) ∷ rest) s = accept_all now rest (record s {
  conns =
      insert fd
        (record {
          fd = fd;
          peer = peer;
          in_buf = [];
          out = [];
          opened_at = now;
          last_ping = now;
          hello = false;
          want_out = false;
        })
        s.conns;
})

-- ── on_tick ──
-- One round of the loop: the connection, and whether it goes to `drop`.
unfoldable pub tick_conn : Env → ℕ → Outbound → Conn → Conn × Bool
tick_conn env now o c =
    if not c.hello && ltb (c.opened_at + hello_timeout) now
    then (c, true)
    else if leb (c.last_ping + ping_interval) now
    then (let f =
          flush o (record (send_json env.write c (type_member (codes "ping")) none) {
            last_ping = now;
          }) in
        (f.conn, not f.alive))
    else (c, false)

abbrev note_drop : ℕ → Bool → List ℕ → List ℕ
note_drop fd true ds = fd ∷ ds
note_drop fd false ds = ds

-- The loop over `conns_`: the connections as it leaves them, and `drop`.
pub tick_loop : Env → ℕ → (ℕ → Outbound) → List (ℕ × Conn) → List (ℕ × Conn) × List ℕ
tick_loop env now sends [] = ([], [])
tick_loop env now sends ((fd, c) ∷ m) =
    let (c', gone) = tick_conn env now (sends fd) c in
    let (m', ds) = tick_loop env now sends m in ((fd, c') ∷ m', note_drop fd gone ds)

pub close_all : List ℕ → List (ℕ × Conn) → List (ℕ × Conn)
close_all [] m = m
close_all (fd ∷ ds) m = close_all ds (erase fd m)

pub on_tick : Env → ℕ → (ℕ → Outbound) → Server → Server
on_tick env now sends s =
    let (m, ds) = tick_loop env now sends s.conns in record s { conns = close_all ds m }

-- ── run ──
-- `ready` has the descriptor, the answers of the database while its event is handled, and what the
-- kernel answers.
pub data Event : Type 0 where
  accepted : List (ℕ × Bytes) → Event
  ticked : (ℕ → Outbound) → Event
  signalled : Event
  ready : ℕ → Queries → Ready → Event

-- The environment in an event: the database may have changed, or fail, since the one before.
abbrev pub asked : Env → Queries → Env
asked env q = record env { queries = q }

-- The body of the loop over `evs`, at the time `now`.
unfoldable pub handle_event : Env → ℕ → Event → Server → Option Server
handle_event env now (accepted fds) s = some (accept_all now fds s)
handle_event env now (ticked sends) s = some (on_tick env now sends s)
handle_event env now signalled s = some (record s { stop = true })
handle_event env now (ready fd q e) s = elim (find fd s.conns) [
  | none ↦ some s
  | some c ↦ Option.map (settle fd s) (on_conn (asked env q) now (length s.conns) e c)
]

-- The events of one `epoll_wait`: all are handled, also behind a signal.
unfoldable pub handle_events : Env → List (ℕ × Event) → Server → Option Server
handle_events env [] s = some s
handle_events env ((now, e) ∷ es) s = elim (handle_event env now e s) [
  | none ↦ none
  | some s' ↦ handle_events env es s'
]

-- What `epoll_wait` returns: events, EINTR, or another error, which throws.
pub data Wait : Type 0 where
  events : List (ℕ × Event) → Wait
  interrupted : Wait
  wait_failed : Wait

abbrev pub handle_wait : Env → Wait → Server → Option Server
handle_wait env (events es) s = handle_events env es s
handle_wait env interrupted s = some s
handle_wait env wait_failed s = none

-- `while (!stop_)`, over what the waits return; at the end of the list the loop still waits.
unfoldable pub run_loop : Env → List Wait → Server → Option Server
run_loop env [] s = some s
run_loop env (w ∷ ws) s = elim s.stop [
  | true ↦ some s
  | false ↦ elim (handle_wait env w s) [ none ↦ none | some s' ↦ run_loop env ws s' ]
]

abbrev pub say_bye : Env → Outbound → Conn → Flushed
say_bye env o c = flush o (send_json env.write c (type_member (codes "bye")) none)

-- The loop behind it; the results of `flush` are not read.
pub shutdown : Env → (ℕ → Outbound) → List (ℕ × Conn) → List (ℕ × Flushed)
shutdown env sends [] = []
shutdown env sends ((fd, c) ∷ m) = (fd, say_bye env (sends fd) c) ∷ shutdown env sends m
