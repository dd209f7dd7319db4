-- ===== src/Tests/Relay.antt =====
-- The relay of src/cpp/push/main.cpp on concrete data.
use mathlib.Core.Option
use mathlib.Core.Option.{none-ne-some}
use stream_monitor.Prelude.{
  ℕ, ◌<◌, ◌^◌, ◌≡◌, ◌≢◌, ◌⊎◌, refl, sym, true, false, List, [], ◌∷◌, ◌++◌, Option, none, some, map,
  arith, if◌then◌else◌, ◌&&◌,
}
use stream_monitor.Prelude.Int.{pos, leb_ℤ}
use stream_monitor.Prelude.Maps.{find, insert}
use stream_monitor.Framing.{Bytes, drain, frame, receive_all}
use stream_monitor.Framing.Split.{split}
use stream_monitor.Framing.Loop.{run_lines}
use stream_monitor.Framing.Segments.{receive_all-frame}
use stream_monitor.Json.{Json, int, str, object, fields, Members, codes, bytes_eq, find_member}
use stream_monitor.Db.{Tables, sample_at, info_at}
use stream_monitor.Push.Conn.{Conn, Outbound, again, drained, flush}
use stream_monitor.Push.Conn.Flush.{IsWatched, SameInput, flush-Flushes}
use stream_monitor.Push.Queries.{queries, points, info_rows}
use stream_monitor.Push.Queries.Titles.{info_at-info_rows}
use stream_monitor.Push.Queries.Points.{sample_at-points}
use stream_monitor.Push.Request.{Env, handle_line, window_from, window_to}
use stream_monitor.Push.Request.Window.{IsRead, IsWindow, IsLimited, window_to-IsWindow}
use stream_monitor.Push.Request.Answer.{answer}
use stream_monitor.Push.Request.Lines.{requests, drain-answered}
use stream_monitor.Push.Server.{
  Server, Event, Ready, Wait, ready, accepted, signalled, accept_all, handle_event, events,
  interrupted, run_loop, handle_events, on_tick,
}
use stream_monitor.Push.Server.Invariant.{Inv}
use stream_monitor.Push.Server.Tick.{Survives, Drops, on_tick_fate}
use stream_monitor.Push.Server.Run.{run_loop-Inv}
use stream_monitor.Push.Server.Total.{run_loop-ne-none}
use stream_monitor.Push.Server.Stop.{run_loop-signal}

abbrev ch : Bytes
ch = codes "a1"

abbrev tables : Tables
tables = record {
  samples =
      record { channel_id = codes "a1"; ts = 120; viewers = pos 7 }
      ∷ record { channel_id = codes "b2"; ts = 120; viewers = pos 9 }
      ∷ record { channel_id = codes "a1"; ts = 60; viewers = pos 5 }
      ∷ [];
  infos =
      record { channel_id = codes "a1"; ts = 0; category = some (codes "talk"); title = none }
      ∷ record { channel_id = codes "a1"; ts = 90; category = none; title = some (codes "x") }
      ∷ [];
  channels = [];
}

-- A parser that knows one request only.
abbrev parse_one : Bytes → Option Json
parse_one [] = none
parse_one (c ∷ cs) = some (object ((codes "type", str (codes "stats")) ∷ []))

abbrev env : Env
env = record {
  parse = parse_one;
  write = λ j. codes "{}";
  queries = queries tables;
  retain_days = pos 30;
}

abbrev conn : Conn
conn = record {
  fd = 5;
  peer = [];
  in_buf = [];
  out = codes "ab";
  opened_at = 100;
  last_ping = 100;
  hello = false;
  want_out = true;
}

-- The kernel takes one byte, then no more.
abbrev one_byte : Outbound
one_byte = record { sizes = 1 ∷ []; ending = again }

abbrev server : Server
server = record { conns = (5, conn) ∷ []; stop = false }

abbrev push_line : List Bytes → Bytes → Option (List Bytes)
push_line ls l = some (l ∷ ls)

-- The connection that `accept4` gave, at 110.
abbrev fresh : Conn
fresh = record {
  fd = 7;
  peer = [];
  in_buf = [];
  out = [];
  opened_at = 110;
  last_ping = 110;
  hello = false;
  want_out = false;
}

abbrev last_events : List (ℕ × Event)
last_events = (110, accepted ((7, []) ∷ [])) ∷ (111, signalled) ∷ []

abbrev stopped : Server
stopped = record { conns = (5, conn) ∷ (7, fresh) ∷ []; stop = true }

server-Inv : Inv server
server-Inv = record {
  ordered = (tt, tt);
  entries = (
    record {
      same_fd = refl;
      line = tt;
      line_bounded = omega arith;
      watched = record { bounded = omega arith; watched = λ _. refl };
    },
    tt,
  );
}

tables-IsLimited : IsLimited env.queries
tables-IsLimited = record {
  channels_ok = λ _ e. none-ne-some _ (sym e);
  stats_ok = λ e. none-ne-some _ (sym e);
  samples_ok = λ _ _ _ _ _ _ e. none-ne-some _ (sym e);
}

abbrev request : Members
request = fields ((codes "from", int (pos 60)) ∷ (codes "to", int (pos 120)) ∷ [])

receive_all-frame_example :
    receive_all push_line (codes "a" ∷ codes "b\nc" ∷ codes "\n" ∷ []) ([], [])
    ≡ Option.map (λ s. (s, [])) (run_lines push_line (codes "ab" ∷ codes "c" ∷ []) [])
unfolding frame
receive_all-frame_example =
    receive_all-frame push_line (codes "ab" ∷ codes "c" ∷ [])
      (codes "a" ∷ codes "b\nc" ∷ codes "\n" ∷ []) [] (ground arith) refl

run_loop-Inv_example : Inv stopped
unfolding run_loop handle_events handle_event accept_all insert
run_loop-Inv_example =
    run_loop-Inv env (interrupted ∷ events last_events ∷ []) server server-Inv refl

-- A request of the connection 5.
abbrev asking : Ready
asking = record {
  hung_up = false;
  readable = true;
  writable = false;
  input = record { chunks = codes "a\n" ∷ []; ending = drained };
  first = one_byte;
  second = one_byte;
}

abbrev asking_waits : List Wait
asking_waits = interrupted ∷ events ((110, ready 5 (queries tables) asking) ∷ []) ∷ []

run_loop-ne-none_example : run_loop env asking_waits server ≢ none
run_loop-ne-none_example =
    run_loop-ne-none env asking_waits server (tt, ((tables-IsLimited, tt), tt))
      ((λ e. cc), ((λ e. cc), tt))

drain-answered_example :
    (d : Conn) × (js : List Json) × (drain 5 (handle_line env 130 1) (codes "a\nb\n") conn
      ≡ some (d, (split (codes "a\nb\n")).1))
    × (map (answer env 130 1) (requests (split (codes "a\nb\n")).0) ≡ map some js)
    × (d.out ≡ conn.out ++ frame (map env.write js))
drain-answered_example = drain-answered env 130 1 (codes "a\nb\n") conn tables-IsLimited

on_tick_fate_example :
    ((d : Conn) × (find 5 (on_tick env 200 (λ _. one_byte) server).conns ≡ some d)
      × Survives env 200 (λ _. one_byte) 5 conn d)
    ⊎ ((find 5 (on_tick env 200 (λ _. one_byte) server).conns ≡ none)
        × Drops env 200 (λ _. one_byte) 5 conn)
unfolding find
on_tick_fate_example = on_tick_fate env 200 (λ _. one_byte) server 5 conn (tt, tt) refl

flush-Flushes_example :
    ((flush one_byte conn).sent ++ (flush one_byte conn).conn.out ≡ codes "ab")
    × SameInput conn (flush one_byte conn).conn
    × ((flush one_byte conn).alive ≡ true → IsWatched (flush one_byte conn).conn)
flush-Flushes_example = flush-Flushes one_byte conn

int-IsRead : (m : ℕ) → m < 2 ^ 63 → IsRead (some (int (pos m)))
int-IsRead m h n e = ground arith

window_to-IsWindow_example : IsWindow (window_to 130 request) (window_from 130 request)
unfolding find_member bytes_eq
window_to-IsWindow_example =
    window_to-IsWindow 130 request (omega arith) (int-IsRead 120 (omega arith))
      (int-IsRead 60 (omega arith))

run_loop-signal_example :
    run_loop env (events last_events ∷ interrupted ∷ []) server
    ≡ handle_events env last_events server
run_loop-signal_example = run_loop-signal env last_events (interrupted ∷ []) server refl tt

info_at-info_rows_example :
    info_at ch (pos 100) (info_rows ch (pos 60) (pos 120) tables.infos)
    ≡ info_at ch (pos 100) tables.infos
info_at-info_rows_example =
    info_at-info_rows tables.infos ch (pos 60) (pos 120) (pos 100) (omega arith) (omega arith)

sample_at-points_example : sample_at ch 120 (points ch (pos 60) (pos 120) tables.samples) ≡ (
    if leb_ℤ (pos 60) (pos 120) && leb_ℤ (pos 120) (pos 120)
    then sample_at ch 120 tables.samples
    else none)
sample_at-points_example = sample_at-points tables.samples ch (pos 60) (pos 120) 120
