-- ===== src/Tests/Sessions.antt =====
-- A connection of the relay on concrete events: a request arrives in two pieces, its answer leaves in
-- two as well.
use stream_monitor.Prelude.{ℕ, ◌≡◌, refl, true, false, List, [], ◌∷◌, none, some}
use stream_monitor.Prelude.Int.{pos}
use stream_monitor.Framing.{Bytes, on_line, drain, next_line}
use stream_monitor.Json.{codes}
use stream_monitor.Db.{Tables}
use stream_monitor.Push.Conn.{
  Conn, again, drained, Outbound, recv_loop, flush, flush_loop, send_error, send_json,
}
use stream_monitor.Push.Queries.{queries}
use stream_monitor.Push.Request.{Env, handle_line}
use stream_monitor.Push.Server.{Ready, on_conn, on_input, tick_conn}
use stream_monitor.Push.Session.{
  Session, Moment, arrived, ticked, tick_traced, serve, hear_all, on_conn_traced,
}
use stream_monitor.Push.Session.Input.{Shows}
use stream_monitor.Push.Session.Refines.{serve-Shows}

abbrev no_tables : Tables
no_tables = record { samples = []; infos = []; channels = [] }

-- A parser that knows no document.
abbrev env : Env
env = record {
  parse = λ s. none;
  write = λ j. codes "{}";
  queries = queries no_tables;
  retain_days = pos 30;
}

abbrev accepted : Conn
accepted = record {
  fd = 5;
  peer = [];
  in_buf = [];
  out = [];
  opened_at = 100;
  last_ping = 100;
  hello = true;
  want_out = false;
}

abbrev sends : List ℕ → Outbound
sends ns = record { sizes = ns; ending = again }

abbrev arrives : List Bytes → List ℕ → Ready
arrives cs ns = record {
  hung_up = false;
  readable = true;
  writable = false;
  input = record { chunks = cs; ending = drained };
  first = sends ns;
  second = sends [];
}

abbrev moments : List Moment
moments =
    arrived env 100 1 (arrives (codes "s" ∷ []) [])
    ∷ ticked env 129 (sends [])
    ∷ arrived env 129 1 (arrives (codes "t\nu" ∷ []) [])
    ∷ ticked env 130 (sends (1 ∷ []))
    ∷ []

abbrev before : Session
before = record { unfinished = []; transcript = []; pinged = 100 }

abbrev left : Conn
left = record accepted {
  in_buf = codes "u";
  out = codes "}\n{}\n";
  want_out = true;
  last_ping = 130;
}

served : serve moments ([], accepted) ≡ some (codes "{", left)
unfolding next_line serve tick_traced tick_conn on_conn on_input on_conn_traced recv_loop drain
    on_line handle_line send_error send_json flush flush_loop
served = refl

serve-Shows_example : (t : Session) × (hear_all moments before ≡ some t) × Shows t (codes "{", left)
serve-Shows_example = serve-Shows moments [] accepted before (refl, refl, refl) served
