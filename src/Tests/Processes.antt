-- ===== src/Tests/Processes.antt =====
-- The relay from its start to its end, and the rows of a channels query, on concrete data.
use stream_monitor.Prelude.{ℕ, ◌≡◌, refl, true, ◌++◌, Option, ◌&&◌, [], ◌∷◌, none, some}
use stream_monitor.Prelude.Int.{ℤ, pos}
use stream_monitor.Framing.{Bytes}
use stream_monitor.Json.{
  Json, str, object, codes, json_str, find_member, bytes_eq, c_str, string_or_empty,
}
use stream_monitor.Settings.{load_env}
use stream_monitor.Db.{Channel, Tables}
use stream_monitor.Handles.{is_there}
use stream_monitor.Push.Conn.{Conn, again, send_json}
use stream_monitor.Push.Queries.{rows, stats}
use stream_monitor.Push.Request.{handle_line, handle_object, handle_stats, request_id, reply}
use stream_monitor.Push.Protocol.Typed.{IsReply, handle_line-IsReply}
use stream_monitor.Push.Queries.Ranking.{IsListing, rows-IsListing}
use stream_monitor.Push.Server.{events, signalled}
use stream_monitor.Push.Start.{Outside, settings, is_started, is_waiting, loop_result, push_main}
use stream_monitor.Push.Start.Exit.{HasEnded, push_main-HasEnded}

abbrev channel : Bytes → ℕ → Channel
channel id last = record { channel_id = id; channel_name = id; first_seen = 0; last_seen = last }

abbrev tables : Tables
tables = record {
  samples =
      record { channel_id = codes "a"; ts = 60; viewers = pos 5 }
      ∷ record { channel_id = codes "b"; ts = 120; viewers = pos 9 }
      ∷ [];
  infos = [];
  channels = channel (codes "a") 60 ∷ channel (codes "b") 120 ∷ channel (codes "c") 0 ∷ [];
}

rows-IsListing_example :
    IsListing tables (pos 10) tables.channels (rows tables (pos 10) tables.channels)
rows-IsListing_example = rows-IsListing tables (pos 10) tables.channels

abbrev parse_stats : Bytes → Option Json
parse_stats line = some (object ((codes "type", str (codes "stats")) ∷ []))

abbrev write : Json → Bytes
write j = codes "{}"

abbrev conn : Conn
conn = record {
  fd = 5;
  peer = [];
  in_buf = [];
  out = codes "ab";
  opened_at = 100;
  last_ping = 100;
  hello = true;
  want_out = true;
}

handle_line-IsReply_example :
    (j : Json) × ((record conn { out = codes "ab{}\n" }).out ≡ conn.out ++ (write j ++ b'\n' ∷ []))
    × IsReply (codes "stats") j
unfolding handle_line handle_object handle_stats request_id reply stats send_json json_str
    find_member bytes_eq c_str string_or_empty
handle_line-IsReply_example =
    handle_line-IsReply parse_stats write tables (pos 30) 130 1 conn (codes "x")
      {d = record conn { out = codes "ab{}\n" }} refl

abbrev atol : Bytes → ℤ
atol v = pos 9003

abbrev env_file : Bytes
env_file = codes "SM_PUSH_PORT=9003\n"

-- ── the relay: the fourth statement cannot be prepared ──
abbrev relay : Outside
relay = record {
  parse = λ _. none;
  write = λ _. [];
  opened = λ _. record { is_ok = true; handle = some 1 };
  prepared = some 2 ∷ some 3 ∷ some 4 ∷ none ∷ [];
  kernel = record {
    socket = pos 3;
    bind = pos 0;
    listen = pos 0;
    epoll_create = pos 4;
    timer_create = pos 5;
    signal_create = pos 6;
  };
  waits = events ((100, signalled) ∷ []) ∷ [];
  sends = λ _. record { sizes = []; ending = again };
}

push_main-HasEnded_example :
    HasEnded
      (is_started relay (settings atol (load_env env_file []))
        && is_waiting (loop_result relay (settings atol (load_env env_file []))))
      (is_started relay (settings atol (load_env env_file []))
        && is_there (loop_result relay (settings atol (load_env env_file []))))
      (push_main atol env_file [] relay)
push_main-HasEnded_example = push_main-HasEnded atol env_file [] relay
