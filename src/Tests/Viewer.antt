-- ===== src/Tests/Viewer.antt =====
-- The client of src/mfc on concrete data.
use stream_monitor.Prelude.{
  ◌≡◌, ◌↔◌, refl, true, false, List, [], ◌∷◌, ◌++◌, Option, none, some, arith,
}
use stream_monitor.Prelude.Int.{pos, ◌-ℤ◌}
use stream_monitor.Framing.{Bytes, frame}
use stream_monitor.Framing.Split.{split}
use stream_monitor.Json.{Json, Members, int, str, fields, codes, bytes_eq, c_str, find_member}
use stream_monitor.Db.{Tables}
use stream_monitor.Push.Conn.{Conn}
use stream_monitor.Push.Queries.{queries, points, in_window, place_point}
use stream_monitor.Push.Request.{Env, channel_arg, handle_samples, window_from, window_to}
use stream_monitor.Client.{Wide, Listed, Point, SampleSet, is_int, on_samples, handle_line}
use stream_monitor.Client.Decode.{samples_reply, served, shown, handle_line-handle_samples}
use stream_monitor.Client.Wire.{accepted, sent, Client, send_line, send_line-Sends}
use stream_monitor.Client.Session.{
  Recv, chunk, timed_out, ended, recv_loop, line_calls, received, recv_loop-received,
}
use stream_monitor.Dialog.{Dialog, view_of}
use stream_monitor.Dialog.View.{Views, view_of-IsRanked}
use stream_monitor.Dialog.Events.{
  Event, answered, clicked, mode_changed, ticked, handle_events, query, refresh,
}
use stream_monitor.Dialog.Multi.{Inv, handle_events-Inv}
use stream_monitor.Dialog.Week.{Covers, query-Covers}

abbrev convert : Bytes → Wide
convert s = s

abbrev client : Client
client = record { running = true; connected = true; sock = some (codes "a"); next_id = pos 2 }

abbrev arrivals : List Recv
arrivals = chunk (codes "a") ∷ timed_out ∷ chunk (codes "\nb") ∷ ended ∷ []

abbrev nothing_parsed : Bytes → Option Json
nothing_parsed s = none

abbrev channel : Listed
channel = record {
  id = codes "a1";
  name = codes "n";
  first_seen = pos 0;
  last_seen = pos 60;
  samples = pos 2;
  peak = pos 7;
  current = pos 5;
}

abbrev answer : SampleSet
answer = record {
  channel_id = codes "a1";
  from = pos 86400;
  to = pos 172800;
  points = [];
  info = [];
}

abbrev dialog : Dialog
dialog = record {
  channels = channel ∷ [];
  view = channel ∷ [];
  samples = none;
  samples_id = [];
  week0 = pos 0;
  multi_ids = [];
  multi = [];
  multi_prev = [];
  multi_from = pos 0;
  hover_idx = none;
  hover_multi = none;
}

abbrev asked_dialog : Dialog
asked_dialog = record dialog { samples_id = codes "a1" }

send_line-Sends_example :
    (done : Bytes) × (left : Bytes) × (done ++ left ≡ codes "bc" ++ (b'\n' ∷ []))
    × ((send_line (accepted 2 ∷ accepted 1 ∷ []) (codes "bc") client).1.sock
        ≡ some (codes "a" ++ done))
    × ((send_line (accepted 2 ∷ accepted 1 ∷ []) (codes "bc") client).0 ≡ sent ↔ left ≡ [])
send_line-Sends_example =
    send_line-Sends (accepted 2 ∷ accepted 1 ∷ []) (codes "bc") client (codes "a") refl

recv_loop-received_example : recv_loop convert nothing_parsed arrivals ([], []) ≡ (
  line_calls convert nothing_parsed (split (received convert nothing_parsed arrivals)).0 [],
  (split (received convert nothing_parsed arrivals)).1,
)
recv_loop-received_example = recv_loop-received convert nothing_parsed arrivals []

view_of-IsRanked_example : Views true 100 (channel ∷ []) (view_of true 100 (channel ∷ []))
view_of-IsRanked_example = view_of-IsRanked true 100 (channel ∷ [])

abbrev user_events : List Event
user_events =
    clicked true true true 172830 none
    ∷ answered answer
    ∷ mode_changed false true true 172831 none
    ∷ ticked true true 172890
    ∷ []

handle_events-Inv_example : Inv (handle_events user_events dialog)
handle_events-Inv_example =
    handle_events-Inv user_events dialog (record { multi_kept = tt; prev_kept = tt })

query-Covers_example :
    Covers channel.id 432000 (query true 432000 (some channel) asked_dialog)
    × Covers asked_dialog.samples_id 432000 (refresh false 432000 asked_dialog)
query-Covers_example = query-Covers 432000 channel asked_dialog (omega arith) refl

abbrev week_line : List Point
week_line = record { ts = pos 60; viewers = pos 5 } ∷ record { ts = pos 300; viewers = pos 7 } ∷ []

abbrev tables : Tables
tables = record {
  samples = record { channel_id = codes "a1"; ts = 60; viewers = pos 5 } ∷ [];
  infos = [];
  channels = [];
}

abbrev env : Env
env = record {
  parse = nothing_parsed;
  write = λ j. codes "{}";
  queries = queries tables;
  retain_days = pos 30;
}

abbrev request : Members
request = fields (
    (codes "channel_id", str (codes "a1"))
    ∷ (codes "from", int (pos 60))
    ∷ (codes "to", int (pos 120))
    ∷ [])

abbrev relay_conn : Conn
relay_conn = record {
  fd = 5;
  peer = [];
  in_buf = [];
  out = codes "ab";
  opened_at = 100;
  last_ping = 100;
  hello = true;
  want_out = true;
}

abbrev reply_doc : Json
reply_doc = samples_reply tables (codes "a1") (window_from 130 request) (window_to 130 request) none

handle_line-handle_samples_example :
    (d : Conn) × (handle_samples (served env tables) 130 relay_conn none request ≡ some d)
    × (d.out ≡ codes "ab" ++ frame (codes "{}" ∷ []))
    × (handle_line convert (λ _. some reply_doc) [] (codes "{}")
        ≡ on_samples
            (shown convert tables (codes "a1") (window_from 130 request) (window_to 130 request))
          ∷ [])
unfolding channel_arg window_from window_to find_member bytes_eq c_str points in_window place_point
    ◌-ℤ◌ is_int
handle_line-handle_samples_example =
    handle_line-handle_samples convert (λ _. some reply_doc) env tables 130 relay_conn none request
      (codes "a1") [] refl refl refl (refl, tt) refl
