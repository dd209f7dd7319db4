-- ===== src/Tests/Listing.antt =====
-- The channels reply of src/cpp/push/main.cpp, read by src/mfc/StreamClient.cpp, on concrete data.
use stream_monitor.Prelude.{◌≡◌, refl, [], ◌∷◌, ◌++◌, map, none, some, arith}
use stream_monitor.Prelude.Int.{pos, ◌-ℤ◌}
use stream_monitor.Framing.{Bytes}
use stream_monitor.Json.{Json, object, codes, bytes_eq, c_str}
use stream_monitor.Db.{Tables, sample_at}
use stream_monitor.Push.Conn.{id_member}
use stream_monitor.Push.Request.{type_member}
use stream_monitor.Push.Queries.{rows, totals, place_row, channels}
use stream_monitor.Client.{Wide, on_channels, is_int, handle_line}
use stream_monitor.Client.Listing.{listed_of, handle_line-channels}

abbrev convert : Bytes → Wide
convert s = s

abbrev tables : Tables
tables = record {
  samples = record { channel_id = codes "a1"; ts = 60; viewers = pos 5 } ∷ [];
  infos = [];
  channels =
      record { channel_id = codes "a1"; channel_name = codes "n"; first_seen = 0; last_seen = 60 }
      ∷ record { channel_id = codes "b2"; channel_name = codes "m"; first_seen = 0; last_seen = 0 }
      ∷ [];
}

abbrev reply_doc : Json
reply_doc = object ((type_member (codes "channels") ++ channels tables 130) ++ id_member none)

handle_line-channels_example :
    handle_line convert (λ _. some reply_doc) [] (codes "{}")
    ≡ on_channels (map (listed_of convert) (rows tables (pos 130 -ℤ pos 604800) tables.channels))
      ∷ []
unfolding rows totals place_row bytes_eq sample_at is_int ◌-ℤ◌ c_str
handle_line-channels_example =
    handle_line-channels convert (λ _. some reply_doc) tables 130 none (codes "{}") []
      (record { has_id = ground arith; count = refl; peak = refl; current = refl }, tt) refl
