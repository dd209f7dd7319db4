-- ===== src/Client/Decode.antt =====
-- The reply to a samples request, as the client decodes it.
use stream_monitor.Prelude.{
  ℕ, ◌≡◌, refl, ap, true, false, List, [], ◌∷◌, ◌++◌, map, Option, none, some, All,
}
use stream_monitor.Prelude.Int.{ℤ, pos, ltb_ℤ, ◌-ℤ◌}
use stream_monitor.Framing.{Bytes, frame}
use stream_monitor.Json.{
  Json, Members, items, fields, object, codes, bytes_eq, c_str, c_str_id, c_str-IsCStr, find_member,
  json_str, string_or_empty,
}
use stream_monitor.Db.{Sample, Info, Tables, col_str}
use stream_monitor.Push.Conn.{Conn, id_member, max_range, send_json}
use stream_monitor.Push.Request.{
  Env, type_member, channel_arg, window_from, window_to, reply, handle_samples,
}
use stream_monitor.Push.Queries.{
  points, info_rows, point_json, info_json, text_json, samples, queries,
}
use stream_monitor.Client.{
  Wide, Point, Title, SampleSet, Call, on_samples, is_int, wide, wide_or_empty, read_points,
  read_titles, read_title, read_point, read_samples, json_wstr, json_i64, handle_members,
  handle_line,
}

abbrev pub point_of : Sample → Point
point_of s = record { ts = pos s.ts; viewers = s.viewers }

abbrev pub HasInt : Sample → Type 0
HasInt s = is_int s.viewers ≡ true

read_points-points :
    (ss : List Sample) → All HasInt ss → read_points (items (map point_json ss)) ≡ map point_of ss
unfolding read_points read_point
read_points-points [] h = refl
read_points-points (s ∷ ss) h = rw h.0 (ap (λ ps. point_of s ∷ ps) (read_points-points ss h.1))

module _ (convert : Bytes → Wide) where
  abbrev pub title_of : Info → Title
  title_of r = record {
    ts = pos r.ts;
    category = wide convert (col_str r.category);
    title = wide convert (col_str r.title);
  }

  wide-text_json :
      (o : Option Bytes) → wide_or_empty convert (text_json o) ≡ wide convert (col_str o)
  unfolding col_str
  wide-text_json none = refl
  wide-text_json (some s) = ap (wide convert) (c_str_id (c_str s) (c_str-IsCStr s))

  read_titles-titles :
      (rs : List Info) → read_titles convert (items (map info_json rs)) ≡ map title_of rs
  unfolding read_titles read_title
  read_titles-titles [] = refl
  read_titles-titles (r ∷ rs) =
      rw (wide-text_json r.category, wide-text_json r.title, read_titles-titles rs)

  -- The samples of `ch` in a window, as the client holds them.
  abbrev pub shown : Tables → Bytes → ℤ → ℤ → SampleSet
  shown t ch from to = record {
    channel_id = wide convert (c_str ch);
    from = from;
    to = to;
    points = map point_of (points ch from to t.samples);
    info = map title_of (info_rows ch from to t.infos);
  }

  handle_members-samples :
      (t : Tables) (ch : Bytes) (from to : ℤ) (id : Option Bytes)
      → All HasInt (points ch from to t.samples)
      → handle_members convert
          (fields ((type_member (codes "samples") ++ samples t ch from to) ++ id_member id))
        ≡ some (on_samples (shown t ch from to))
  unfolding handle_members samples json_str find_member bytes_eq c_str read_samples json_wstr
      json_i64 string_or_empty
  handle_members-samples t ch from to id h =
      rw (c_str_id (c_str ch) (c_str-IsCStr ch), read_points-points _ h, read_titles-titles _)

-- The document that answers a samples request.
abbrev pub samples_reply : Tables → Bytes → ℤ → ℤ → Option Bytes → Json
samples_reply t ch from to id =
    object ((type_member (codes "samples") ++ samples t ch from to) ++ id_member id)

abbrev pub served : Env → Tables → Env
served env t = record env { queries = queries t }

-- A samples request for a channel and a window that the relay accepts puts one line behind the
-- output, and the client that reads this line calls `on_samples` with the rows of the tables: if
-- the viewers are 32-bit numbers and the client's parser reads back the document of the reply.
pub handle_line-handle_samples :
    (convert : Bytes → Wide) (parse : Bytes → Option Json) (env : Env) (t : Tables) (now : ℕ)
    (c : Conn) (id : Option Bytes) (ms : Members) (ch : Bytes) (calls : List Call)
    → let from = window_from now ms in
      let to = window_to now ms in
      let line = env.write (samples_reply t ch from to id) in
      channel_arg ms ≡ some ch
      → ltb_ℤ to from ≡ false
      → ltb_ℤ (pos max_range) (to -ℤ from) ≡ false
      → All HasInt (points ch from to t.samples)
      → parse (c_str line) ≡ some (samples_reply t ch from to id)
      → (d : Conn) × (handle_samples (served env t) now c id ms ≡ some d)
        × (d.out ≡ c.out ++ frame (line ∷ []))
        × (handle_line convert parse calls line
            ≡ calls ++ (on_samples (shown convert t ch from to) ∷ []))
unfolding handle_samples reply send_json frame handle_line
handle_line-handle_samples convert parse env t now c id ms ch calls a w l h p = (
  send_json env.write c
      (type_member (codes "samples") ++ samples t ch (window_from now ms) (window_to now ms)) id,
  rw (handle_samples, a, w, l),
  refl,
  rw (p, handle_members-samples convert t ch (window_from now ms) (window_to now ms) id h),
)
