-- ===== src/Push/Request.antt =====
-- src/cpp/push/main.cpp: `Server::handle_line`, which answers one request line into `out`.
pub mod Reply
pub mod Answer
pub mod Window
pub mod Lines
use stream_monitor.Prelude.{
  ℕ, ◌+◌, Bool, true, false, ◌||◌, List, [], ◌∷◌, ◌++◌, Option, none, some, if◌then◌else◌,
}
use stream_monitor.Prelude.Int.{ℤ, pos, negsuc, ◌-ℤ◌, ltb_ℤ}
use stream_monitor.Framing.{Bytes}
use stream_monitor.Json.{
  Json, null, bool, int, num, str, arr, obj, Members, codes, utf8, bytes_eq, c_str, find_member,
  json_str,
}
use stream_monitor.Push.Conn.{Conn, proto_v, max_range, send_json, send_error}

-- What class Queries offers: the members that each call writes into the open object, or `none`
-- where a statement throws DbError. Push/Queries implements it.
pub record Queries : Type 0 where
  pub channels : ℕ → Option (List (Bytes × Json))
  pub samples : Bytes → ℤ → ℤ → Option (List (Bytes × Json))
  pub stats : Option (List (Bytes × Json))

-- rapidjson's parser and writer, the queries, and the option SM_RETAIN_DAYS.
pub record Env : Type 0 where
  pub parse : Bytes → Option Json
  pub write : Json → Bytes
  pub queries : Queries
  pub retain_days : ℤ

-- `doc.HasMember("id") && doc["id"].IsString() ? doc["id"].GetString() : nullptr`
abbrev string_value : Option Json → Option Bytes
string_value (some (str s)) = some (c_str s)
string_value _ = none

unfoldable pub request_id : Members → Option Bytes
request_id ms = string_value (find_member (codes "id") ms)

-- `it->value.IsInt64() && it->value.GetInt64() > 0 ? it->value.GetInt64() : def`
abbrev pub positive_or : ℤ → Option Json → ℤ
positive_or def (some (int n)) = if ltb_ℤ (pos 0) n then n else def
positive_or def _ = def

-- The window that a request asks for; without `from` it is the day before `to`.
unfoldable pub window_to : ℕ → Members → ℤ
window_to now ms = positive_or (pos now) (find_member (codes "to") ms)

unfoldable pub window_from : ℕ → Members → ℤ
window_from now ms = positive_or (window_to now ms -ℤ pos 86400) (find_member (codes "from") ms)

-- A member `channel_id` that is a string of length above 0, as the C string that is used of it.
abbrev pub nonempty_string : Option Json → Option Bytes
nonempty_string (some (str [])) = none
nonempty_string (some (str (c ∷ cs))) = some (c_str (c ∷ cs))
nonempty_string _ = none

unfoldable pub channel_arg : Members → Option Bytes
channel_arg ms = nonempty_string (find_member (codes "channel_id") ms)

-- `send_json` with a body that a query writes: an exception leaves no reply.
unfoldable pub reply :
    (Json → Bytes)
    → Conn
    → List (Bytes × Json)
    → Option (List (Bytes × Json))
    → Option Bytes
    → Option Conn
reply write c head none id = none
reply write c head (some rows) id = some (send_json write c (head ++ rows) id)

abbrev pub type_member : Bytes → List (Bytes × Json)
type_member t = (codes "type", str t) ∷ []

pub handle_hello : Env → ℕ → Conn → Option Bytes → Conn
handle_hello env now c id =
    send_json env.write (record c { hello = true })
      (type_member (codes "hello")
        ++ ((codes "v", int (pos proto_v))
            ∷ (codes "now", int (pos now))
            ∷ (codes "retain_days", int env.retain_days)
            ∷ []))
      id

unfoldable pub handle_samples : Env → ℕ → Conn → Option Bytes → Members → Option Conn
handle_samples env now c id ms = elim (channel_arg ms) [
  | none ↦ some (send_error env.write c id (codes "bad_arg") (utf8 "channel_id 필요"))
  | some ch ↦
      let from = window_from now ms in
      let to = window_to now ms in
      if ltb_ℤ to from || ltb_ℤ (pos max_range) (to -ℤ from)
      then some (send_error env.write c id (codes "bad_arg") (utf8 "구간은 0~30일"))
      else reply env.write c (type_member (codes "samples")) (env.queries.samples ch from to) id
]

-- `clients` is `conns_.size()`.
unfoldable pub handle_stats : Env → ℕ → Conn → Option Bytes → Option Conn
handle_stats env clients c id =
    reply env.write c (type_member (codes "stats") ++ (codes "clients", int (pos clients)) ∷ [])
      env.queries.stats id

-- A request that is a JSON object, by its type.
unfoldable pub handle_object : Env → ℕ → ℕ → Conn → Members → Option Conn
handle_object env now clients c ms =
    let type = json_str ms (codes "type") in
    let id = request_id ms in
    if bytes_eq type (codes "hello")
    then some (handle_hello env now c id)
    else if bytes_eq type (codes "channels")
    then reply env.write c (type_member (codes "channels")) (env.queries.channels now) id
    else if bytes_eq type (codes "samples")
    then handle_samples env now c id ms
    else if bytes_eq type (codes "stats")
    then handle_stats env clients c id
    else some (send_error env.write c id (codes "unknown_type") (codes "type=" ++ type))

abbrev pub bad_json : Env → Conn → Conn
bad_json env c = send_error env.write c none (codes "bad_json") (utf8 "JSON 객체가 아님")

abbrev pub handle_doc : Env → ℕ → ℕ → Conn → Option Json → Option Conn
handle_doc env now clients c (some (obj ms)) = handle_object env now clients c ms
handle_doc env now clients c _ = some (bad_json env c)

-- `none` where a query throws, which ends the process. The parser reads the line as a C string.
unfoldable pub handle_line : Env → ℕ → ℕ → Conn → Bytes → Option Conn
handle_line env now clients c line = handle_doc env now clients c (env.parse (c_str line))
