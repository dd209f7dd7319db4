-- ===== src/Client.antt =====
-- src/mfc/StreamClient.cpp: the client's side of the protocol. rapidjson's parser and the
-- conversion `utf8_to_wide` (MultiByteToWideChar) are parameters; sockets are their results.
pub mod Decode
pub mod Listing
pub mod Wire
pub mod Session
pub mod Resources
use stream_monitor.Prelude.{
  ℕ, ◌+◌, ◌-◌, ◌%◌, ◌^◌, Bool, true, false, ◌&&◌, List, [], ◌∷◌, ◌++◌, Option, none, some, ltb, leb,
  if◌then◌else◌,
}
use stream_monitor.Prelude.Int.{ℤ, pos, negsuc, leb_ℤ}
use stream_monitor.Framing.{Bytes}
use stream_monitor.Json.{
  Json, null, bool, int, num, str, arr, obj, Items, nil, cons, Members, codes, bytes_eq, c_str,
  find_member, json_str,
}

-- A std::wstring, as its code units.
abbrev pub Wide : Type 0
Wide = List ℕ

-- struct Channel, Point, Info and Samples of StreamClient.h.
pub record Listed : Type 0 where
  pub id : Wide
  pub name : Wide
  pub first_seen : ℤ
  pub last_seen : ℤ
  pub samples : ℤ
  pub peak : ℤ
  pub current : ℤ

pub record Point : Type 0 where
  pub ts : ℤ
  pub viewers : ℤ

pub record Title : Type 0 where
  pub ts : ℤ
  pub category : Wide
  pub title : Wide

pub record SampleSet : Type 0 where
  pub channel_id : Wide
  pub from : ℤ
  pub to : ℤ
  pub points : List Point
  pub info : List Title

-- The calls of the three handlers; a status line is told by what it reports.
pub data Call : Type 0 where
  on_channels : List Listed → Call
  on_samples : SampleSet → Call
  on_error : Wide → Call
  on_bye on_waiting on_connected on_lost : Call

-- `static_cast<int>` of a long long: the low 32 bits, in two's complement.
unfoldable pub low_bits : ℤ → ℕ
low_bits (pos n) = n % 4294967296
low_bits (negsuc n) = 4294967295 - n % 4294967296

unfoldable pub signed : ℕ → ℤ
signed m = if ltb m 2147483648 then pos m else negsuc (4294967295 - m)

unfoldable pub to_int : ℤ → ℤ
to_int n = signed (low_bits n)

-- rapidjson's IsInt.
unfoldable pub is_int : ℤ → Bool
is_int n = leb_ℤ (negsuc 2147483647) n && leb_ℤ n (pos 2147483647)

abbrev pub int_value : Option Json → ℤ
int_value (some (int n)) = n
int_value _ = pos 0

unfoldable pub json_i64 : Members → Bytes → ℤ
json_i64 ms k = int_value (find_member k ms)

-- `if (p.IsArray() && p.Size() >= 2 && p[0].IsInt64() && p[1].IsInt())`
unfoldable pub read_point : Json → List Point → List Point
read_point (arr (cons (int t) (cons (int v) _))) rest =
    if is_int v then record { ts = t; viewers = v } ∷ rest else rest
read_point _ rest = rest

unfoldable pub read_points : Items → List Point
read_points nil = []
read_points (cons p ps) = read_point p (read_points ps)

-- A member that is an array, and no elements otherwise.
abbrev pub elements : Option Json → Items
elements (some (arr xs)) = xs
elements _ = nil

module _ (convert : Bytes → Wide) where
  -- utf8_to_wide
  abbrev pub wide : Bytes → Wide
  wide [] = []
  wide (c ∷ cs) = convert (c ∷ cs)

  abbrev pub wide_value : Option Json → Wide
  wide_value (some (str s)) = wide (c_str s)
  wide_value _ = []

  unfoldable pub json_wstr : Members → Bytes → Wide
  json_wstr ms k = wide_value (find_member k ms)

  unfoldable pub listed : Members → Listed
  listed c = record {
    id = json_wstr c (codes "channel_id");
    name = json_wstr c (codes "channel_name");
    first_seen = json_i64 c (codes "first_seen");
    last_seen = json_i64 c (codes "last_seen");
    samples = to_int (json_i64 c (codes "samples"));
    peak = to_int (json_i64 c (codes "peak"));
    current = to_int (json_i64 c (codes "current"));
  }

  -- `if (!ch.id.empty()) out->push_back(std::move(ch));`
  unfoldable pub push_listed : Listed → Wide → List Listed → List Listed
  push_listed ch [] rest = rest
  push_listed ch (c ∷ cs) rest = ch ∷ rest

  unfoldable pub read_channels : Items → List Listed
  read_channels nil = []
  read_channels (cons (obj c) cs) = push_listed (listed c) (listed c).id (read_channels cs)
  read_channels (cons _ cs) = read_channels cs

  -- `if (p[i].IsString()) … = utf8_to_wide(p[i].GetString());`
  abbrev pub wide_or_empty : Json → Wide
  wide_or_empty v = wide_value (some v)

  unfoldable pub read_title : Json → List Title → List Title
  read_title (arr (cons (int t) (cons c (cons v _)))) rest =
      record { ts = t; category = wide_or_empty c; title = wide_or_empty v } ∷ rest
  read_title _ rest = rest

  unfoldable pub read_titles : Items → List Title
  read_titles nil = []
  read_titles (cons p ps) = read_title p (read_titles ps)

  unfoldable pub read_samples : Members → SampleSet
  read_samples ms = record {
    channel_id = json_wstr ms (codes "channel_id");
    from = json_i64 ms (codes "from");
    to = json_i64 ms (codes "to");
    points = read_points (elements (find_member (codes "points") ms));
    info = read_titles (elements (find_member (codes "info") ms));
  }

  -- The handler that a document calls; `none` where none is called.
  unfoldable pub handle_members : Members → Option Call
  handle_members ms =
      let type = json_str ms (codes "type") in
      if bytes_eq type (codes "ping")
      then none
      else if bytes_eq type (codes "hello")
      then none
      else if bytes_eq type (codes "channels")
      then some (on_channels (read_channels (elements (find_member (codes "channels") ms))))
      else if bytes_eq type (codes "samples")
      then some (on_samples (read_samples ms))
      else if bytes_eq type (codes "error")
      then some (on_error (json_wstr ms (codes "message")))
      else if bytes_eq type (codes "bye")
      then some on_bye
      else none

  abbrev pub handle_doc : Option Json → Option Call
  handle_doc (some (obj ms)) = handle_members ms
  handle_doc _ = none

  -- `add c calls`: the calls made so far, then `c`.
  abbrev pub add_call : List Call → Option Call → List Call
  add_call calls none = calls
  add_call calls (some c) = calls ++ (c ∷ [])

  unfoldable pub handle_line : (Bytes → Option Json) → List Call → Bytes → List Call
  handle_line parse calls line = add_call calls (handle_doc (parse (c_str line)))
