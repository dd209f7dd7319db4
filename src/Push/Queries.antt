-- ===== src/Push/Queries.antt =====
-- src/cpp/push/main.cpp: class Queries, the four SELECT statements on monitor.db and the members
-- that are written from their rows. The tables are those of Db; ORDER BY is a stable sort.
pub mod Titles
pub mod Points
pub mod Ranking
use stream_monitor.Prelude.{
  ℕ, suc, ◌+◌, Bool, true, false, ◌&&◌, List, [], ◌∷◌, ◌++◌, map, Option, none, some, ltb, leb,
  ◌==◌, if◌then◌else◌, length,
}
use stream_monitor.Prelude.Int.{ℤ, pos, ◌-ℤ◌, ltb_ℤ, leb_ℤ}
use stream_monitor.Framing.{Bytes}
use stream_monitor.Json.{
  Json, null, int, str, arr, items, Members, obj, fields, codes, bytes_eq, c_str,
}
use stream_monitor.Db.{Sample, Info, Channel, Tables, info_at, sample_at}
use stream_monitor.Push.Request.{Queries}

-- ── SELECT ts, viewers … WHERE channel_id=? AND ts>=? AND ts<=? ORDER BY ts ──
unfoldable pub in_window : Bytes → ℤ → ℤ → Sample → Bool
in_window ch from to s = bytes_eq s.channel_id ch && (leb_ℤ from (pos s.ts) && leb_ℤ (pos s.ts) to)

unfoldable pub place_point : Sample → List Sample → List Sample
place_point r [] = r ∷ []
place_point r (s ∷ ss) = if leb r.ts s.ts then r ∷ s ∷ ss else s ∷ place_point r ss

unfoldable pub points : Bytes → ℤ → ℤ → List Sample → List Sample
points ch from to [] = []
points ch from to (s ∷ ss) =
    let rest = points ch from to ss in if in_window ch from to s then place_point s rest else rest

-- ── SELECT ts, category, title …: the row in force at `from`, then those up to `to` ──
pub between : Bytes → ℤ → ℤ → List Info → List Info
between ch from to [] = []
between ch from to (s ∷ ss) =
    let rest = between ch from to ss in
    if bytes_eq s.channel_id ch && (ltb_ℤ from (pos s.ts) && leb_ℤ (pos s.ts) to)
    then s ∷ rest
    else rest

abbrev pub option_list : Option Info → List Info
option_list none = []
option_list (some r) = r ∷ []

pub place_info : Info → List Info → List Info
place_info r [] = r ∷ []
place_info r (s ∷ ss) = if leb r.ts s.ts then r ∷ s ∷ ss else s ∷ place_info r ss

pub sort_infos : List Info → List Info
sort_infos [] = []
sort_infos (s ∷ ss) = place_info s (sort_infos ss)

pub info_rows : Bytes → ℤ → ℤ → List Info → List Info
info_rows ch from to t = sort_infos (option_list (info_at ch from t) ++ between ch from to t)

-- `if (col_null(i)) w.Null(); else w.String(col_str(i).c_str());`
abbrev pub text_json : Option Bytes → Json
text_json none = null
text_json (some s) = str (c_str s)

abbrev pub point_json : Sample → Json
point_json s = arr (items (int (pos s.ts) ∷ int s.viewers ∷ []))

abbrev pub info_json : Info → Json
info_json r = arr (items (int (pos r.ts) ∷ text_json r.category ∷ text_json r.title ∷ []))

unfoldable pub samples : Tables → Bytes → ℤ → ℤ → List (Bytes × Json)
samples t ch from to =
    (codes "channel_id", str (c_str ch))
    ∷ (codes "from", int from)
    ∷ (codes "to", int to)
    ∷ (codes "points", arr (items (map point_json (points ch from to t.samples))))
    ∷ (codes "info", arr (items (map info_json (info_rows ch from to t.infos))))
    ∷ []

-- ── SELECT COUNT(*), MIN(ts), MAX(ts), (SELECT COUNT(*) FROM channels) ──
pub oldest : List Sample → Option ℕ
oldest [] = none
oldest (s ∷ ss) = elim (oldest ss) [
  | none ↦ some s.ts
  | some t ↦ if leb s.ts t then some s.ts else some t
]

pub newest : List Sample → Option ℕ
newest [] = none
newest (s ∷ ss) = elim (newest ss) [
  | none ↦ some s.ts
  | some t ↦ if leb t s.ts then some s.ts else some t
]

abbrev pub time_json : Option ℕ → Json
time_json none = null
time_json (some t) = int (pos t)

unfoldable pub stats : Tables → List (Bytes × Json)
stats t =
    (codes "samples", int (pos (length t.samples)))
    ∷ (codes "oldest", time_json (oldest t.samples))
    ∷ (codes "newest", time_json (newest t.samples))
    ∷ (codes "channels", int (pos (length t.channels)))
    ∷ []

-- ── SELECT … FROM channels c JOIN viewer_samples s … GROUP BY … ORDER BY MAX DESC, last_seen DESC ──
-- COUNT(s.ts) and MAX(s.viewers) of the samples of `ch` from `since` on; `none` without one.
pub record Totals : Type 0 where
  pub count : ℕ
  pub peak : ℤ

abbrev pub add_total : Sample → Option Totals → Totals
add_total s none = record { count = 1; peak = s.viewers }
add_total s (some t) = record {
  count = suc t.count;
  peak = if leb_ℤ t.peak s.viewers then s.viewers else t.peak;
}

unfoldable pub totals : Bytes → ℤ → List Sample → Option Totals
totals ch since [] = none
totals ch since (s ∷ ss) =
    let rest = totals ch since ss in
    if bytes_eq s.channel_id ch && leb_ℤ since (pos s.ts) then some (add_total s rest) else rest

pub record Row : Type 0 where
  pub channel : Channel
  pub totals : Totals
  pub current : Option ℤ

-- What comes first under `ORDER BY MAX(s.viewers) DESC, c.last_seen_ts DESC`.
pub is_ahead : Row → Row → Bool
is_ahead a b =
    if ltb_ℤ a.totals.peak b.totals.peak
    then false
    else if ltb_ℤ b.totals.peak a.totals.peak
    then true
    else leb b.channel.last_seen a.channel.last_seen

unfoldable pub place_row : Row → List Row → List Row
place_row r [] = r ∷ []
place_row r (s ∷ ss) = if is_ahead r s then r ∷ s ∷ ss else s ∷ place_row r ss

abbrev pub row_of : Tables → Channel → Totals → Row
row_of t c n = record {
  channel = c;
  totals = n;
  current = sample_at c.channel_id c.last_seen t.samples;
}

abbrev pub with_row : Tables → Channel → Option Totals → List Row → List Row
with_row t c none rest = rest
with_row t c (some n) rest = place_row (row_of t c n) rest

unfoldable pub rows : Tables → ℤ → List Channel → List Row
rows t since [] = []
rows t since (c ∷ cs) = with_row t c (totals c.channel_id since t.samples) (rows t since cs)

-- `col_null(6) ? 0 : col_i64(6)`
abbrev pub or_zero : Option ℤ → ℤ
or_zero none = pos 0
or_zero (some n) = n

abbrev pub row_fields : Row → Members
row_fields r = fields (
    (codes "channel_id", str (c_str r.channel.channel_id))
    ∷ (codes "channel_name", str (c_str r.channel.channel_name))
    ∷ (codes "first_seen", int (pos r.channel.first_seen))
    ∷ (codes "last_seen", int (pos r.channel.last_seen))
    ∷ (codes "samples", int (pos r.totals.count))
    ∷ (codes "peak", int r.totals.peak)
    ∷ (codes "current", int (or_zero r.current))
    ∷ [])

abbrev pub row_json : Row → Json
row_json r = obj (row_fields r)

-- The last seven days.
unfoldable pub channels : Tables → ℕ → List (Bytes × Json)
channels t now =
    (codes "channels", arr (items (map row_json (rows t (pos now -ℤ pos 604800) t.channels)))) ∷ []

-- The queries on the tables `t`, where no statement fails.
abbrev pub queries : Tables → Queries
queries t = record {
  channels = λ now. some (channels t now);
  samples = λ ch from to. some (samples t ch from to);
  stats = some (stats t);
}
