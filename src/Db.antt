-- ===== src/Db.antt =====
-- monitor.db: the three tables of `kSchemaSql` in src/cpp/common/db.h, and the statements that the
-- programs prepare, as functions on the tables. SQLite executes them; what is modelled is the SQL
-- that the sources hold. A primary key (channel_id, ts) allows one row for each pair.
pub mod Session
pub mod Laws
pub mod Purge
use stream_monitor.Prelude.{
  ℕ, Bool, true, false, ◌&&◌, ◌||◌, not, List, [], ◌∷◌, ◌++◌, Option, none, some, ltb, leb, ◌==◌,
  if◌then◌else◌,
}
use stream_monitor.Prelude.Int.{ℤ, pos, ltb_ℤ, leb_ℤ}
use stream_monitor.Framing.{Bytes}
use stream_monitor.Json.{bytes_eq, c_str}

-- Times are seconds since 1970, never negative. `viewers` is a 64-bit number of the API.
pub record Sample : Type 0 where
  pub channel_id : Bytes
  pub ts : ℕ
  pub viewers : ℤ

-- NULL is `none`.
pub record Info : Type 0 where
  pub channel_id : Bytes
  pub ts : ℕ
  pub category : Option Bytes
  pub title : Option Bytes

pub record Channel : Type 0 where
  pub channel_id : Bytes
  pub channel_name : Bytes
  pub first_seen : ℕ
  pub last_seen : ℕ

pub record Tables : Type 0 where
  pub samples : List Sample
  pub infos : List Info
  pub channels : List Channel

-- A text column through `col_str`: a C string, empty for NULL.
unfoldable pub col_str : Option Bytes → Bytes
col_str none = []
col_str (some s) = c_str s

-- ── INSERT OR IGNORE INTO viewer_samples ──
pub insert_sample : Sample → List Sample → List Sample
insert_sample r [] = r ∷ []
insert_sample r (s ∷ ss) =
    if bytes_eq s.channel_id r.channel_id && s.ts == r.ts then s ∷ ss else s ∷ insert_sample r ss

-- ── INSERT INTO channels … ON CONFLICT(channel_id) DO UPDATE ──
pub upsert_channel : Channel → List Channel → List Channel
upsert_channel r [] = r ∷ []
upsert_channel r (c ∷ cs) =
    if bytes_eq c.channel_id r.channel_id
    then record c { channel_name = r.channel_name; last_seen = r.last_seen } ∷ cs
    else c ∷ upsert_channel r cs

-- ── INSERT OR IGNORE INTO stream_info ──
pub insert_info : Info → List Info → List Info
insert_info r [] = r ∷ []
insert_info r (s ∷ ss) =
    if bytes_eq s.channel_id r.channel_id && s.ts == r.ts then s ∷ ss else s ∷ insert_info r ss

-- The later of two rows.
abbrev pub later : Info → Option Info → Info
later s none = s
later s (some r) = if leb r.ts s.ts then s else r

-- ── SELECT … FROM stream_info WHERE channel_id=? ORDER BY ts DESC LIMIT 1 ──
unfoldable pub last_info : Bytes → List Info → Option Info
last_info ch [] = none
last_info ch (s ∷ ss) =
    if bytes_eq s.channel_id ch then some (later s (last_info ch ss)) else last_info ch ss

-- SELECT MAX(ts) FROM stream_info i WHERE i.channel_id = …, with `false` where there is no row.
abbrev pub before_last : ℕ → Option Info → Bool
before_last ts none = false
before_last ts (some r) = ltb ts r.ts

-- ── DELETE FROM viewer_samples WHERE ts < cutoff ──
pub purge_samples : ℤ → List Sample → List Sample
purge_samples cutoff [] = []
purge_samples cutoff (s ∷ ss) =
    if ltb_ℤ (pos s.ts) cutoff then purge_samples cutoff ss else s ∷ purge_samples cutoff ss

-- ── DELETE FROM stream_info WHERE ts < cutoff AND ts < (SELECT MAX(ts) … ) ──
-- The subquery reads the table as it was: `all`.
pub purge_infos : List Info → ℤ → List Info → List Info
purge_infos all cutoff [] = []
purge_infos all cutoff (s ∷ ss) =
    if ltb_ℤ (pos s.ts) cutoff && before_last s.ts (last_info s.channel_id all)
    then purge_infos all cutoff ss
    else s ∷ purge_infos all cutoff ss

-- The row of `ch` in force at `t`: the last one with ts ≤ t.
unfoldable pub info_at : Bytes → ℤ → List Info → Option Info
info_at ch t [] = none
info_at ch t (s ∷ ss) =
    if bytes_eq s.channel_id ch && leb_ℤ (pos s.ts) t
    then some (later s (info_at ch t ss))
    else info_at ch t ss

-- The viewers of a channel at a time.
unfoldable pub sample_at : Bytes → ℕ → List Sample → Option ℤ
sample_at ch ts [] = none
sample_at ch ts (s ∷ ss) =
    if bytes_eq s.channel_id ch && s.ts == ts then some s.viewers else sample_at ch ts ss

pub channel_row : Bytes → List Channel → Option Channel
channel_row ch [] = none
channel_row ch (c ∷ cs) = if bytes_eq c.channel_id ch then some c else channel_row ch cs
