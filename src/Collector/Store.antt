-- ===== src/Collector/Store.antt =====
-- src/cpp/collector/main.cpp: class Store, which writes monitor.db.
pub mod Atomic
pub mod Effect
pub mod Closed
pub mod Counted
use stream_monitor.Prelude.{
  ℕ, ◌+◌, ◌*◌, Bool, true, false, ◌&&◌, List, [], ◌∷◌, Option, none, some, if◌then◌else◌,
}
use stream_monitor.Prelude.Int.{ℤ, pos, ◌-ℤ◌, ◌*ℤ◌}
use stream_monitor.Json.{bytes_eq}
use stream_monitor.Db.{
  Sample, Info, Channel, Tables, col_str, insert_sample, upsert_channel, insert_info, last_info,
  purge_samples, purge_infos,
}
use stream_monitor.Db.Session.{
  Answer, Session, M, pure, ◌>>=◌, ◌>>◌, execute, begin_, commit, rollback,
}
use stream_monitor.Collector.Fetch.{Live}

abbrev pub sample_of : ℕ → Live → Sample
sample_of ts l = record { channel_id = l.channel_id; ts = ts; viewers = l.viewers }

abbrev pub channel_of : ℕ → Live → Channel
channel_of ts l = record {
  channel_id = l.channel_id;
  channel_name = l.channel_name;
  first_seen = ts;
  last_seen = ts;
}

abbrev pub info_of : ℕ → Live → Info
info_of ts l = record {
  channel_id = l.channel_id;
  ts = ts;
  category = some l.category;
  title = some l.title;
}

abbrev pub put_sample : ℕ → Live → Tables → Tables × Unit {0}
put_sample ts l t = (record t { samples = insert_sample (sample_of ts l) t.samples }, tt)

abbrev pub put_channel : ℕ → Live → Tables → Tables × Unit {0}
put_channel ts l t = (record t { channels = upsert_channel (channel_of ts l) t.channels }, tt)

abbrev pub put_info : ℕ → Live → Tables → Tables × Unit {0}
put_info ts l t = (record t { infos = insert_info (info_of ts l) t.infos }, tt)

abbrev pub read_last : Live → Tables → Tables × Option Info
read_last l t = (t, last_info l.channel_id t.infos)

-- Whether the last row has the category and the title of the live; `false` without a row.
unfoldable pub is_same : Live → Option Info → Bool
is_same l none = false
is_same l (some r) = bytes_eq (col_str r.category) l.category && bytes_eq (col_str r.title) l.title

abbrev pub note_change : ℕ → Live → ℕ → Bool → M ℕ
note_change ts l changed true = pure changed
note_change ts l changed false = do execute (put_info ts l); pure (changed + 1)

-- The loop over the lives, with the number of channels that changed so far.
pub record_lives : ℕ → List Live → ℕ → M ℕ
unfolding is_same
record_lives ts [] changed = pure changed
record_lives ts (l ∷ ls) changed = do
  execute (put_sample ts l)
  execute (put_channel ts l)
  row ← execute (read_last l)
  changed' ← note_change ts l changed (is_same l row)
  record_lives ts ls changed'

-- `catch (...) { db_.exec("ROLLBACK"); throw; }`
abbrev pub roll_back_on_throw : {A : Type 0} → Session × Option A → Session × Option A
roll_back_on_throw (s, some a) = (s, some a)
roll_back_on_throw (s, none) = ((rollback s).0, none)

abbrev pub guarded : {A : Type 0} → M A → M A
guarded m s = roll_back_on_throw (m s)

pub record_poll : ℕ → List Live → M ℕ
record_poll ts lives = do
  begin_
  guarded (do changed ← record_lives ts lives 0; commit; pure changed)

-- `cutoff = now - retain_days * 86400LL`, and the two statements.
abbrev pub cutoff_of : ℕ → ℤ → ℤ
cutoff_of now retain_days = pos now -ℤ (retain_days *ℤ pos 86400)

pub purge : ℕ → ℤ → M (Unit {0})
purge now retain_days = do
  let cutoff = cutoff_of now retain_days
  execute (λ t. (record t { samples = purge_samples cutoff t.samples }, tt))
  execute (λ t. (record t { infos = purge_infos t.infos cutoff t.infos }, tt))
