-- ===== src/Served.antt =====
-- src/cpp/collector/main.cpp and src/cpp/push/main.cpp together: what the collector records is what
-- the relay then serves.
use stream_monitor.Prelude.{ℕ, ◌≤◌, ◌≡◌, true, some, All}
use stream_monitor.Prelude.Int.{ℤ, pos}
use stream_monitor.Db.{Tables, sample_at, info_at}
use stream_monitor.Db.Laws.{or_else}
use stream_monitor.Collector.Fetch.{Live}
use stream_monitor.Collector.Store.{is_same}
use stream_monitor.Push.Queries.{points, info_rows}

-- No info is later than `ts`.
abbrev pub IsPast : ℕ → Tables → Type 0
IsPast ts t = All (λ r. r.ts ≤ ts) t.infos

-- In the rows for a window of the channel of `l`, the sample of `ts` is the one of the live, or
-- the one that was there before, and the title in force at `ts` is that of the live.
pub record IsServed (ts : ℕ) (from to : ℤ) (before after : Tables) (l : Live) : Type 0 where
  pub sampled :
      sample_at l.channel_id ts (points l.channel_id from to after.samples)
      ≡ some (or_else (sample_at l.channel_id ts before.samples) l.viewers)
  pub titled :
      is_same l (info_at l.channel_id (pos ts) (info_rows l.channel_id from to after.infos)) ≡ true
