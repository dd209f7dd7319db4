-- ===== src/Collector/Main.antt =====
-- src/cpp/collector/main.cpp: `run_once` and the loop of `main`. The clock readings, the answers of
-- the API and those of SQLite are arguments; the process ends where `g_stop` is seen.
pub mod Times
use stream_monitor.Prelude.{
  ℕ, ◌+◌, ◌-◌, ◌*◌, ◌/◌, Bool, true, false, ◌&&◌, List, [], ◌∷◌, Option, none, some, ltb,
  if◌then◌else◌, max,
}
use stream_monitor.Prelude.Int.{ℤ}
use stream_monitor.Db.Session.{Session, M}
use stream_monitor.Collector.Fetch.{Live, Web, Fetched, ok, err, fetch_top_lives}
use stream_monitor.Collector.Store.{record_poll, purge}

-- SM_TOP_N, SM_RETAIN_DAYS and SM_POLL_SEC, the last one at least 1.
pub record Config : Type 0 where
  pub top_n : ℤ
  pub retain_days : ℤ
  pub poll_sec : ℕ

-- `std::time(nullptr) / poll_sec * poll_sec`
unfoldable pub poll_time : ℕ → ℕ → ℕ
poll_time poll now = now / poll * poll

-- `(std::time(nullptr) / poll_sec + 1) * poll_sec`
unfoldable pub wake_time : ℕ → ℕ → ℕ
wake_time poll now = (now / poll + 1) * poll

abbrev pub record_fetched : ℕ → Fetched (List Live) → M ℕ
record_fetched ts (err e) s = (s, none)
record_fetched ts (ok lives) s = record_poll ts lives s

-- The number of rows that `record` counts as changed; `none` where the fetch or a statement throws,
-- and where the fetch comes to `undefined_content`.
unfoldable pub run_once : Web → Config → ℕ → M ℕ
run_once web cfg now = record_fetched (poll_time cfg.poll_sec now) (fetch_top_lives web cfg.top_n)

pub record Collector : Type 0 where
  pub session : Session
  pub last_purge : ℕ

-- The clock at `run_once`, at the test, in the call of `purge`, and behind it. Where the clock went
-- back, the difference in the test is 0 here and negative there, in both cases not above 3600.
pub record Clock : Type 0 where
  pub polled : ℕ
  pub tested : ℕ
  pub purged : ℕ
  pub ended : ℕ

abbrev pub after_purge : Clock → ℕ → Session × Option (Unit {0}) → Collector
after_purge k last (s, none) = record { session = s; last_purge = last }
after_purge k last (s, some _) = record { session = s; last_purge = k.ended }

abbrev pub after_poll : Config → Clock → ℕ → Session × Option ℕ → Collector
after_poll cfg k last (s, none) = record { session = s; last_purge = last }
after_poll cfg k last (s, some _) =
    if ltb 3600 (k.tested - last)
    then after_purge k last (purge k.purged cfg.retain_days s)
    else record { session = s; last_purge = last }

-- The body of the loop up to the wait: an exception is logged, and the loop goes on.
unfoldable pub poll : Config → Web → Clock → Collector → Collector
poll cfg web k c = after_poll cfg k c.last_purge (run_once web cfg k.polled c.session)

-- What the wait sees in turn: `g_stop`, and the clock if it is not set.
pub data Look : Type 0 where
  stop_set : Look
  time_is : ℕ → Look

pub data Waited : Type 0 where
  stopped asleep : Waited
  woke : ℕ → Waited

-- `while (!g_stop && std::time(nullptr) < wake) sleep_for(1s);`, with the time that ended it.
unfoldable pub wait_until : ℕ → List Look → Waited
wait_until wake [] = asleep
wait_until wake (stop_set ∷ ls) = stopped
wait_until wake (time_is t ∷ ls) = if ltb t wake then wait_until wake ls else woke t
