-- ===== src/Collector/Store/Counted.antt =====
-- `Store::record` on a poll of distinct channels: what it leaves, and the number that it returns.
use stream_monitor.Prelude.{ℕ, suc, ◌≡◌, List, [], ◌∷◌, Option, none, some, if◌then◌else◌}
use stream_monitor.Framing.{Bytes}
use stream_monitor.Db.{Tables, last_info}
use stream_monitor.Db.Session.{Session, committed}
use stream_monitor.Collector.Fetch.{Live}
use stream_monitor.Collector.Store.{is_same}
use stream_monitor.Collector.Store.Effect.{view, AllShow, IsOther}

-- The lives that differ in category or title from the last info of their channel, or have none.
abbrev pub changes : List Live → Tables → ℕ
changes [] t = 0
changes (l ∷ ls) t =
    if is_same l (last_info l.channel_id t.infos) then changes ls t else suc (changes ls t)

-- What `record` did: the poll is in the tables, no transaction is open, the number is that of the
-- changed channels, and other channels are as they were; or nothing that anyone else sees.
pub data Recorded (ts : ℕ) (ls : List Live) (s : Session) : Session × Option ℕ → Type 0 where
  recorded :
      {t : Session} {n : ℕ}
      → t.saved ≡ none
      → AllShow ts ls s.tables t.tables
      → n ≡ changes ls s.tables
      → ((ch : Bytes) → IsOther ch ls → view ch ts t.tables ≡ view ch ts s.tables)
      → Recorded ts ls s (t, some n)
  not_recorded : {t : Session} → committed t ≡ committed s → Recorded ts ls s (t, none)
