-- ===== src/Collector/Start/Daemon.antt =====
-- The polls of the loop of `main`.
use stream_monitor.Prelude.{ℕ, ◌+◌, ◌≤◌, ◌≡◌, ◌⊎◌, Bool, true, false, List, [], ◌∷◌, Option, none}
use stream_monitor.Collector.Main.{
  Config, poll_time, run_once, Collector, poll, wake_time, Waited, stopped, asleep, woke,
  wait_until,
}
use stream_monitor.Db.Session.{Session}
use stream_monitor.Collector.Fetch.{Live}
use stream_monitor.Collector.Store.Atomic.{Records}
use stream_monitor.Collector.Start.{Round}

abbrev wait_of : Config → Round → Waited
wait_of cfg r = wait_until (wake_time cfg.poll_sec r.waked) r.looks

-- The rounds up to the one where a signal is seen.
abbrev pub with_round : Bool → Waited → Round → List Round → List Round
with_round true w r rest = []
with_round false stopped r rest = r ∷ []
with_round false asleep r rest = r ∷ []
with_round false (woke t) r rest = r ∷ rest

abbrev pub polled : Config → List Round → List Round
polled cfg [] = []
polled cfg (r ∷ rs) = with_round r.stop (wait_of cfg r) r (polled cfg rs)

abbrev pub poll_all : Config → List Round → Collector → Collector
poll_all cfg [] c = c
poll_all cfg (r ∷ rs) c = poll_all cfg rs (poll cfg r.web r.clock c)

abbrev pub times : Config → List Round → List ℕ
times cfg [] = []
times cfg (r ∷ rs) = poll_time cfg.poll_sec r.clock.polled ∷ times cfg rs

-- What `run_once` does under the time `ts`: no lives are fetched and nothing is touched, or all rows
-- of the lives are recorded under `ts`, or nothing that anyone else sees.
abbrev pub RunsAt : ℕ → Session → Session × Option ℕ → Type 0
RunsAt ts s r = (r ≡ (s, none)) ⊎ ((ls : List Live) × Records ts ls s r)

-- Each round runs under the time that stands for it.
abbrev pub RecordedAt : Config → List Round → List ℕ → Type 0
RecordedAt cfg [] ts = ts ≡ []
RecordedAt cfg (r ∷ rs) [] = r ∷ rs ≡ []
RecordedAt cfg (r ∷ rs) (t ∷ ts) =
    ((s : Session) → RunsAt t s (run_once r.web cfg r.clock.polled s)) × RecordedAt cfg rs ts

-- The clock does not go back between the readings of the loop.
abbrev pub IsBefore : Waited → List Round → Type 0
IsBefore (woke t) (r ∷ rs) = t ≤ r.clock.polled
IsBefore w rs = Unit

abbrev pub KeepsTime : Config → List Round → Type 0
KeepsTime cfg [] = Unit
KeepsTime cfg (r ∷ rs) = (r.clock.polled ≤ r.waked) × IsBefore (wait_of cfg r) rs × KeepsTime cfg rs

abbrev pub StartsFrom : ℕ → List ℕ → Type 0
StartsFrom a [] = Unit
StartsFrom a (b ∷ bs) = a ≤ b

-- Each time is later than the one before it by at least `p`.
abbrev pub AreSpaced : ℕ → List ℕ → Type 0
AreSpaced p [] = Unit
AreSpaced p (a ∷ bs) = StartsFrom (a + p) bs × AreSpaced p bs
