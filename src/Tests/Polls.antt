-- ===== src/Tests/Polls.antt =====
-- The collector from its start to its end, on concrete data.
use stream_monitor.Prelude.{ℕ, true, false, not, ◌&&◌, List, [], ◌∷◌, none, some}
use stream_monitor.Prelude.Int.{ℤ, pos}
use stream_monitor.Framing.{Bytes}
use stream_monitor.Json.{codes}
use stream_monitor.Settings.{Environment, load_env}
use stream_monitor.Collector.Fetch.{Web}
use stream_monitor.Collector.Main.{Collector, Clock, stop_set, time_is}
use stream_monitor.Collector.Start.{
  Round, Outside, settings, has_no_keys, is_started, is_waiting, collector_main,
}
use stream_monitor.Collector.Start.Exit.{HasEnded, returns, collector_main-HasEnded}
use stream_monitor.Collector.Start.Daemon.{polled}

abbrev atol : Bytes → ℤ
atol v = pos 30

abbrev keys : Environment
keys =
    (codes "CHZZK_CLIENT_ID", codes "i")
    ∷ (codes "CHZZK_CLIENT_SECRET", codes "s")
    ∷ (codes "SM_POLL_SEC", codes "30")
    ∷ []

-- The API cannot be reached.
abbrev web : Web
web = record { get = λ _ _. none; escape = λ s. s; parse = λ _. none }

abbrev clock_at : ℕ → Clock
clock_at t = record { polled = t; tested = t; purged = t; ended = t }

abbrev rounds : List Round
rounds =
    record {
      stop = false;
      web = web;
      clock = clock_at 70;
      waked = 75;
      looks = time_is 80 ∷ time_is 95 ∷ [];
    }
    ∷ record { stop = false; web = web; clock = clock_at 95; waked = 99; looks = stop_set ∷ [] }
    ∷ []

abbrev collector : Collector
collector = record {
  session = record {
    tables = record { samples = []; infos = []; channels = [] };
    saved = none;
    plan = [];
  };
  last_purge = 0;
}

abbrev outside : Outside
outside = record {
  easy = some 1;
  opened = λ _. record { is_ok = false; handle = some 2 };
  schema_ok = true;
  prepared = some 3 ∷ some 4 ∷ some 5 ∷ some 6 ∷ [];
  once = true;
  web = web;
  now = 70;
  rounds = rounds;
}

collector_main-HasEnded_example :
    HasEnded
      (not (has_no_keys (settings atol (load_env [] keys)))
        && is_waiting outside (settings atol (load_env [] keys)) collector)
      true
      (not (has_no_keys (settings atol (load_env [] keys)))
        && (is_started outside (settings atol (load_env [] keys))
            && returns true outside (settings atol (load_env [] keys)) collector))
      (collector_main atol [] keys outside collector)
collector_main-HasEnded_example = collector_main-HasEnded atol [] keys outside collector
