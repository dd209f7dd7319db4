-- ===== src/Tests/Record.antt =====
-- The collector of src/cpp/collector/main.cpp, and the settings, on concrete data.
use stream_monitor.Prelude.{◌≡◌, refl, List, [], ◌∷◌, none, some}
use stream_monitor.Prelude.Int.{pos}
use stream_monitor.Json.{codes, bytes_eq}
use stream_monitor.Db.{Sample, Info, Tables, last_info, info_at, purge_infos}
use stream_monitor.Db.Purge.{info_at-purge}
use stream_monitor.Db.Session.{Session, done, failed}
use stream_monitor.Collector.Fetch.{Live, Web, fetch_top_lives}
use stream_monitor.Collector.Fetch.Laws.{AtMost, Returns, fetch_top_lives-Returns}
use stream_monitor.Collector.Store.{record_poll}
use stream_monitor.Collector.Store.Closed.{record_poll-saved}
use stream_monitor.Settings.{Environment, getenv, load_env, load_env-getenv}

abbrev live : Live
live = record {
  channel_id = codes "a1";
  channel_name = codes "n";
  category = codes "talk";
  title = codes "x";
  viewers = pos 7;
}

abbrev infos : List Info
infos =
    record { channel_id = codes "a1"; ts = 0; category = some (codes "talk"); title = none }
    ∷ record { channel_id = codes "a1"; ts = 90; category = none; title = some (codes "x") }
    ∷ []

abbrev samples : List Sample
samples =
    record { channel_id = codes "a1"; ts = 60; viewers = pos 5 }
    ∷ record { channel_id = codes "a1"; ts = 120; viewers = pos 7 }
    ∷ []

abbrev tables : Tables
tables = record { samples = samples; infos = infos; channels = [] }

-- The third statement of the poll fails.
abbrev session : Session
session = record { tables = tables; saved = none; plan = done ∷ done ∷ failed ∷ [] }

abbrev web : Web
web = record { get = λ _ _. none; escape = λ s. s; parse = λ _. none }

abbrev environment : Environment
environment = (codes "SM_DB", codes "a.db") ∷ []

record_poll-saved_example : (record_poll 180 (live ∷ []) session).0.saved ≡ none
record_poll-saved_example = record_poll-saved 180 (live ∷ []) session refl tt

fetch_top_lives-Returns_example : Returns (AtMost 3) (fetch_top_lives web (pos 3))
fetch_top_lives-Returns_example = fetch_top_lives-Returns web 3

info_at-purge_example : info_at (codes "a1") (pos 70) (purge_infos infos (pos 50) infos) ≡ none
unfolding info_at last_info bytes_eq
info_at-purge_example =
    info_at-purge (codes "a1") (pos 70) (pos 50) infos
      (record { channel_id = codes "a1"; ts = 0; category = some (codes "talk"); title = none })
      refl refl refl

load_env-getenv_example :
    getenv (codes "SM_DB") (load_env (codes "SM_DB = b.db\n") environment) ≡ some (codes "a.db")
unfolding getenv bytes_eq
load_env-getenv_example =
    load_env-getenv (codes "SM_DB = b.db\n") (codes "SM_DB") (codes "a.db") environment refl
