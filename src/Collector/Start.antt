-- ===== src/Collector/Start.antt =====
-- src/cpp/collector/main.cpp: `main`, with the constructors of class Http and class Store around the
-- loop. What libcurl, SQLite and the clock return are arguments; a signal is seen at a test of `g_stop`.
pub mod Exit
pub mod Daemon
use stream_monitor.Prelude.{
  ℕ, Bool, true, false, not, ◌&&◌, ◌||◌, List, [], ◌∷◌, Option, none, some, if◌then◌else◌,
}
use stream_monitor.Prelude.Int.{ℤ, pos, pos_part, max_ℤ}
use stream_monitor.Framing.{Bytes}
use stream_monitor.Json.{codes}
use stream_monitor.Settings.{Environment, load_env, env_str, env_long}
use stream_monitor.Handles.{
  Held, nothing_held, M, Opened, global_init, global_cleanup, with_http, with_db, with_statements,
  checked, is_prepared, is_there,
}
use stream_monitor.Client.{to_int}
use stream_monitor.Db.Session.{Session}
use stream_monitor.Collector.Fetch.{Web}
use stream_monitor.Collector.Main.{
  Config, run_once, Collector, Clock, poll, wake_time, Look, Waited, stopped, asleep, woke,
  wait_until,
}

pub record Settings : Type 0 where
  pub client_id : Bytes
  pub client_secret : Bytes
  pub db_path : Bytes
  pub config : Config

unfoldable pub settings : (Bytes → ℤ) → Environment → Settings
settings atol env = record {
  client_id = env_str env (codes "CHZZK_CLIENT_ID") [];
  client_secret = env_str env (codes "CHZZK_CLIENT_SECRET") [];
  db_path = env_str env (codes "SM_DB") (codes "monitor.db");
  config = record {
    top_n = to_int (env_long atol env (codes "SM_TOP_N") (pos 50));
    retain_days = env_long atol env (codes "SM_RETAIN_DAYS") (pos 30);
    poll_sec = pos_part (max_ℤ (pos 1) (env_long atol env (codes "SM_POLL_SEC") (pos 60)));
  };
}

-- One turn of the loop: `g_stop` at its test, the answers to the poll, the clock behind it, and
-- what the wait sees.
pub record Round : Type 0 where
  pub stop : Bool
  pub web : Web
  pub clock : Clock
  pub waked : ℕ
  pub looks : List Look

-- Whether the loop has ended, and the state: behind a signal at its test or in its wait, or from the
-- next round on, whose result is the last argument.
abbrev pub after_round : Bool → Waited → Collector → Collector → Bool × Collector → Bool × Collector
after_round true w c c' rest = (true, c)
after_round false stopped c c' rest = (true, c')
after_round false asleep c c' rest = (false, c')
after_round false (woke t) c c' rest = rest

unfoldable pub daemon : Config → List Round → Collector → Bool × Collector
daemon cfg [] c = (false, c)
daemon cfg (r ∷ rs) c =
    let c' = poll cfg r.web r.clock c in
    after_round r.stop (wait_until (wake_time cfg.poll_sec r.waked) r.looks) c c' (daemon cfg rs c')

-- What the process does not decide: the results of the libraries, and either the rounds of the
-- loop or the one poll at the time `now`.
pub record Outside : Type 0 where
  pub easy : Option ℕ
  pub opened : Bytes → Opened
  pub schema_ok : Bool
  pub prepared : List (Option ℕ)
  pub once : Bool
  pub web : Web
  pub now : ℕ
  pub rounds : List Round

-- ── the two bodies of the `try` block ──
abbrev pub once_result :
    Held → Collector → Session × Option ℕ → (Held × Collector) × Option (Unit {0})
once_result r c (s, none) = ((r, record c { session = s }), none)
once_result r c (s, some changed) = ((global_cleanup r, record c { session = s }), some tt)

-- `run_once(…); curl_global_cleanup(); return 0;`
unfoldable pub once_body : Outside → Config → M Collector
once_body o cfg (r, c) = once_result r c (run_once o.web cfg o.now c.session)

unfoldable pub daemon_body : Outside → Config → M Collector
daemon_body o cfg (r, c) = ((r, (daemon cfg o.rounds c).1), some tt)

abbrev pub body : Bool → Outside → Config → M Collector
body true o cfg x = once_body o cfg x
body false o cfg x = daemon_body o cfg x

-- `Http http(…); Store store(db_path);` and the body.
unfoldable pub try_collect : Outside → Settings → M Collector
try_collect o k = with_http o.easy (
    with_db (o.opened k.db_path)
      (checked o.schema_ok (with_statements o.prepared (body o.once o k.config))))

pub data Process : Type 0 where
  running : Process
  exited : Held → Collector → ℕ → Process

-- Behind the `try` block; `--once` has returned from inside it.
abbrev pub exit_with : Bool → (Held × Collector) × Option (Unit {0}) → Process
exit_with once ((r, c), none) = exited (global_cleanup r) c 1
exit_with once ((r, c), some _) = exited (if once then r else global_cleanup r) c 0

-- Nothing throws before the body.
unfoldable pub is_started : Outside → Settings → Bool
is_started o k =
    is_there o.easy && ((o.opened k.db_path).is_ok && (o.schema_ok && is_prepared o.prepared))

abbrev pub is_empty_text : Bytes → Bool
is_empty_text [] = true
is_empty_text (c ∷ cs) = false

unfoldable pub has_no_keys : Settings → Bool
has_no_keys k = is_empty_text k.client_id || is_empty_text k.client_secret

unfoldable pub is_waiting : Outside → Settings → Collector → Bool
is_waiting o k c = is_started o k && (not o.once && not (daemon k.config o.rounds c).0)

unfoldable pub collector_main : (Bytes → ℤ) → Bytes → Environment → Outside → Collector → Process
collector_main atol env_file env o c =
    let k = settings atol (load_env env_file env) in
    if has_no_keys k
    then exited nothing_held c 1
    else if is_waiting o k c
    then running
    else exit_with o.once (try_collect o k (global_init nothing_held, c))
