-- ===== src/Push/Start.antt =====
-- src/cpp/push/main.cpp: the start of the relay, the constructors of class Queries and of class
-- Server, and `main` around `run`. What SQLite and the kernel return are arguments. The descriptors
-- of Server are left to the end of the process, as class Server has no destructor.
pub mod Exit
use stream_monitor.Prelude.{
  ℕ, ◌%◌, Bool, true, false, not, ◌&&◌, List, [], ◌∷◌, Option, none, some, if◌then◌else◌,
}
use stream_monitor.Prelude.Int.{ℤ, pos, negsuc, leb_ℤ}
use stream_monitor.Framing.{Bytes}
use stream_monitor.Json.{Json, codes}
use stream_monitor.Settings.{Environment, load_env, env_str, env_long}
use stream_monitor.Handles.{
  Held, nothing_held, M, Opened, with_db, with_statements, is_prepared, is_there,
}
use stream_monitor.Client.{low_bits}
use stream_monitor.Push.Conn.{Outbound, Flushed}
use stream_monitor.Push.Request.{Env, Queries}
use stream_monitor.Push.Server.{Server, Wait, run_loop, shutdown}

-- SM_DB, SM_PUSH_PORT and SM_RETAIN_DAYS.
pub record Settings : Type 0 where
  pub db_path : Bytes
  pub port : ℤ
  pub retain_days : ℤ

unfoldable pub settings : (Bytes → ℤ) → Environment → Settings
settings atol env = record {
  db_path = env_str env (codes "SM_DB") (codes "monitor.db");
  port = env_long atol env (codes "SM_PUSH_PORT") (pos 9002);
  retain_days = env_long atol env (codes "SM_RETAIN_DAYS") (pos 30);
}

-- What socket, bind, listen, epoll_create1, timerfd_create and signalfd return.
pub record Kernel : Type 0 where
  pub socket : ℤ
  pub bind : ℤ
  pub listen : ℤ
  pub epoll_create : ℤ
  pub timer_create : ℤ
  pub signal_create : ℤ

-- The server's descriptors, the port it is bound to, and what is watched for EPOLLIN.
pub record Listening : Type 0 where
  pub listen_fd : ℤ
  pub port : ℕ
  pub ep : ℤ
  pub timer_fd : ℤ
  pub sig_fd : ℤ
  pub watched : List ℤ

-- `static_cast<uint16_t>(static_cast<int>(port))`
unfoldable pub port_of : ℤ → ℕ
port_of port = low_bits port % 65536

abbrev pub is_error : ℤ → Bool
is_error n = not (leb_ℤ (pos 0) n)

-- Three calls are checked; the others are not.
unfoldable pub start_server : Kernel → ℤ → Option Listening
start_server k port =
    if is_error k.socket
    then none
    else if is_error k.bind
    then none
    else if is_error k.listen
    then none
    else some (record {
      listen_fd = k.socket;
      port = port_of port;
      ep = k.epoll_create;
      timer_fd = k.timer_create;
      sig_fd = k.signal_create;
      watched = k.socket ∷ k.timer_create ∷ k.signal_create ∷ [];
    })

-- What the relay has done: where it listens, its connections, and the farewells.
pub record Served : Type 0 where
  pub listening : Option Listening
  pub server : Server
  pub byes : List (ℕ × Flushed)

abbrev pub empty_server : Server
empty_server = record { conns = []; stop = false }

abbrev pub not_served : Served
not_served = record { listening = none; server = empty_server; byes = [] }

-- Everything that the relay does not decide itself.
pub record Outside : Type 0 where
  pub parse : Bytes → Option Json
  pub write : Json → Bytes
  pub opened : Bytes → Opened
  pub prepared : List (Option ℕ)
  pub kernel : Kernel
  pub waits : List Wait
  pub sends : ℕ → Outbound

-- The loop asks only the queries of an event, which come with it.
abbrev unasked : Queries
unasked = record { channels = λ now. none; samples = λ ch from to. none; stats = none }

abbrev pub env_of : Outside → Settings → Env
env_of o c = record {
  parse = o.parse;
  write = o.write;
  queries = unasked;
  retain_days = c.retain_days;
}

unfoldable pub loop_result : Outside → Settings → Option Server
loop_result o c = run_loop (env_of o c) o.waits empty_server

abbrev pub served_to :
    Outside → Settings → Held × Served → Option Server → (Held × Served) × Option (Unit {0})
served_to o c x none = (x, none)
served_to o c (r, s) (some t) =
    ((r, record s { server = t; byes = shutdown (env_of o c) o.sends t.conns }), some tt)

abbrev pub run_with : Outside → Settings → Option Listening → M Served
run_with o c none x = (x, none)
run_with o c (some l) (r, s) = served_to o c (r, record s { listening = some l }) (loop_result o c)

-- `Server srv(q, port, retain_days); srv.run();`
unfoldable pub serve : Outside → Settings → M Served
serve o c = run_with o c (start_server o.kernel c.port)

-- The `try` block, with `Queries q(db_path)` in front.
unfoldable pub try_serve : Outside → Settings → M Served
try_serve o c = with_db (o.opened c.db_path) (with_statements o.prepared (serve o c))

-- A process that waits for its next event, or one that has ended with a code.
pub data Process : Type 0 where
  running : Process
  exited : Held → Served → ℕ → Process

-- Nothing throws before `run`.
unfoldable pub is_started : Outside → Settings → Bool
is_started o c =
    (o.opened c.db_path).is_ok
    && (is_prepared o.prepared && is_there (start_server o.kernel c.port))

abbrev pub is_waiting : Option Server → Bool
is_waiting none = false
is_waiting (some s) = not s.stop

abbrev pub exit_with : (Held × Served) × Option (Unit {0}) → Process
exit_with ((r, s), none) = exited r s 1
exit_with ((r, s), some _) = exited r s 0

unfoldable pub push_main : (Bytes → ℤ) → Bytes → Environment → Outside → Process
push_main atol env_file env o =
    let c = settings atol (load_env env_file env) in
    if is_started o c && is_waiting (loop_result o c)
    then running
    else exit_with (try_serve o c (nothing_held, not_served))
