-- ===== src/Client/Resources.antt =====
-- src/mfc/StreamClient.cpp: the processes, jobs and sockets that the client holds, over the steps of
-- the thread `run` and of a caller of `stop`, in any order. What the calls of Windows return are
-- arguments of the steps; every handle that is open is in a list of its kind.
pub mod Released
use stream_monitor.Prelude.{
  ℕ, Bool, true, false, List, [], ◌∷◌, Option, none, some, ◌==◌, if◌then◌else◌, ◌≡◌,
}

-- Where the thread is: not started, at the loop's condition, behind `ensure_tunnel`, in `connect_once`
-- with its socket, in the inner loop, behind it, or at its end.
pub data Worker : Type 0 where
  not_started at_top with_tunnel : Worker
  connecting : ℕ → Worker
  receiving receiving_done ended : Worker

-- Where the caller of `stop` is: not in it, before `close_socket`, before `join`, before
-- `close_tunnel`, or behind it.
pub data Stopper : Type 0 where
  outside to_close to_join to_close_tunnel stopped : Stopper

pub record Held : Type 0 where
  pub running : Bool
  pub process : Option ℕ
  pub job : Option ℕ
  pub sock : Option ℕ
  pub processes : List ℕ
  pub jobs : List ℕ
  pub sockets : List ℕ

-- CloseHandle and closesocket.
abbrev pub close : ℕ → List ℕ → List ℕ
close h [] = []
close h (k ∷ ks) = if h == k then ks else k ∷ close h ks

abbrev pub opened : Option ℕ → List ℕ → List ℕ
opened none hs = hs
opened (some h) hs = h ∷ hs

abbrev pub close_held : Option ℕ → List ℕ → List ℕ
close_held none hs = hs
close_held (some h) hs = close h hs

unfoldable pub close_socket : Held → Held
close_socket r = record r { sock = none; sockets = close_held r.sock r.sockets }

-- TerminateProcess goes before CloseHandle; the handle stays open in between.
unfoldable pub close_tunnel : Held → Held
close_tunnel r = record r {
  process = none;
  processes = close_held r.process r.processes;
  job = none;
  jobs = close_held r.job r.jobs;
}

-- `tunnel_job_ = CreateJobObjectW(…)` where there is none.
abbrev pub made_job : Option ℕ → Option ℕ → Option ℕ
made_job (some j) new = some j
made_job none new = new

abbrev pub jobs_with : Option ℕ → Option ℕ → List ℕ → List ℕ
jobs_with (some j) new js = js
jobs_with none new js = opened new js

-- From the job on: `new_job` and `new_process` are what the two Create calls give.
unfoldable pub make_tunnel : Option ℕ → Option ℕ → Held → Bool × Held
make_tunnel new_job none r =
    (false, record r { job = made_job r.job new_job; jobs = jobs_with r.job new_job r.jobs })
make_tunnel new_job (some h) r = (
  true,
  record r {
    job = made_job r.job new_job;
    jobs = jobs_with r.job new_job r.jobs;
    process = some h;
    processes = h ∷ r.processes;
  },
)

-- `alive` is WAIT_TIMEOUT of a process that there is.
abbrev pub ensure_with : Option ℕ → Bool → Option ℕ → Option ℕ → Held → Bool × Held
ensure_with none alive new_job new_process r = make_tunnel new_job new_process r
ensure_with (some h) alive new_job new_process r =
    if alive
    then (true, r)
    else make_tunnel new_job new_process
        (record r { process = none; processes = close h r.processes })

unfoldable pub ensure_tunnel : Bool → Option ℕ → Option ℕ → Held → Bool × Held
ensure_tunnel alive new_job new_process r = ensure_with r.process alive new_job new_process r

abbrev pub after_tunnel : Bool → Worker
after_tunnel true = with_tunnel
after_tunnel false = at_top

-- One step of one of the two.
pub data Step : Worker × Stopper × Held → Worker × Stopper × Held → Type 0 where
  begins :
      (r : Held)
      → r.running ≡ false
      → Step (not_started, outside, r) (at_top, outside, record r { running = true })
  ends : (s : Stopper) (r : Held) → r.running ≡ false → Step (at_top, s, r) (ended, s, r)
  tunnels :
      (alive : Bool) (new_job new_process : Option ℕ) (s : Stopper) (r : Held)
      → Step
          (at_top, s, r)
          (
            after_tunnel (ensure_tunnel alive new_job new_process r).0,
            s,
            (ensure_tunnel alive new_job new_process r).1,
          )
  no_socket : (s : Stopper) (r : Held) → Step (with_tunnel, s, r) (at_top, s, r)
  socket_made :
      (h : ℕ) (s : Stopper) (r : Held)
      → Step (with_tunnel, s, r) (connecting h, s, record r { sockets = h ∷ r.sockets })
  connect_fails :
      (h : ℕ) (s : Stopper) (r : Held)
      → Step (connecting h, s, r) (at_top, s, record r { sockets = close h r.sockets })
  connects :
      (h : ℕ) (s : Stopper) (r : Held)
      → Step (connecting h, s, r) (receiving, s, record r { sock = some h })
  loop_ends : (s : Stopper) (r : Held) → Step (receiving, s, r) (receiving_done, s, r)
  socket_closed : (s : Stopper) (r : Held) → Step (receiving_done, s, r) (at_top, s, close_socket r)
  stop_begins :
      (w : Worker) (r : Held)
      → r.running ≡ true
      → Step (w, outside, r) (w, to_close, record r { running = false })
  stop_closes : (w : Worker) (r : Held) → Step (w, to_close, r) (w, to_join, close_socket r)
  joins : (r : Held) → Step (ended, to_join, r) (ended, to_close_tunnel, r)
  stop_ends : (w : Worker) (r : Held) → Step (w, to_close_tunnel, r) (w, stopped, close_tunnel r)

pub data Reachable (from : Worker × Stopper × Held) : Worker × Stopper × Held → Type 0 where
  start : Reachable from from
  step :
      (x : Worker × Stopper × Held) {y : Worker × Stopper × Held}
      → Reachable from x
      → Step x y
      → Reachable from y

abbrev pub nothing_held : Held
nothing_held = record {
  running = false;
  process = none;
  job = none;
  sock = none;
  processes = [];
  jobs = [];
  sockets = [];
}
