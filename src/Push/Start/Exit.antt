-- ===== src/Push/Start/Exit.antt =====
-- How the relay ends.
use stream_monitor.Prelude.{
  ◌≡◌, refl, ◌∙◌, Bool, true, false, ◌&&◌, Option, none, some, if◌then◌else◌, if-elim, arith,
}
use stream_monitor.Framing.{Bytes}
use stream_monitor.Prelude.Int.{ℤ}
use stream_monitor.Settings.{Environment, load_env}
use stream_monitor.Handles.{Held, nothing_held, is_prepared, is_there}
use stream_monitor.Handles.Released.{
  IsBalanced, EndsWith, with_db-IsBalanced, with_statements-IsBalanced, with_db-EndsWith,
  with_statements-EndsWith,
}
use stream_monitor.Push.Server.{Server}
use stream_monitor.Push.Start.{
  Settings, settings, Outside, Served, not_served, Listening, start_server, loop_result, served_to,
  run_with, serve, try_serve, Process, running, exited, is_started, is_waiting, exit_with,
  push_main,
}

served_to-held :
    (o : Outside) (c : Settings) (r : Held) (s : Served) (t : Option Server)
    → (served_to o c (r, s) t).0.0 ≡ r
served_to-held o c r s none = refl
served_to-held o c r s (some t) = refl

abbrev AnyEnd : Option (Unit {0}) → Type 0
AnyEnd a = Unit

run_with-IsBalanced :
    (o : Outside) (c : Settings) (l : Option Listening) (s : Served) (r : Held)
    → IsBalanced AnyEnd s (run_with o c l) r
run_with-IsBalanced o c none s r q = refl
run_with-IsBalanced o c (some l) s r q = served_to-held o c r _ (loop_result o c)

try_serve-IsBalanced :
    (o : Outside) (c : Settings) (s : Served) → IsBalanced AnyEnd s (try_serve o c) nothing_held
unfolding try_serve serve
try_serve-IsBalanced o c s =
    with_db-IsBalanced AnyEnd _ s (o.opened c.db_path) nothing_held refl refl (λ h.
      with_statements-IsBalanced AnyEnd _ s o.prepared (record nothing_held { db = h })
        (run_with-IsBalanced o c (start_server o.kernel c.port) s))

abbrev done_if : Bool → Option (Unit {0})
done_if b = if b then some tt else none

served_to-EndsWith :
    (o : Outside) (c : Settings) (x : Held × Served) (t : Option Server)
    → (served_to o c x t).1 ≡ done_if (is_there t)
served_to-EndsWith o c x none = refl
served_to-EndsWith o c x (some t) = refl

run_with-EndsWith :
    (o : Outside) (c : Settings) (l : Option Listening) (s : Served)
    → EndsWith s (run_with o c l) (done_if (is_there l && is_there (loop_result o c)))
run_with-EndsWith o c none s r = refl
run_with-EndsWith o c (some l) s r = served_to-EndsWith o c _ (loop_result o c)

nested_ifs :
    (a b c d : Bool)
    → (if a then (if b then done_if (c && d) else none) else none) ≡ done_if ((a && (b && c)) && d)
nested_ifs a b c d = ground arith

try_serve-EndsWith :
    (o : Outside) (c : Settings) (s : Served)
    → EndsWith s (try_serve o c) (done_if (is_started o c && is_there (loop_result o c)))
unfolding try_serve serve is_started
try_serve-EndsWith o c s r =
    with_db-EndsWith _ s (o.opened c.db_path) _
      (with_statements-EndsWith _ s o.prepared _
        (run_with-EndsWith o c (start_server o.kernel c.port) s))
      r
    ∙ nested_ifs (o.opened c.db_path).is_ok (is_prepared o.prepared)
        (is_there (start_server o.kernel c.port)) (is_there (loop_result o c))

-- `waits` says that the loop goes on, `ok` that nothing threw.
abbrev pub HasEnded : Bool → Bool → Process → Type 0
HasEnded waits ok running = waits ≡ true
HasEnded waits ok (exited r s n) =
    (waits ≡ false) × (r ≡ nothing_held) × (n ≡ (if ok then 0 else 1))

exit_with-HasEnded :
    (waits ok : Bool) (r : (Held × Served) × Option (Unit {0}))
    → waits ≡ false
    → r.0.0 ≡ nothing_held
    → r.1 ≡ done_if ok
    → HasEnded waits ok (exit_with r)
exit_with-HasEnded waits true ((r, s), none) w h e = (w, h, ground (arith, e))
exit_with-HasEnded waits false ((r, s), none) w h e = (w, h, refl)
exit_with-HasEnded waits true ((r, s), some u) w h e = (w, h, refl)
exit_with-HasEnded waits false ((r, s), some u) w h e = (w, h, ground (arith, e))

-- Whatever SQLite answers when the database is opened and the statements are prepared, and whatever
-- its queries answer or throw in each event, whatever the kernel and the peers do: the process still
-- runs only where it was started and its loop has not stopped. Otherwise it exits; then every statement and the connection to the database
-- that it took have been given back, the statements first, and the code is 0 exactly where the
-- database was opened, the statements prepared, the server started and no event made the loop throw.
pub push_main-HasEnded :
    (atol : Bytes → ℤ) (env_file : Bytes) (env : Environment) (o : Outside)
    → let c = settings atol (load_env env_file env) in
      HasEnded
        (is_started o c && is_waiting (loop_result o c))
        (is_started o c && is_there (loop_result o c))
        (push_main atol env_file env o)
unfolding push_main
push_main-HasEnded atol env_file env o =
    let c = settings atol (load_env env_file env) in
    let ok = is_started o c && is_there (loop_result o c) in
    let waits = is_started o c && is_waiting (loop_result o c) in
    if-elim (HasEnded waits ok) waits running (exit_with (try_serve o c (nothing_held, not_served)))
      (λ w. w)
      (λ w.
        exit_with-HasEnded waits ok (try_serve o c (nothing_held, not_served)) w
          (try_serve-IsBalanced o c not_served tt) (try_serve-EndsWith o c not_served nothing_held))
