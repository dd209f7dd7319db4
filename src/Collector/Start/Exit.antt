-- ===== src/Collector/Start/Exit.antt =====
-- How the collector ends.
use stream_monitor.Prelude.{
  ℕ, ◌≡◌, refl, ap, ◌∙◌, ◌⊎◌, inl, inr, Bool, true, false, not, ◌&&◌, Option, none, some,
  if◌then◌else◌, arith,
}
use stream_monitor.Framing.{Bytes}
use stream_monitor.Prelude.Int.{ℤ}
use stream_monitor.Settings.{Environment, load_env}
use stream_monitor.Handles.{
  Held, nothing_held, global_init, global_cleanup, global_cleanup_with, is_prepared, is_there,
}
use stream_monitor.Handles.Released.{
  IsBalanced, EndsWith, with_http-IsBalanced, with_db-IsBalanced, checked-IsBalanced,
  with_statements-IsBalanced, with_http-EndsWith, with_db-EndsWith, checked-EndsWith,
  with_statements-EndsWith,
}
use stream_monitor.Handles.Misused.{
  Misuses, with_http-Misuses, with_db-Misuses, checked-Misuses, with_statements-Misuses,
}
use stream_monitor.Db.Session.{Session}
use stream_monitor.Collector.Main.{Collector, run_once}
use stream_monitor.Collector.Start.{
  Settings, settings, Outside, once_result, once_body, daemon_body, body, try_collect, Process,
  running, exited, exit_with, is_started, has_no_keys, is_waiting, collector_main,
}

-- The one poll returns, or there is the loop, which catches what its polls throw.
abbrev pub returns : Bool → Outside → Settings → Collector → Bool
returns true o k c = is_there (run_once o.web k.config o.now c.session).1
returns false o k c = true

abbrev done_if : Bool → Option (Unit {0})
done_if b = if b then some tt else none

-- Where `--once` comes to its end it has left libcurl already.
abbrev Allowed : Bool → Option (Unit {0}) → Type 0
Allowed once a = (once ≡ false) ⊎ (a ≡ none)

once_result-IsBalanced :
    (r : Held) (c : Collector) (x : Session × Option ℕ)
    → (once_result r c x).1 ≡ none
    → (once_result r c x).0.0 ≡ r
once_result-IsBalanced r c (s, none) e = refl
once_result-IsBalanced r c (s, some n) e = cc

once_result-EndsWith :
    (r : Held) (c : Collector) (x : Session × Option ℕ)
    → (once_result r c x).1 ≡ done_if (is_there x.1)
once_result-EndsWith r c (s, none) = refl
once_result-EndsWith r c (s, some n) = refl

global_cleanup_with-noted :
    (k : ℕ) (r : Held) (o : Option ℕ) → o ≡ some k → (global_cleanup_with o r).misused ≡ true
global_cleanup_with-noted k r none e = cc
global_cleanup_with-noted k r (some j) e = refl

once_result-Misuses :
    (k : ℕ) (r : Held) (c : Collector) (x : Session × Option ℕ)
    → r.easy ≡ some k
    → (once_result r c x).1 ≡ some tt
    → (once_result r c x).0.0.misused ≡ true
unfolding global_cleanup
once_result-Misuses k r c (s, none) h e = cc
once_result-Misuses k r c (s, some n) h e = global_cleanup_with-noted k r r.easy h

module _ (o : Outside) (k : Settings) (c : Collector) where
  body-IsBalanced : (once : Bool) (r : Held) → IsBalanced (Allowed once) c (body once o k.config) r
  unfolding once_body daemon_body
  body-IsBalanced false r q = refl
  body-IsBalanced true r (inl h) = cc
  body-IsBalanced true r (inr e) =
      once_result-IsBalanced r c (run_once o.web k.config o.now c.session) e

  body-EndsWith : (once : Bool) → EndsWith c (body once o k.config) (done_if (returns once o k c))
  unfolding once_body daemon_body
  body-EndsWith false r = refl
  body-EndsWith true r = once_result-EndsWith r c (run_once o.web k.config o.now c.session)

  body-Misuses :
      (once : Bool) (h : ℕ) (r : Held)
      → once ≡ true
      → r.easy ≡ some h
      → Misuses c (body once o k.config) r
  unfolding once_body
  body-Misuses false h r t e = cc
  body-Misuses true h r t e = once_result-Misuses h r c (run_once o.web k.config o.now c.session) e

  -- The state behind curl_global_init.
  abbrev begun : Held
  begun = record nothing_held { curl = true }

  try_collect-IsBalanced : IsBalanced (Allowed o.once) c (try_collect o k) begun
  unfolding try_collect
  try_collect-IsBalanced =
      let Q = Allowed o.once in
      with_http-IsBalanced Q _ c o.easy begun refl refl (λ e.
        with_db-IsBalanced Q _ c (o.opened k.db_path) (record begun { easy = e }) refl refl
          (λ h.
            checked-IsBalanced Q _ c o.schema_ok (record begun { easy = e; db = h })
              (with_statements-IsBalanced Q _ c o.prepared (record begun { easy = e; db = h })
                (body-IsBalanced o.once))))

  nested_ifs :
      (a b d e f : Bool)
      → (if a
          then (if b then (if d then (if e then done_if f else none) else none) else none)
          else none)
        ≡ done_if ((a && (b && (d && e))) && f)
  nested_ifs a b d e f = ground arith

  try_collect-EndsWith :
      EndsWith c (try_collect o k) (done_if (is_started o k && returns o.once o k c))
  unfolding try_collect is_started
  try_collect-EndsWith r =
      with_http-EndsWith _ c o.easy _
        (with_db-EndsWith _ c (o.opened k.db_path) _ (
          checked-EndsWith _ c o.schema_ok _
            (with_statements-EndsWith _ c o.prepared _ (body-EndsWith o.once))))
        r
      ∙ nested_ifs (is_there o.easy) (o.opened k.db_path).is_ok o.schema_ok (is_prepared o.prepared)
          (returns o.once o k c)

  try_collect-Misuses : o.once ≡ true → Misuses c (try_collect o k) begun
  unfolding try_collect
  try_collect-Misuses t = with_http-Misuses _ c o.easy begun (λ h.
      with_db-Misuses _ c (o.opened k.db_path) (record begun { easy = some h })
        (λ d.
          checked-Misuses _ c o.schema_ok (record begun { easy = some h; db = d })
            (with_statements-Misuses _ c o.prepared (record begun { easy = some h; db = d })
              (λ r e. body-Misuses o.once h r t e))))

-- `--once` that comes to its end leaves libcurl before its handle; else nothing is held.
abbrev pub Leaves : Bool → Held → Type 0
Leaves true r = r.misused ≡ true
Leaves false r = r ≡ nothing_held

abbrev pub HasEnded : Bool → Bool → Bool → Process → Type 0
HasEnded waits once ok running = waits ≡ true
HasEnded waits once ok (exited r c n) =
    (waits ≡ false) × (n ≡ (if ok then 0 else 1)) × Leaves (once && ok) r

exit_with-HasEnded :
    (waits once ok : Bool) (r : Held) (c : Collector) (a : Option (Unit {0}))
    → waits ≡ false
    → a ≡ done_if ok
    → (Allowed once a → r ≡ record nothing_held { curl = true })
    → (once ≡ true → a ≡ some tt → r.misused ≡ true)
    → HasEnded waits once ok (exit_with once ((r, c), a))
unfolding global_cleanup
exit_with-HasEnded waits once true r c none w e b m = cc
exit_with-HasEnded waits once false r c (some u) w e b m = cc
exit_with-HasEnded waits true false r c none w e b m = (w, refl, ap global_cleanup (b (inr refl)))
exit_with-HasEnded waits false false r c none w e b m = (w, refl, ap global_cleanup (b (inl refl)))
exit_with-HasEnded waits true true r c (some u) w e b m = (w, refl, m refl refl)
exit_with-HasEnded waits false true r c (some u) w e b m =
    (w, refl, ap global_cleanup (b (inl refl)))

main_cases :
    (no_keys waits once ok : Bool) (c : Collector) (p : Process)
    → (waits ≡ false → HasEnded waits once ok p)
    → HasEnded
        (not no_keys && waits)
        once
        (not no_keys && ok)
        (if no_keys then exited nothing_held c 1 else if waits then running else p)
main_cases true waits true ok c p h = (refl, refl, refl)
main_cases true waits false ok c p h = (refl, refl, refl)
main_cases false true once ok c p h = refl
main_cases false false once ok c p h = h refl

-- Whatever libcurl, SQLite, the API and the clock do: the collector goes on where it was started
-- with its keys as a daemon whose loop has not ended. Otherwise it exits, with code 0 exactly where
-- it has its keys, libcurl, the database, its schema and statements were there, and the one poll of
-- `--once` did not throw. Then it holds nothing, having given everything back in a permitted order;
-- but `--once` with code 0 has called curl_global_cleanup before the cleanup of its handle.
pub collector_main-HasEnded :
    (atol : Bytes → ℤ) (env_file : Bytes) (env : Environment) (o : Outside) (c : Collector)
    → let k = settings atol (load_env env_file env) in
      HasEnded
        (not (has_no_keys k) && is_waiting o k c)
        o.once
        (not (has_no_keys k) && (is_started o k && returns o.once o k c))
        (collector_main atol env_file env o c)
unfolding collector_main global_init
collector_main-HasEnded atol env_file env o c =
    let k = settings atol (load_env env_file env) in
    let x = try_collect o k (begun o k c, c) in
    let ok = is_started o k && returns o.once o k c in
    main_cases (has_no_keys k) (is_waiting o k c) o.once ok c (exit_with o.once x) (λ w.
      exit_with-HasEnded (is_waiting o k c) o.once ok x.0.0 x.0.1 x.1 w
        (try_collect-EndsWith o k c (begun o k c)) (try_collect-IsBalanced o k c)
        (try_collect-Misuses o k c))
