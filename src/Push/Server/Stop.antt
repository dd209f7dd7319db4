-- ===== src/Push/Server/Stop.antt =====
-- How the event loop ends: a signal, and `bye`.
use mathlib.Core.Option
use mathlib.Core.Option.{some-injective, none-ne-some}
use stream_monitor.Prelude.{
  ℕ, ◌≡◌, refl, sym, ◌∙◌, ap, true, false, ◌⊎◌, inl, inr, List, [], ◌∷◌, ◌++◌, Option, none, some,
  arith, Bool-cases, Option-cases, ◌==◌,
}
use stream_monitor.Prelude.Maps.{find}
use stream_monitor.Framing.{Bytes}
use stream_monitor.Json.{codes, object}
use stream_monitor.Push.Conn.{Conn, Outbound, Flushed, send_json}
use stream_monitor.Push.Conn.Flush.{flush-Flushes}
use stream_monitor.Push.Request.{Env, type_member}
use stream_monitor.Push.Server.{
  Server, Outcome, keep, close, settle, accept_all, on_tick, Event, accepted, ticked, signalled,
  ready, handle_event, handle_events, Wait, events, handle_wait, run_loop, shutdown, say_bye,
}

settle-stop : (fd : ℕ) (s : Server) (o : Outcome) → (settle fd s o).stop ≡ s.stop
settle-stop fd s (keep c) = refl
settle-stop fd s (close why) = refl

accept_all-stop :
    (now : ℕ) (fds : List (ℕ × Bytes)) (s : Server) → (accept_all now fds s).stop ≡ s.stop
unfolding accept_all
accept_all-stop now [] s = refl
accept_all-stop now ((fd, peer) ∷ rest) s = accept_all-stop now rest _

settled-stop :
    (fd : ℕ) (s : Server) (r : Option Outcome) {t : Server}
    → Option.map (settle fd s) r ≡ some t
    → t.stop ≡ s.stop
settled-stop fd s none e = absurd (none-ne-some _ e)
settled-stop fd s (some o) e = ap (λ x. x.stop) (sym (some-injective _ _ e)) ∙ settle-stop fd s o

-- No event but a signal touches the flag.
handle_event-stop :
    (env : Env) (now : ℕ) (e : Event) (s : Server) {t : Server}
    → handle_event env now e s ≡ some t
    → (t.stop ≡ s.stop) ⊎ (t.stop ≡ true)
unfolding handle_event on_tick
handle_event-stop env now (accepted fds) s e = ground (arith, accept_all-stop now fds s)
handle_event-stop env now (ticked sends) s e = ground arith
handle_event-stop env now signalled s e = ground arith
handle_event-stop env now (ready fd q r) s e = elim (Option-cases (find fd s.conns)) [
  | inl n ↦ inl (ap (λ x. x.stop) (sym (some-injective _ _ (rw (n, handle_event) at e))))
  | inr (c, n) ↦ inl (settled-stop fd s _ (rw (n, handle_event) at e))
]

handle_events-stop :
    (env : Env) (es : List (ℕ × Event)) (s : Server) {t : Server}
    → s.stop ≡ true
    → handle_events env es s ≡ some t
    → t.stop ≡ true
unfolding handle_events
handle_events-stop env [] s b e = ground arith
handle_events-stop env ((now, ev) ∷ es) s b e = elim (Option-cases (handle_event env now ev s)) [
  | inl n ↦ absurd (none-ne-some _ (rw (n, handle_events) at e))
  | inr (s', n) ↦
      handle_events-stop env es s' (ground (arith, handle_event-stop env now ev s n))
        (rw (n, handle_events) at e)
]

-- A signal stands among the events.
abbrev pub HasSignal : List (ℕ × Event) → Type 0
HasSignal [] = ⊥
HasSignal ((now, signalled) ∷ es) = Unit
HasSignal ((now, _) ∷ es) = HasSignal es

handle_event-signalled :
    (env : Env) (now : ℕ) (s : Server)
    → handle_event env now signalled s ≡ some (record s { stop = true })
unfolding handle_event
handle_event-signalled env now s = refl

signal-stop :
    (env : Env) (es : List (ℕ × Event)) (s : Server) {t : Server}
    → HasSignal es
    → handle_events env es s ≡ some t
    → t.stop ≡ true
unfolding handle_events
signal-stop env [] s h e = absurd h
signal-stop env ((now, signalled) ∷ es) s h e =
    handle_events-stop env es (record s { stop = true }) refl
      (rw (handle_event-signalled env now s, handle_events) at e)
signal-stop env ((now, ev) ∷ es) s h e = elim (Option-cases (handle_event env now ev s)) [
  | inl n ↦ absurd (none-ne-some _ (rw (n, handle_events) at e))
  | inr (s', n) ↦ signal-stop env es s' h (rw (n, handle_events) at e)
]

stopped : (env : Env) (ws : List Wait) (s : Server) → s.stop ≡ true → run_loop env ws s ≡ some s
unfolding run_loop
stopped env [] s b = refl
stopped env (w ∷ ws) s b = ground arith

abbrev rest_of_run : Env → List Wait → Option Server → Option Server
rest_of_run env ws none = none
rest_of_run env ws (some s) = run_loop env ws s

running :
    (env : Env) (w : Wait) (ws : List Wait) (s : Server)
    → s.stop ≡ false
    → run_loop env (w ∷ ws) s ≡ rest_of_run env ws (handle_wait env w s)
unfolding run_loop
running env w ws s b = ground arith

-- The wait that brings a signal is the last one: its events are handled to the end, those behind
-- the signal too, and whatever later waits would bring makes no difference.
pub run_loop-signal :
    (env : Env) (es : List (ℕ × Event)) (ws : List Wait) (s : Server)
    → s.stop ≡ false
    → HasSignal es
    → run_loop env (events es ∷ ws) s ≡ handle_events env es s
run_loop-signal env es ws s b h = elim (Option-cases (handle_events env es s)) [
  | inl n ↦ running env (events es) ws s b ∙ rw n
  | inr (t, n) ↦ running env (events es) ws s b ∙ rw n (stopped env ws t (signal-stop env es s h n))
]

abbrev pub bye_line : Env → Bytes
bye_line env = env.write (object (type_member (codes "bye"))) ++ b'\n' ∷ []

say_bye-sent :
    (env : Env) (o : Outbound) (c : Conn)
    → (say_bye env o c).sent ++ (say_bye env o c).conn.out ≡ c.out ++ bye_line env
unfolding send_json
say_bye-sent env o c = (flush-Flushes o (send_json env.write c (type_member (codes "bye")) none)).0

-- At the end every connection is told so: behind the output that waits comes `bye`, of which
-- nothing is lost between what is sent and what stays in the buffer.
pub shutdown-bye :
    (env : Env) (sends : ℕ → Outbound) (m : List (ℕ × Conn)) (k : ℕ) (c : Conn)
    → find k m ≡ some c
    → (f : Flushed) × (find k (shutdown env sends m) ≡ some f)
      × (f.sent ++ f.conn.out ≡ c.out ++ bye_line env)
unfolding find shutdown
shutdown-bye env sends [] k c e = absurd (none-ne-some _ e)
shutdown-bye env sends ((j, d) ∷ m) k c e = elim (Bool-cases (j == k)) [
  | inl t ↦ (
    say_bye env (sends j) d,
    rw t,
    say_bye-sent env (sends j) d ∙ ap (λ x. x.out ++ bye_line env) (some-injective _ _ (rw t at e)),
  )
  | inr t ↦ rw t (shutdown-bye env sends m k c (rw t at e))
]
