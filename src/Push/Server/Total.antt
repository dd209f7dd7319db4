-- ===== src/Push/Server/Total.antt =====
-- Exceptions out of the event loop.
use mathlib.Core.Option
use mathlib.Core.Option.{none-ne-some}
use stream_monitor.Prelude.{
  ℕ, ◌≢◌, refl, sym, inl, inr, Bool-cases, Option-cases, List, [], ◌∷◌, Option, none, some, All,
  length,
}
use stream_monitor.Prelude.Maps.{find}
use stream_monitor.Push.Conn.{Conn, Outbound, Received, buffer, dropped, recv_loop}
use stream_monitor.Push.Request.{Env}
use stream_monitor.Push.Request.Window.{IsLimited}
use stream_monitor.Push.Request.Lines.{drain-answered}
use stream_monitor.Push.Server.{
  Server, Outcome, keep, close, on_received, on_input, Ready, on_output, on_conn, settle, Event,
  accepted, ticked, signalled, ready, asked, handle_event, handle_events, Wait, events, interrupted,
  wait_failed, handle_wait, run_loop,
}

on_received-ne-none :
    (env : Env) (now clients : ℕ) (o : Outbound) (c : Conn) (r : Received)
    → IsLimited env.queries
    → on_received env now clients o c r ≢ none
on_received-ne-none env now clients o c (dropped why) q e = none-ne-some _ (sym e)
on_received-ne-none env now clients o c (buffer buf) q e =
    let (d, js, r, k, a) = drain-answered env now clients buf c q in
    none-ne-some _ (sym (rw r at e))

on_output-ne-none : (e : Ready) (r : Option Outcome) → r ≢ none → on_output e r ≢ none
on_output-ne-none e none h p = h refl
on_output-ne-none e (some (keep c)) h p = none-ne-some _ (sym p)
on_output-ne-none e (some (close why)) h p = none-ne-some _ (sym p)

on_conn-ne-none :
    (env : Env) (now clients : ℕ) (e : Ready) (c : Conn)
    → IsLimited env.queries
    → on_conn env now clients e c ≢ none
unfolding on_conn on_input
on_conn-ne-none env now clients e c q = elim (Bool-cases e.hung_up) [
  | inl h ↦ rw (on_conn, h) (λ p. none-ne-some _ (sym p))
  | inr h ↦ elim (Bool-cases e.readable) [
    | inl r ↦
        rw (on_conn, h, r)
          (on_output-ne-none e _ (
            on_received-ne-none env now clients e.first c
              (recv_loop e.input.chunks e.input.ending c.in_buf) q))
    | inr r ↦ rw (on_conn, h, r) (on_output-ne-none e (some (keep c)) (λ p. none-ne-some _ (sym p)))
  ]
]

settled-ne-none :
    (fd : ℕ) (s : Server) (r : Option Outcome) → r ≢ none → Option.map (settle fd s) r ≢ none
settled-ne-none fd s none h p = h refl
settled-ne-none fd s (some o) h p = none-ne-some _ (sym p)

-- The queries throw on no window of 0 to 30 days while the event is handled.
abbrev pub EventLimited : ℕ × Event → Type 0
EventLimited (now, ready fd q e) = IsLimited q
EventLimited (now, _) = Unit

abbrev pub AreLimited : Wait → Type 0
AreLimited (events es) = All EventLimited es
AreLimited _ = Unit

handle_event-ne-none :
    (env : Env) (now : ℕ) (e : Event) (s : Server)
    → EventLimited (now, e)
    → handle_event env now e s ≢ none
unfolding handle_event
handle_event-ne-none env now (accepted fds) s h = λ p. none-ne-some _ (sym p)
handle_event-ne-none env now (ticked sends) s h = λ p. none-ne-some _ (sym p)
handle_event-ne-none env now signalled s h = λ p. none-ne-some _ (sym p)
handle_event-ne-none env now (ready fd q e) s h = elim (Option-cases (find fd s.conns)) [
  | inl n ↦ rw (handle_event, n) (λ p. none-ne-some _ (sym p))
  | inr (c, n) ↦
      rw (handle_event, n)
        (settled-ne-none fd s _ (on_conn-ne-none (asked env q) now (length s.conns) e c h))
]

handle_events-ne-none :
    (env : Env) (es : List (ℕ × Event)) (s : Server)
    → All EventLimited es
    → handle_events env es s ≢ none
unfolding handle_events
handle_events-ne-none env [] s h = λ p. none-ne-some _ (sym p)
handle_events-ne-none env ((now, e) ∷ es) s h = elim (Option-cases (handle_event env now e s)) [
  | inl n ↦ absurd (handle_event-ne-none env now e s h.0 n)
  | inr (t, n) ↦ rw (handle_events, n) (handle_events-ne-none env es t h.1)
]

handle_wait-ne-none :
    (env : Env) (w : Wait) (s : Server)
    → AreLimited w
    → w ≢ wait_failed
    → handle_wait env w s ≢ none
handle_wait-ne-none env (events es) s q h = handle_events-ne-none env es s q
handle_wait-ne-none env interrupted s q h = λ p. none-ne-some _ (sym p)
handle_wait-ne-none env wait_failed s q h = absurd (h refl)

-- Where in no event the queries throw on a window of 0 to 30 days and no wait fails but by an
-- interrupt, the event loop never throws, whatever the peers send and however the sockets fail. The
-- database may answer every event differently.
pub run_loop-ne-none :
    (env : Env) (ws : List Wait) (s : Server)
    → All AreLimited ws
    → All (λ w. w ≢ wait_failed) ws
    → run_loop env ws s ≢ none
unfolding run_loop
run_loop-ne-none env [] s q h = λ p. none-ne-some _ (sym p)
run_loop-ne-none env (w ∷ ws) s q h = elim (Bool-cases s.stop) [
  | inl b ↦ rw (run_loop, b) (λ p. none-ne-some _ (sym p))
  | inr b ↦ elim (Option-cases (handle_wait env w s)) [
    | inl n ↦ absurd (handle_wait-ne-none env w s q.0 h.0 n)
    | inr (t, n) ↦ rw (run_loop, b, n) (run_loop-ne-none env ws t q.1 h.1)
  ]
]
