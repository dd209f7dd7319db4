-- ===== src/Push/Server/Run.antt =====
-- The event loop: its invariant, and how it ends.
use mathlib.Core.Option
use mathlib.Core.Option.{some-injective, none-ne-some}
use mathlib.Core.Path.{subst}
use stream_monitor.Prelude.{
  ℕ, ◌≡◌, refl, sym, ◌∙◌, inl, inr, List, [], ◌∷◌, Option, none, some, arith, Bool-cases,
  Option-cases, length,
}
use stream_monitor.Prelude.Maps.{
  find, insert-IsOrdered, erase-IsOrdered, update-IsOrdered, find-All, insert-All, erase-All,
  update-All, All-of_find,
}
use stream_monitor.Framing.{Bytes}
use stream_monitor.Push.Conn.{Conn, Outbound}
use stream_monitor.Push.Request.{Env}
use stream_monitor.Push.Server.{
  Server, Outcome, settle, accept_all, tick_conn, on_tick, Event, accepted, ticked, signalled,
  ready, asked, handle_event, handle_events, Wait, events, interrupted, wait_failed, handle_wait,
  run_loop,
}
use stream_monitor.Push.Server.Invariant.{
  ConnInv, EntryInv, Inv, Keeps, thrown, shut, kept, on_conn-Keeps, tick_conn-ConnInv,
}
use stream_monitor.Push.Server.Tick.{find-on_tick, on_tick-IsOrdered, survivor}

accept_all-Inv :
    (now : ℕ) (fds : List (ℕ × Bytes)) (s : Server) → Inv s → Inv (accept_all now fds s)
unfolding accept_all
accept_all-Inv now [] s v = v
accept_all-Inv now ((fd, peer) ∷ rest) s v = accept_all-Inv now rest _ (record {
  ordered = insert-IsOrdered fd _ s.conns v.ordered;
  entries =
      insert-All EntryInv fd _ s.conns
        (record {
          same_fd = refl;
          line = tt;
          line_bounded = omega arith;
          watched = record { bounded = omega arith; watched = λ h. absurd (h refl) };
        })
        v.entries;
})

on_tick-Inv :
    (env : Env) (now : ℕ) (sends : ℕ → Outbound) (s : Server)
    → Inv s
    → Inv (on_tick env now sends s)
on_tick-Inv env now sends s v = record {
  ordered = on_tick-IsOrdered env now sends s v.ordered;
  entries = All-of_find EntryInv _ (on_tick-IsOrdered env now sends s v.ordered) λ k d e.
      surviving k d (find k s.conns) refl (sym (find-on_tick env now sends k s v.ordered) ∙ e);
}
  where
    surviving :
        (k : ℕ) (d : Conn) (o : Option Conn)
        → find k s.conns ≡ o
        → survivor env now sends k o ≡ some d
        → ConnInv k d
    surviving k d none f e = absurd (none-ne-some _ e)
    surviving k d (some c) f e = elim (Bool-cases (tick_conn env now (sends k) c).1) [
      | inl g ↦ absurd (none-ne-some _ (rw (g, survivor) at e))
      | inr g ↦
          subst (ConnInv k) (some-injective _ _ (rw (g, survivor) at e))
            (tick_conn-ConnInv env now k (sends k) c (find-All EntryInv k s.conns f v.entries) g)
    ]

settle-Inv :
    (fd : ℕ) (s : Server) {r : Option Outcome} {t : Server}
    → Inv s
    → Keeps (ConnInv fd) r
    → Option.map (settle fd s) r ≡ some t
    → Inv t
settle-Inv fd s v thrown e = absurd (none-ne-some _ e)
settle-Inv fd s v shut e = subst Inv (some-injective _ _ e) (record {
  ordered = erase-IsOrdered fd s.conns v.ordered;
  entries = erase-All EntryInv fd s.conns v.entries;
})
settle-Inv fd s v (kept {c} h) e = subst Inv (some-injective _ _ e) (record {
  ordered = update-IsOrdered fd c s.conns v.ordered;
  entries = update-All EntryInv fd c s.conns h v.entries;
})

-- Every event keeps the invariant, whatever the peers send and the kernel answers.
pub handle_event-Inv :
    (env : Env) (now : ℕ) (e : Event) (s : Server) {t : Server}
    → Inv s
    → handle_event env now e s ≡ some t
    → Inv t
unfolding handle_event
handle_event-Inv env now (accepted fds) s v e =
    subst Inv (some-injective _ _ e) (accept_all-Inv now fds s v)
handle_event-Inv env now (ticked sends) s v e =
    subst Inv (some-injective _ _ e) (on_tick-Inv env now sends s v)
handle_event-Inv env now signalled s v e =
    subst Inv (some-injective _ _ e) (record { ordered = v.ordered; entries = v.entries })
handle_event-Inv env now (ready fd q r) s v e = elim (Option-cases (find fd s.conns)) [
  | inl n ↦ subst Inv (some-injective _ _ (rw (n, handle_event) at e)) v
  | inr (c, n) ↦
      settle-Inv fd s v
        (on_conn-Keeps (asked env q) now (length s.conns) fd r c
          (find-All EntryInv fd s.conns n v.entries))
        (rw (n, handle_event) at e)
]

handle_events-Inv :
    (env : Env) (es : List (ℕ × Event)) (s : Server) {t : Server}
    → Inv s
    → handle_events env es s ≡ some t
    → Inv t
unfolding handle_events
handle_events-Inv env [] s v e = subst Inv (some-injective _ _ e) v
handle_events-Inv env ((now, ev) ∷ es) s v e = elim (Option-cases (handle_event env now ev s)) [
  | inl n ↦ absurd (none-ne-some _ (rw (n, handle_events) at e))
  | inr (s', n) ↦
      handle_events-Inv env es s' (handle_event-Inv env now ev s v n) (rw (n, handle_events) at e)
]

handle_wait-Inv :
    (env : Env) (w : Wait) (s : Server) {t : Server} → Inv s → handle_wait env w s ≡ some t → Inv t
handle_wait-Inv env (events es) s v e = handle_events-Inv env es s v e
handle_wait-Inv env interrupted s v e = subst Inv (some-injective _ _ e) v
handle_wait-Inv env wait_failed s v e = absurd (none-ne-some _ e)

-- The event loop keeps the invariant over all that its waits return: the map is in order, each
-- connection stands under its own descriptor, holds an unfinished line of at most 64 KB, and has
-- at most 4 MB of output, which is watched by EPOLLOUT if there is any.
pub run_loop-Inv :
    (env : Env) (ws : List Wait) (s : Server) {t : Server}
    → Inv s
    → run_loop env ws s ≡ some t
    → Inv t
unfolding run_loop
run_loop-Inv env [] s v e = subst Inv (some-injective _ _ e) v
run_loop-Inv env (w ∷ ws) s v e = elim (Bool-cases s.stop) [
  | inl b ↦ subst Inv (some-injective _ _ (rw (b, run_loop) at e)) v
  | inr b ↦ elim (Option-cases (handle_wait env w s)) [
    | inl n ↦ absurd (none-ne-some _ (rw (b, n, run_loop) at e))
    | inr (s', n) ↦ run_loop-Inv env ws s' (handle_wait-Inv env w s v n) (rw (b, n, run_loop) at e)
  ]
]
