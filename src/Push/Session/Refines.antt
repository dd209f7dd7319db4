-- ===== src/Push/Session/Refines.antt =====
-- A connection over its epoll events and the ticks of the timer does what its session says.
use mathlib.Core.Path.{subst}
use mathlib.Core.Option
use mathlib.Core.Option.{some-injective, none-ne-some}
use stream_monitor.Prelude.{
  ℕ, ◌≡◌, refl, sym, ap, ◌∙◌, Bool, true, false, List, [], ◌∷◌, ◌++◌, append-nil, append_assoc,
  Option, none, some, if-elim, if◌then◌else◌, arith, ltb, leb, not, ◌&&◌, ◌+◌,
}
use stream_monitor.Framing.{Bytes, frame}
use stream_monitor.Push.Conn.{
  Conn, Outbound, Flushed, flush, send_json, hello_timeout, ping_interval,
}
use stream_monitor.Push.Conn.Flush.{flush-Flushes}
use stream_monitor.Json.{codes}
use stream_monitor.Push.Request.{Env, type_member}
use stream_monitor.Push.Server.{Outcome, keep, close, tick_conn}
use stream_monitor.Push.Session.{
  outcome_of, sent_of, serve, Session, hear, hear_all, Moment, arrived, ticked, ping, ping_doc,
  hear_one, tick_traced, survivor, kept, meet, sent_in,
}
use stream_monitor.Push.Session.Input.{
  Shows, Follows, on_conn_traced-Follows, on_conn_traced_outcome,
}

-- ── the ticks ──
-- A connection that a tick keeps shows the session.
abbrev Ticks : Bytes → Session → (Conn × Bool) × Bytes → Type 0
Ticks sent s ((c, true), more) = Unit
Ticks sent s ((c, false), more) = Shows s (sent ++ more, c)

pinged-Ticks :
    (sent : Bytes) (s : Session) (f : Flushed) (d : Conn)
    → f.sent ++ f.conn.out ≡ d.out
    → f.conn.in_buf ≡ d.in_buf
    → f.conn.last_ping ≡ d.last_ping
    → Shows s (sent, d)
    → (gone : Bool) → Ticks sent s ((f.conn, gone), f.sent)
pinged-Ticks sent s f d e b l h true = tt
pinged-Ticks sent s f d e b l (p, q, k) false =
    (append_assoc sent f.sent f.conn.out ∙ ap (λ x. sent ++ x) e ∙ p, b ∙ q, l ∙ k)

tick_traced-Ticks :
    (env : Env) (now : ℕ) (o : Outbound) (c : Conn) (sent : Bytes) (s : Session)
    → Shows s (sent, c)
    → Ticks sent (ping env now s) (tick_traced env now o c)
unfolding tick_traced ping send_json frame
tick_traced-Ticks env now o c sent s (p, q, l) =
    if-elim (Ticks sent (ping env now s)) (not c.hello && ltb (c.opened_at + hello_timeout) now) _ _
      (λ _. tt)
      (λ _.
        subst
          (λ at.
            Ticks sent (if leb (at + 30) now then pinged else s)
              (if leb (c.last_ping + ping_interval) now then due else ((c, false), [])))
          l (by_time (leb (c.last_ping + ping_interval) now)))
  where
    said : Conn
    said = record (send_json env.write c (type_member (codes "ping")) none) { last_ping = now }

    pinged : Session
    pinged = record s { transcript = s.transcript ++ frame (env.write ping_doc ∷ []); pinged = now }

    due : (Conn × Bool) × Bytes
    due = (((flush o said).conn, not (flush o said).alive), (flush o said).sent)

    by_time :
        (b : Bool) → Ticks sent (if b then pinged else s) (if b then due else ((c, false), []))
    by_time false = (ap (λ x. x ++ c.out) (append-nil sent) ∙ p, q, l)
    by_time true =
        let (e, (_, _, same, _, last, _), _) = flush-Flushes o said in
        pinged-Ticks sent pinged (flush o said) said e same last
          (
            sym (append_assoc sent c.out _) ∙ ap (λ x. x ++ frame (env.write ping_doc ∷ [])) p,
            q,
            refl,
          )
          (not (flush o said).alive)

-- The trace leaves the connection as it is.
tick_traced_conn :
    (env : Env) (now : ℕ) (o : Outbound) (c : Conn)
    → (tick_traced env now o c).0 ≡ tick_conn env now o c
unfolding tick_traced tick_conn
tick_traced_conn env now o c = ground arith

-- ── the whole ──
-- The session behind a moment, where the connection lives on.
abbrev Goes : Bytes → Option Session → Option Conn → Type 0
Goes sent hs none = Unit
Goes sent hs (some d) = (s : Session) × (hs ≡ some s) × Shows s (sent, d)

Follows-Goes :
    (sent : Bytes) (hs : Option Session) (r : Option (Outcome × Bytes))
    → Follows sent hs r
    → Goes (sent ++ sent_of r) hs (kept (Option.map outcome_of r))
Follows-Goes sent hs none h = tt
Follows-Goes sent hs (some (close why, more)) h = tt
Follows-Goes sent hs (some (keep d, more)) h = h

Ticks-Goes :
    (sent : Bytes) (s : Session) (r : (Conn × Bool) × Bytes)
    → Ticks sent s r
    → Goes (sent ++ r.1) (some s) (survivor r.0)
Ticks-Goes sent s ((c, true), more) h = tt
Ticks-Goes sent s ((c, false), more) h = (s, refl, h)

meet-Goes :
    (m : Moment) (c : Conn) (sent : Bytes) (s : Session)
    → Shows s (sent, c)
    → Goes (sent ++ sent_in m c) (hear_one m s) (meet m c)
meet-Goes (arrived env now clients e) c sent s h =
    subst
      (λ x.
        Goes (sent ++ sent_in (arrived env now clients e) c) (hear env now clients e s) (kept x))
      (on_conn_traced_outcome env now clients e c)
      (Follows-Goes sent _ _ (on_conn_traced-Follows env now clients e c sent s h))
meet-Goes (ticked env now o) c sent s h =
    subst (λ x. Goes (sent ++ (tick_traced env now o c).1) (some (ping env now s)) (survivor x))
      (tick_traced_conn env now o c) (Ticks-Goes sent _ _ (tick_traced-Ticks env now o c sent s h))

serve_rest :
    (m : Moment) (ms : List Moment) (c : Conn) (sent : Bytes) (s : Session) {q : Bytes × Conn}
    → ((d : Conn) (s' : Session)
        → Shows s' (sent ++ sent_in m c, d)
        → serve ms (sent ++ sent_in m c, d) ≡ some q
        → (t : Session) × (hear_all ms s' ≡ some t) × Shows t q)
    → (r : Option Conn)
    → elim r [ none ↦ none | some d ↦ serve ms (sent ++ sent_in m c, d) ] ≡ some q
    → Goes (sent ++ sent_in m c) (hear_one m s) r
    → (t : Session) × (hear_all (m ∷ ms) s ≡ some t) × Shows t q
unfolding hear_all
serve_rest m ms c sent s rec none k g = absurd (none-ne-some _ k)
serve_rest m ms c sent s rec (some d) k (s', heard, shown) =
    let (t, all, at_end) = rec d s' shown k in (t, rw (hear_all, heard) all, at_end)

-- Over any epoll events and ticks of a connection that none of them closes, with a database that may
-- answer each of them differently: what its client was sent and what waits for it are the transcript
-- of the session, which answers the lines that the client wrote and pings it 30 seconds after the last
-- ping, whatever the pieces in which the bytes came and went; and the input that waits is the
-- unfinished line of the session. It holds from a state where it does, as that of a new connection.
pub serve-Shows :
    (ms : List Moment) (sent : Bytes) (c : Conn) (s : Session) {q : Bytes × Conn}
    → Shows s (sent, c)
    → serve ms (sent, c) ≡ some q
    → (t : Session) × (hear_all ms s ≡ some t) × Shows t q
unfolding serve hear_all
serve-Shows [] sent c s h e = (s, refl, subst (Shows s) (some-injective _ _ e) h)
serve-Shows (m ∷ ms) sent c s {q = q} h e =
    serve_rest m ms c sent s (λ d s'. serve-Shows ms (sent ++ sent_in m c) d s') (meet m c) e
      (meet-Goes m c sent s h)
