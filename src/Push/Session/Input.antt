-- ===== src/Push/Session/Input.antt =====
-- An epoll event of a connection: `Server::on_conn` does what the session says.
use mathlib.Core.Path.{subst}
use mathlib.Core.Option
use mathlib.Core.Option.{some-injective, none-ne-some}
use stream_monitor.Prelude.{
  ℕ, suc, ◌≡◌, refl, sym, ap, ◌∙◌, inl, inr, Bool, true, false, List, [], ◌∷◌, ◌++◌, map,
  append-nil, append_assoc, Option, none, some, if-elim, if◌then◌else◌, Option-cases, Bool-cases,
  arith, length, ltb,
}
use stream_monitor.Framing.{Bytes, drain, frame}
use stream_monitor.Framing.Split.{split}
use stream_monitor.Framing.Loop.{run_lines, drain-split, run_lines-preserves}
use stream_monitor.Push.Conn.{
  Conn, Outbound, flush, RecvEnd, drained, closed, broken, Received, buffer, dropped, recv_loop,
  max_line, hup,
}
use stream_monitor.Push.Conn.Flush.{flush-Flushes}
use stream_monitor.Push.Request.{Env, handle_line}
use stream_monitor.Push.Request.Reply.{handle_line-Replies}
use stream_monitor.Push.Request.Answer.{lines-answers}
use stream_monitor.Push.Server.{
  Outcome, keep, close, Ready, on_conn, on_input, on_output, on_received, flushed,
}
use stream_monitor.Push.Session.{
  outcome_of, Session, listen, concat, hear, traced, received_traced, behind, output_traced,
  on_conn_traced,
}

-- What is sent and what waits make up `all`, `rest` is the input that waits, and the last ping was at
-- `last`.
abbrev Adds : Bytes → Bytes → ℕ → Outcome × Bytes → Type 0
Adds all rest last (close why, more) = Unit
Adds all rest last (keep d, more) = (more ++ d.out ≡ all) × (d.in_buf ≡ rest) × (d.last_ping ≡ last)

traced-Adds : (o : Outbound) (c : Conn) → Adds c.out c.in_buf c.last_ping (traced (flush o c))
traced-Adds o c =
    let (e, (_, _, same, _, pinged, _), _) = flush-Flushes o c in
    if-elim (λ x. Adds c.out c.in_buf c.last_ping (x, (flush o c).sent)) (flush o c).alive
      (keep (flush o c).conn) _ (λ _. (e, same, pinged)) (λ _. tt)

behind-Adds :
    (sent all rest : Bytes) (last : ℕ) (r : Outcome × Bytes)
    → Adds all rest last r
    → Adds (sent ++ all) rest last (behind sent r)
behind-Adds sent all rest last (close why, more) h = tt
behind-Adds sent all rest last (keep d, more) (e, b, k) =
    (append_assoc sent more d.out ∙ ap (λ x. sent ++ x) e, b, k)

abbrev MayAdd : Bytes → Bytes → ℕ → Option (Outcome × Bytes) → Type 0
MayAdd all rest last none = Unit
MayAdd all rest last (some r) = Adds all rest last r

output-MayAdd :
    (e : Ready) (all rest : Bytes) (last : ℕ) (r : Option (Outcome × Bytes))
    → MayAdd all rest last r
    → MayAdd all rest last (output_traced e r)
output-MayAdd e all rest last none h = tt
output-MayAdd e all rest last (some (close why, sent)) h = tt
output-MayAdd e all rest last (some (keep c, sent)) (p, b, k) =
    if-elim (Adds all rest last) e.writable _ (keep c, sent)
      (λ _.
        subst (λ x. Adds x rest last (behind sent (traced (flush e.second c)))) p
          (subst (λ x. Adds (sent ++ c.out) x last (behind sent (traced (flush e.second c)))) b
            (subst (λ x. Adds (sent ++ c.out) c.in_buf x (behind sent (traced (flush e.second c))))
              k (behind-Adds sent c.out c.in_buf c.last_ping _ (traced-Adds e.second c)))))
      (λ _. (p, b, k))

-- All that was received, where the connection is not dropped.
abbrev Has : Bytes → Received → Type 0
Has all (dropped why) = Unit
Has all (buffer b) = b ≡ all

recv_loop-Has :
    (cs : List Bytes) (e : RecvEnd) (buf : Bytes) → Has (buf ++ concat cs) (recv_loop cs e buf)
unfolding recv_loop
recv_loop-Has [] drained buf = sym (append-nil buf)
recv_loop-Has [] closed buf = tt
recv_loop-Has [] broken buf = tt
recv_loop-Has (c ∷ cs) e buf =
    if-elim (Has (buf ++ (c ++ concat cs))) (ltb max_line (length (buf ++ c))) _ _ (λ _. tt)
      (λ _.
        subst (λ x. Has x (recv_loop cs e (buf ++ c))) (append_assoc buf c (concat cs))
          (recv_loop-Has cs e (buf ++ c)))

-- A connection with the bytes that its client got, and the session.
abbrev pub Shows : Session → Bytes × Conn → Type 0
Shows s (sent, c) =
    (sent ++ c.out ≡ s.transcript) × (c.in_buf ≡ s.unfinished) × (c.last_ping ≡ s.pinged)

-- The session after an event, where the connection lives on.
abbrev pub Follows : Bytes → Option Session → Option (Outcome × Bytes) → Type 0
Follows sent hs none = Unit
Follows sent hs (some (close why, more)) = Unit
Follows sent hs (some (keep d, more)) = (s : Session) × (hs ≡ some s) × Shows s (sent ++ more, d)

MayAdd-Follows :
    (sent all rest : Bytes) (last : ℕ) (s : Session) (hs : Option Session)
    (r : Option (Outcome × Bytes))
    → hs ≡ some s
    → sent ++ all ≡ s.transcript
    → rest ≡ s.unfinished
    → last ≡ s.pinged
    → MayAdd all rest last r
    → Follows sent hs r
MayAdd-Follows sent all rest last s hs none h p q l k = tt
MayAdd-Follows sent all rest last s hs (some (close why, more)) h p q l k = tt
MayAdd-Follows sent all rest last s hs (some (keep d, more)) h p q l (e, b, j) =
    (s, h, (append_assoc sent more d.out ∙ ap (λ x. sent ++ x) e ∙ p, b ∙ q, j ∙ l))

lines-last_ping :
    (env : Env) (now clients : ℕ) (ls : List Bytes) (c : Conn) {d : Conn}
    → run_lines (handle_line env now clients) ls c ≡ some d
    → d.last_ping ≡ c.last_ping
lines-last_ping env now clients ls c e =
    run_lines-preserves (handle_line env now clients) (λ d. d.last_ping ≡ c.last_ping)
      (λ s s' l p q. ap (λ x. x.last_ping) (handle_line-Replies env now clients s l q).1 ∙ p) ls c
      refl e

module _ (env : Env) (now clients : ℕ) where
  lines-Follows :
      (e : Ready) (c : Conn) (sent : Bytes) (s : Session) (buf : Bytes)
      → Shows s (sent, c)
      → buf ≡ s.unfinished ++ concat e.input.chunks
      → Follows sent
          (listen env now clients (concat e.input.chunks) s)
          (output_traced e (received_traced env now clients e.first c (buffer buf)))
  unfolding listen
  lines-Follows e c sent s buf (p, q, l) h =
      elim (Option-cases (run_lines (handle_line env now clients) (split buf).0 c)) [
        | inl n ↦
            rw (drain-split (handle_line env now clients) (suc (length buf)) buf c (omega arith), n)
              tt
        | inr (d, n) ↦
            let (js, a, out) = lines-answers env now clients (split buf).0 c n in
            let after : Conn = record d { in_buf = (split buf).1 } in
            let said : Bytes = frame (map env.write js) in
            rw (drain-split (handle_line env now clients) (suc (length buf)) buf c (omega arith), n)
              (MayAdd-Follows sent d.out (split buf).1 d.last_ping
                (record s { unfinished = (split buf).1; transcript = s.transcript ++ said }) _ _
                (rw (sym h, a) refl)
                (ap (λ x. sent ++ x) out
                  ∙ sym (append_assoc sent c.out said)
                  ∙ ap (λ x. x ++ said) p)
                refl (lines-last_ping env now clients (split buf).0 c n ∙ l)
                (output-MayAdd e d.out (split buf).1 d.last_ping
                  (some (traced (flush e.first after))) (traced-Adds e.first after)))
      ]

  pub on_conn_traced-Follows :
      (e : Ready) (c : Conn) (sent : Bytes) (s : Session)
      → Shows s (sent, c)
      → Follows sent (hear env now clients e s) (on_conn_traced env now clients e c)
  unfolding on_conn_traced hear
  on_conn_traced-Follows e c sent s h =
      if-elim (Follows sent (hear env now clients e s)) e.hung_up (some (close hup, [])) _ (λ _. tt)
        (λ _. elim (Bool-cases e.readable) [
          | inr n ↦ rw n (
              MayAdd-Follows sent c.out c.in_buf c.last_ping s (some s)
                (output_traced e (some (keep c, []))) refl h.0 h.1 h.2
                (output-MayAdd e c.out c.in_buf c.last_ping (some (keep c, [])) (refl, refl, refl)))
          | inl r ↦ rw r (
              received_Follows (recv_loop e.input.chunks e.input.ending c.in_buf)
                (recv_loop-Has e.input.chunks e.input.ending c.in_buf))
        ])
    where
      received_Follows :
          (r : Received)
          → Has (c.in_buf ++ concat e.input.chunks) r
          → Follows sent
              (listen env now clients (concat e.input.chunks) s)
              (output_traced e (received_traced env now clients e.first c r))
      received_Follows (dropped why) k = tt
      received_Follows (buffer buf) k =
          lines-Follows e c sent s buf h (k ∙ ap (λ x. x ++ concat e.input.chunks) h.1)

-- The trace leaves the outcome as it is.
output_traced_outcome :
    (e : Ready) (r : Option (Outcome × Bytes))
    → Option.map outcome_of (output_traced e r) ≡ on_output e (Option.map outcome_of r)
output_traced_outcome e none = refl
output_traced_outcome e (some (close why, sent)) = refl
output_traced_outcome e (some (keep c, sent)) =
    if-elim
      (λ b.
        Option.map outcome_of (some b)
        ≡ some (if e.writable then flushed (flush e.second c) else keep c))
      e.writable _ _ (λ w. rw w refl) (λ w. rw w refl)

received_traced_outcome :
    (env : Env) (now clients : ℕ) (o : Outbound) (c : Conn) (r : Received)
    → Option.map outcome_of (received_traced env now clients o c r)
      ≡ on_received env now clients o c r
received_traced_outcome env now clients o c (dropped why) = refl
received_traced_outcome env now clients o c (buffer buf) =
    elim (Option-cases (drain (suc (length buf)) (handle_line env now clients) buf c)) [
      | inl n ↦ rw n refl
      | inr ((d, rest), n) ↦ rw n refl
    ]

map-if :
    (b : Bool) (x y : Option (Outcome × Bytes))
    → Option.map outcome_of (if b then x else y)
      ≡ (if b then Option.map outcome_of x else Option.map outcome_of y)
map-if true x y = refl
map-if false x y = refl

pub on_conn_traced_outcome :
    (env : Env) (now clients : ℕ) (e : Ready) (c : Conn)
    → Option.map outcome_of (on_conn_traced env now clients e c) ≡ on_conn env now clients e c
unfolding on_conn_traced on_conn on_input
on_conn_traced_outcome env now clients e c =
    let input =
      received_traced env now clients e.first c
        (recv_loop e.input.chunks e.input.ending c.in_buf) in
    map-if e.hung_up (some (close hup, []))
      (output_traced e (if e.readable then input else some (keep c, [])))
    ∙ ap (λ z. if e.hung_up then some (close hup) else z)
        (output_traced_outcome e (if e.readable then input else some (keep c, []))
          ∙ ap (on_output e) (
              map-if e.readable input (some (keep c, []))
              ∙ ap (λ z. if e.readable then z else some (keep c))
                  (received_traced_outcome env now clients e.first c
                    (recv_loop e.input.chunks e.input.ending c.in_buf))))
