-- ===== src/Push/Server/Invariant.antt =====
-- What holds of every connection between two events.
use mathlib.Core.Path.{subst}
use stream_monitor.Prelude.{
  ℕ, suc, ap, ◌∙◌, ◌++◌, ◌≤◌, ◌≡◌, refl, sym, Bool, true, false, inl, inr, List, [], ◌∷◌, Option,
  none, some, arith, All, length, ltb, leb, not, ◌&&◌, ◌+◌, if-elim, Bool-cases, Option-cases,
}
use stream_monitor.Prelude.Maps.{IsOrdered}
use stream_monitor.Framing.{Bytes}
use stream_monitor.Framing.Split.{split, IsLine, split-IsLine, split-length-le}
use stream_monitor.Framing.Loop.{run_lines, drain-split, run_lines-preserves}
use stream_monitor.Push.Conn.{
  Conn, Why, max_line, hello_timeout, ping_interval, send_json, Outbound, Flushed, flush, RecvEnd,
  drained, closed, broken, Inbound, Received, buffer, dropped, recv_loop,
}
use stream_monitor.Push.Conn.Flush.{IsWatched, flush-Flushes}
use stream_monitor.Push.Request.{Env, handle_line}
use stream_monitor.Push.Request.Reply.{handle_line-Replies}
use stream_monitor.Push.Server.{
  Server, Outcome, keep, close, flushed, on_received, on_input, Ready, on_output, on_conn,
  tick_conn,
}

-- A connection under its own descriptor: an unfinished line of at most 64 KB, and output that is
-- within 4 MB and watched.
pub record ConnInv (fd : ℕ) (c : Conn) : Type 0 where
  pub same_fd : c.fd ≡ fd
  pub line : IsLine c.in_buf
  pub line_bounded : length c.in_buf ≤ max_line
  pub watched : IsWatched c

abbrev pub EntryInv : ℕ × Conn → Type 0
EntryInv p = ConnInv p.0 p.1

pub record Inv (s : Server) : Type 0 where
  pub ordered : IsOrdered s.conns
  pub entries : All EntryInv s.conns

recv_loop-le :
    (cs : List Bytes) (e : RecvEnd) (buf out : Bytes)
    → length buf ≤ max_line
    → recv_loop cs e buf ≡ buffer out
    → length out ≤ max_line
unfolding recv_loop
recv_loop-le [] drained buf out h e = ground arith
recv_loop-le [] closed buf out h e = cc
recv_loop-le [] broken buf out h e = cc
recv_loop-le (c ∷ cs) end buf out h e = ground (arith, recv_loop-le cs end (buf ++ c) out)

lines-fd :
    (env : Env) (now clients : ℕ) (ls : List Bytes) (c : Conn) {d : Conn}
    → run_lines (handle_line env now clients) ls c ≡ some d
    → d.fd ≡ c.fd
lines-fd env now clients ls c e =
    run_lines-preserves (handle_line env now clients) (λ d. d.fd ≡ c.fd)
      (λ s s' l p q. ap (λ x. x.fd) (handle_line-Replies env now clients s l q).1 ∙ p) ls c refl e

-- What is said of the connection that an outcome keeps.
pub data Keeps (P : Conn → Type 0) : Option Outcome → Type 0 where
  thrown : Keeps P none
  shut : {why : Why} → Keeps P (some (close why))
  kept : {c : Conn} → P c → Keeps P (some (keep c))

flushed-Keeps :
    {P : Conn → Type 0} (r : Flushed) → (r.alive ≡ true → P r.conn) → Keeps P (some (flushed r))
flushed-Keeps r h = elim (Bool-cases r.alive) [ inl e ↦ rw e (kept (h e)) | inr e ↦ rw e shut ]

-- A flush restores the invariant, however much output there is.
flush-ConnInv :
    (fd : ℕ) (o : Outbound) (c : Conn)
    → c.fd ≡ fd
    → IsLine c.in_buf
    → length c.in_buf ≤ max_line
    → (flush o c).alive ≡ true
    → ConnInv fd (flush o c).conn
flush-ConnInv fd o c f l b e =
    let (_, same, live) = flush-Flushes o c in
    record {
      same_fd = same.0 ∙ f;
      line = subst IsLine (sym same.2) l;
      line_bounded = omega (arith, ap length same.2);
      watched = live e;
    }

flush-Keeps :
    (fd : ℕ) (o : Outbound) (c : Conn)
    → c.fd ≡ fd
    → IsLine c.in_buf
    → length c.in_buf ≤ max_line
    → Keeps (ConnInv fd) (some (flushed (flush o c)))
flush-Keeps fd o c f l b = flushed-Keeps (flush o c) (flush-ConnInv fd o c f l b)

received-Keeps :
    (env : Env) (now clients fd : ℕ) (o : Outbound) (c : Conn) (r : Received)
    → c.fd ≡ fd
    → ((buf : Bytes) → r ≡ buffer buf → length buf ≤ max_line)
    → Keeps (ConnInv fd) (on_received env now clients o c r)
received-Keeps env now clients fd o c (dropped why) f h = shut
received-Keeps env now clients fd o c (buffer buf) f h =
    let handle = handle_line env now clients in
    rw (drain-split handle (suc (length buf)) buf c (omega arith))
      (elim (Option-cases (run_lines handle (split buf).0 c)) [
        | inl e ↦ rw e thrown
        | inr (d, e) ↦ rw e (
            flush-Keeps fd o (record d { in_buf = (split buf).1 })
              (lines-fd env now clients (split buf).0 c e ∙ f) (split-IsLine buf).1
              (omega (arith, split-length-le buf, h buf refl)))
      ])

input-Keeps :
    (env : Env) (now clients fd : ℕ) (i : Inbound) (o : Outbound) (c : Conn)
    → ConnInv fd c
    → Keeps (ConnInv fd) (on_input env now clients i o c)
unfolding on_input
input-Keeps env now clients fd i o c v =
    received-Keeps env now clients fd o c _ v.same_fd
      λ buf e. recv_loop-le i.chunks i.ending c.in_buf buf v.line_bounded e

output-Keeps :
    (fd : ℕ) (e : Ready) {r : Option Outcome}
    → Keeps (ConnInv fd) r
    → Keeps (ConnInv fd) (on_output e r)
output-Keeps fd e thrown = thrown
output-Keeps fd e shut = shut
output-Keeps fd e (kept {c} v) =
    if-elim (λ r. Keeps (ConnInv fd) (some r)) e.writable _ _
      (λ _. flush-Keeps fd e.second c v.same_fd v.line v.line_bounded) (λ _. kept v)

-- Whatever arrives on a connection and whatever the kernel takes, a connection that stays open
-- keeps the invariant.
pub on_conn-Keeps :
    (env : Env) (now clients fd : ℕ) (e : Ready) (c : Conn)
    → ConnInv fd c
    → Keeps (ConnInv fd) (on_conn env now clients e c)
unfolding on_conn
on_conn-Keeps env now clients fd e c v =
    if-elim (Keeps (ConnInv fd)) e.hung_up _ _ (λ _. shut)
      λ _. output-Keeps fd e (
        if-elim (Keeps (ConnInv fd)) e.readable _ _
          (λ _. input-Keeps env now clients fd e.input e.first c v) (λ _. kept v))

pub tick_conn-ConnInv :
    (env : Env) (now fd : ℕ) (o : Outbound) (c : Conn)
    → ConnInv fd c
    → (tick_conn env now o c).1 ≡ false
    → ConnInv fd (tick_conn env now o c).0
unfolding tick_conn send_json
tick_conn-ConnInv env now fd o c v =
    let P = λ (p : Conn × Bool). p.1 ≡ false → ConnInv fd p.0 in
    if-elim P (not c.hello && ltb (c.opened_at + hello_timeout) now) _ _ (λ _ e. cc)
      λ _.
        if-elim P (leb (c.last_ping + ping_interval) now) _ _
          (λ _ e. flush-ConnInv fd o _ v.same_fd v.line v.line_bounded (ground arith)) (λ _ _. v)
