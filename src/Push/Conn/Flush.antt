-- ===== src/Push/Conn/Flush.antt =====
-- What `flush` does to a connection, on every sequence of answers from the kernel.
use stream_monitor.Prelude.{
  ℕ, zero, suc, ◌≤◌, ◌≡◌, ◌≢◌, refl, true, List, [], ◌∷◌, ◌++◌, append_assoc, arith, length, take,
  drop, take-append-drop,
}
use stream_monitor.Framing.{Bytes}
use stream_monitor.Push.Conn.{
  Conn, max_out_buf, SendEnd, again, failed, Outbound, Flushed, flush_loop, flush,
}

-- Output within the limit, and none waiting without EPOLLOUT.
pub record IsWatched (c : Conn) : Type 0 where
  pub bounded : length c.out ≤ max_out_buf
  pub watched : c.out ≢ [] → c.want_out ≡ true

-- Nothing but the output and the registration may change.
abbrev pub SameInput : Conn → Conn → Type 0
SameInput c d =
    (d.fd ≡ c.fd)
    × (d.peer ≡ c.peer)
    × (d.in_buf ≡ c.in_buf)
    × (d.opened_at ≡ c.opened_at)
    × (d.last_ping ≡ c.last_ping)
    × (d.hello ≡ c.hello)

abbrev Flushes : Conn → Flushed → Type 0
Flushes c f =
    (f.sent ++ f.conn.out ≡ c.out) × SameInput c f.conn × (f.alive ≡ true → IsWatched f.conn)

flush_loop-Flushes :
    (ns : List ℕ) (e : SendEnd) (c : Conn) (o : Bytes) → c.out ≡ o → Flushes c (flush_loop ns e c)
unfolding flush_loop
flush_loop-Flushes [] again c [] p = ground arith
flush_loop-Flushes [] failed c [] p = ground arith
flush_loop-Flushes [] again c (b ∷ bs) p = ground arith
flush_loop-Flushes [] failed c (b ∷ bs) p = ground arith
flush_loop-Flushes (n ∷ ns) e c [] p = ground arith
flush_loop-Flushes (zero ∷ ns) e c (b ∷ bs) p = ground arith
flush_loop-Flushes (suc n ∷ ns) e c (b ∷ bs) p =
    let d = record c { out = drop (suc n) c.out } in
    ground (
      arith,
      flush_loop-Flushes ns e d d.out refl,
      take-append-drop (suc n) c.out,
      append_assoc (take (suc n) c.out) (flush_loop ns e d).sent (flush_loop ns e d).conn.out,
    )

-- What was sent and what is left are the output that there was; nothing else of the connection
-- changes; and where `flush` says that the connection lives on, its output is within the limit,
-- and EPOLLOUT is on if any is left.
pub flush-Flushes :
    (o : Outbound) (c : Conn)
    → ((flush o c).sent ++ (flush o c).conn.out ≡ c.out)
      × SameInput c (flush o c).conn
      × ((flush o c).alive ≡ true → IsWatched (flush o c).conn)
unfolding flush
flush-Flushes o c = flush_loop-Flushes o.sizes o.ending c c.out refl
