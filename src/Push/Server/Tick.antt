-- ===== src/Push/Server/Tick.antt =====
-- `on_tick`, connection by connection.
use mathlib.Core.Option
use stream_monitor.Prelude.{
  ℕ, ◌+◌, ◌≤◌, ◌<◌, ◌≡◌, refl, Bool, true, false, ◌||◌, ◌⊎◌, inl, inr, List, [], ◌∷◌, Option, none,
  some, arith, ◌==◌, if◌then◌else◌, Bool-cases, Option-cases,
}
use stream_monitor.Prelude.Maps.{
  find, erase, IsOrdered, Above, erase-IsOrdered, find-erase, find-Above,
}
use stream_monitor.Json.{codes}
use stream_monitor.Push.Conn.{Conn, Outbound, flush, hello_timeout, ping_interval, send_json}
use stream_monitor.Push.Conn.Flush.{flush-Flushes}
use stream_monitor.Push.Request.{Env, type_member}
use stream_monitor.Push.Server.{Server, tick_conn, tick_loop, close_all, on_tick}

abbrev elem : ℕ → List ℕ → Bool
elem k [] = false
elem k (d ∷ ds) = d == k || elem k ds

close_all-IsOrdered : (ds : List ℕ) (m : List (ℕ × Conn)) → IsOrdered m → IsOrdered (close_all ds m)
unfolding close_all
close_all-IsOrdered [] m h = h
close_all-IsOrdered (d ∷ ds) m h = close_all-IsOrdered ds (erase d m) (erase-IsOrdered d m h)

find-close_all :
    (k : ℕ) (ds : List ℕ) (m : List (ℕ × Conn))
    → IsOrdered m
    → find k (close_all ds m) ≡ (if elem k ds then none else find k m)
unfolding close_all
find-close_all k [] m h = refl
find-close_all k (d ∷ ds) m h =
    ground (arith, find-close_all k ds (erase d m) (erase-IsOrdered d m h), find-erase d k m h)

module _ (env : Env) (now : ℕ) (sends : ℕ → Outbound) where
  loop-Above : (k : ℕ) (m : List (ℕ × Conn)) → Above k m → Above k (tick_loop env now sends m).0
  unfolding tick_loop
  loop-Above k [] h = tt
  loop-Above k ((j, c) ∷ m) h = (h.0, loop-Above k m h.1)

  loop-IsOrdered : (m : List (ℕ × Conn)) → IsOrdered m → IsOrdered (tick_loop env now sends m).0
  unfolding tick_loop
  loop-IsOrdered [] h = tt
  loop-IsOrdered ((j, c) ∷ m) h = (loop-Above j m h.0, loop-IsOrdered m h.1)

  find-loop :
      (k : ℕ) (m : List (ℕ × Conn))
      → find k (tick_loop env now sends m).0
        ≡ Option.map (λ c. (tick_conn env now (sends k) c).0) (find k m)
  unfolding tick_loop find
  find-loop k [] = refl
  find-loop k ((j, c) ∷ m) = ground (arith, find-loop k m)

  -- Whether a connection is dropped.
  abbrev gone : ℕ → Option Conn → Bool
  gone k none = false
  gone k (some c) = (tick_conn env now (sends k) c).1

  elem-loop :
      (k : ℕ) (m : List (ℕ × Conn))
      → IsOrdered m
      → elem k (tick_loop env now sends m).1 ≡ gone k (find k m)
  unfolding tick_loop find
  elem-loop k [] h = refl
  elem-loop k ((j, c) ∷ m) h = ground (arith, elem-loop k m h.1, find-Above j m h.0)

  abbrev pub survivor : ℕ → Option Conn → Option Conn
  survivor k none = none
  survivor k (some c) =
      if (tick_conn env now (sends k) c).1 then none else some (tick_conn env now (sends k) c).0

  -- A tick treats each connection by itself.
  pub find-on_tick :
      (k : ℕ) (s : Server)
      → IsOrdered s.conns
      → find k (on_tick env now sends s).conns ≡ survivor k (find k s.conns)
  unfolding on_tick
  find-on_tick k s h =
      rw
        (
          find-close_all k (tick_loop env now sends s.conns).1 _ (loop-IsOrdered s.conns h),
          elem-loop k s.conns h,
          find-loop k s.conns,
        )
        (elim (Option-cases (find k s.conns)) [ inl e ↦ rw e | inr (c, e) ↦ rw e ])

  -- The connection as it is when its ping goes out.
  abbrev pub pinged : Conn → Conn
  pinged c = record (send_json env.write c (type_member (codes "ping")) none) { last_ping = now }

  abbrev pub IsGreeted : Conn → Type 0
  IsGreeted c = (c.hello ≡ true) ⊎ (now ≤ c.opened_at + hello_timeout)

  -- What a tick leaves of a connection: it was greeted in time, a ping that was due went out or
  -- waits, a ping is less than 30 s old, and input, greeting and age are as they were.
  pub record Survives (k : ℕ) (c d : Conn) : Type 0 where
    pub greeted : IsGreeted c
    pub pinged_ok : c.last_ping + ping_interval ≤ now → (flush (sends k) (pinged c)).alive ≡ true
    pub recent : now < d.last_ping + ping_interval
    pub same_input : d.in_buf ≡ c.in_buf
    pub same_hello : d.hello ≡ c.hello
    pub same_age : d.opened_at ≡ c.opened_at

  -- Why a tick drops one: no greeting in time, or a ping that could not be sent.
  abbrev pub Drops : ℕ → Conn → Type 0
  Drops k c =
      ((c.hello ≡ false) × (c.opened_at + hello_timeout < now))
      ⊎ ((c.last_ping + ping_interval ≤ now) × ((flush (sends k) (pinged c)).alive ≡ false))

  tick_conn-Survives :
      (k : ℕ) (c : Conn)
      → (tick_conn env now (sends k) c).1 ≡ false
      → Survives k c (tick_conn env now (sends k) c).0
  unfolding tick_conn send_json
  tick_conn-Survives k c e = ground (arith, flush-Flushes (sends k) (pinged c))

  tick_conn-Drops : (k : ℕ) (c : Conn) → (tick_conn env now (sends k) c).1 ≡ true → Drops k c
  unfolding tick_conn
  tick_conn-Drops k c e = ground arith

  survivor-cases :
      (k : ℕ) (c : Conn)
      → ((d : Conn) × (survivor k (some c) ≡ some d) × Survives k c d)
        ⊎ ((survivor k (some c) ≡ none) × Drops k c)
  survivor-cases k c = elim (Bool-cases (tick_conn env now (sends k) c).1) [
    | inl e ↦ inr (rw e, tick_conn-Drops k c e)
    | inr e ↦ inl ((tick_conn env now (sends k) c).0, rw e, tick_conn-Survives k c e)
  ]

  -- The fate of every connection at a tick, where the map is in order: it survives with a ping
  -- less than 30 s old, whose sending did not fail if it was due now, and with a greeting or at
  -- most 60 s of age, or it is dropped, for the lack of a greeting after more than 60 s or since
  -- its ping could not be sent.
  pub on_tick_fate :
      (s : Server) (k : ℕ) (c : Conn)
      → IsOrdered s.conns
      → find k s.conns ≡ some c
      → ((d : Conn) × (find k (on_tick env now sends s).conns ≡ some d) × Survives k c d)
        ⊎ ((find k (on_tick env now sends s).conns ≡ none) × Drops k c)
  on_tick_fate s k c h e = rw (find-on_tick k s h, e, survivor) (survivor-cases k c)

  pub on_tick-IsOrdered :
      (s : Server) → IsOrdered s.conns → IsOrdered (on_tick env now sends s).conns
  unfolding on_tick
  on_tick-IsOrdered s h =
      close_all-IsOrdered (tick_loop env now sends s.conns).1 _ (loop-IsOrdered s.conns h)
