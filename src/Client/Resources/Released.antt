-- ===== src/Client/Resources/Released.antt =====
-- After `stop` nothing is held.
use mathlib.Core.Path.{subst}
use stream_monitor.Prelude.{
  ℕ, ◌≡◌, ◌≢◌, refl, sym, ap, ◌∙◌, Bool, true, false, List, [], ◌∷◌, Option, none, some, arith,
}
use stream_monitor.Client.Resources.{
  Worker, not_started, at_top, with_tunnel, connecting, receiving, receiving_done, ended, Stopper,
  outside, to_close, to_join, to_close_tunnel, stopped, Held, close, close_held, close_socket,
  close_tunnel, made_job, jobs_with, make_tunnel, ensure_with, ensure_tunnel, after_tunnel, Step,
  begins, ends, tunnels, no_socket, socket_made, connect_fails, connects, loop_ends, socket_closed,
  stop_begins, stop_closes, joins, stop_ends, Reachable, start, step, nothing_held,
}

abbrev pub listed : Option ℕ → List ℕ
listed none = []
listed (some h) = h ∷ []

-- The socket of the thread, and the one of `sock_`, which only the inner loop has.
abbrev SocketsOf : Worker → Held → Type 0
SocketsOf (connecting h) r = (r.sockets ≡ h ∷ []) × (r.sock ≡ none)
SocketsOf receiving r = r.sockets ≡ listed r.sock
SocketsOf receiving_done r = r.sockets ≡ listed r.sock
SocketsOf _ r = (r.sockets ≡ []) × (r.sock ≡ none)

abbrev StopperOf : Worker → Stopper → Held → Type 0
StopperOf w to_close_tunnel r = w ≡ ended
StopperOf w stopped r = (w ≡ ended) × (r.process ≡ none) × (r.job ≡ none)
StopperOf w _ r = Unit

record Inv (x : Worker × Stopper × Held) : Type 0 where
  tunnel : x.2.processes ≡ listed x.2.process
  jobs_of : x.2.jobs ≡ listed x.2.job
  sockets_of : SocketsOf x.0 x.2
  caller : StopperOf x.0 x.1 x.2

close_self : (h : ℕ) → close h (h ∷ []) ≡ []
close_self h = ground arith

close_listed : (o : Option ℕ) (hs : List ℕ) → hs ≡ listed o → close_held o hs ≡ []
close_listed none hs e = e
close_listed (some h) hs e = rw e (close_self h)

-- ── ensure_tunnel ──
abbrev TunnelOf : Held → Held → Type 0
TunnelOf r r' =
    (r'.processes ≡ listed r'.process)
    × (r'.jobs ≡ listed r'.job)
    × (r'.sock ≡ r.sock)
    × (r'.sockets ≡ r.sockets)

jobs_with-listed :
    (o new : Option ℕ) (js : List ℕ) → js ≡ listed o → jobs_with o new js ≡ listed (made_job o new)
jobs_with-listed none none js e = e
jobs_with-listed none (some h) js e = ap (λ x. h ∷ x) e
jobs_with-listed (some j) new js e = e

make_tunnel-TunnelOf :
    (new_job new_process : Option ℕ) (r : Held)
    → r.process ≡ none
    → r.processes ≡ []
    → r.jobs ≡ listed r.job
    → TunnelOf r (make_tunnel new_job new_process r).1
unfolding make_tunnel
make_tunnel-TunnelOf new_job none r p q j =
    (q ∙ ap listed (sym p), jobs_with-listed r.job new_job r.jobs j, refl, refl)
make_tunnel-TunnelOf new_job (some h) r p q j =
    (ap (λ x. h ∷ x) q, jobs_with-listed r.job new_job r.jobs j, refl, refl)

ensure_with-TunnelOf :
    (o : Option ℕ) (alive : Bool) (new_job new_process : Option ℕ) (r : Held)
    → r.process ≡ o
    → r.processes ≡ listed o
    → r.jobs ≡ listed r.job
    → TunnelOf r (ensure_with o alive new_job new_process r).1
ensure_with-TunnelOf none alive new_job new_process r p q j =
    make_tunnel-TunnelOf new_job new_process r p q j
ensure_with-TunnelOf (some h) true new_job new_process r p q j =
    (q ∙ ap listed (sym p), j, refl, refl)
ensure_with-TunnelOf (some h) false new_job new_process r p q j =
    make_tunnel-TunnelOf new_job new_process _ refl (ap (close h) q ∙ close_self h) j

-- ── the steps ──
after_tunnel-SocketsOf :
    (b : Bool) (r r' : Held)
    → r'.sock ≡ r.sock
    → r'.sockets ≡ r.sockets
    → SocketsOf at_top r
    → SocketsOf (after_tunnel b) r'
after_tunnel-SocketsOf true r r' p q h = (q ∙ h.0, p ∙ h.1)
after_tunnel-SocketsOf false r r' p q h = (q ∙ h.0, p ∙ h.1)

-- The thread is not at its end, so that `stop` waits for it.
abbrev Waits : Worker → Stopper → Type 0
Waits w s = (r r' : Held) (w' : Worker) → StopperOf w s r → StopperOf w' s r'

waits : (w : Worker) → w ≢ ended → (s : Stopper) → Waits w s
waits w ne outside r r' w' h = tt
waits w ne to_close r r' w' h = tt
waits w ne to_join r r' w' h = tt
waits w ne to_close_tunnel r r' w' h = absurd (ne h)
waits w ne stopped r r' w' h = absurd (ne h.0)

closed-SocketsOf : (w : Worker) (r : Held) → SocketsOf w r → SocketsOf w (close_socket r)
unfolding close_socket
closed-SocketsOf not_started r h = (ap (λ o. close_held o r.sockets) h.1 ∙ h.0, refl)
closed-SocketsOf at_top r h = (ap (λ o. close_held o r.sockets) h.1 ∙ h.0, refl)
closed-SocketsOf with_tunnel r h = (ap (λ o. close_held o r.sockets) h.1 ∙ h.0, refl)
closed-SocketsOf (connecting k) r h = (ap (λ o. close_held o r.sockets) h.1 ∙ h.0, refl)
closed-SocketsOf receiving r h = close_listed r.sock r.sockets h
closed-SocketsOf receiving_done r h = close_listed r.sock r.sockets h
closed-SocketsOf ended r h = (ap (λ o. close_held o r.sockets) h.1 ∙ h.0, refl)

moved-SocketsOf :
    (w : Worker) (r r' : Held)
    → r'.sock ≡ r.sock
    → r'.sockets ≡ r.sockets
    → SocketsOf w r
    → SocketsOf w r'
moved-SocketsOf (connecting k) r r' p q h = (q ∙ h.0, p ∙ h.1)
moved-SocketsOf receiving r r' p q h = q ∙ h ∙ ap listed (sym p)
moved-SocketsOf receiving_done r r' p q h = q ∙ h ∙ ap listed (sym p)
moved-SocketsOf not_started r r' p q h = (q ∙ h.0, p ∙ h.1)
moved-SocketsOf at_top r r' p q h = (q ∙ h.0, p ∙ h.1)
moved-SocketsOf with_tunnel r r' p q h = (q ∙ h.0, p ∙ h.1)
moved-SocketsOf ended r r' p q h = (q ∙ h.0, p ∙ h.1)

abbrev at : Worker → Stopper → Held → Worker × Stopper × Held
at w s r = (w, s, r)

-- A step of the thread that leaves the tunnel as it is.
thread-Inv :
    (w w' : Worker) (s : Stopper) (r r' : Held)
    → w ≢ ended
    → r'.processes ≡ listed r'.process
    → r'.jobs ≡ listed r'.job
    → SocketsOf w' r'
    → Inv (at w s r)
    → Inv (at w' s r')
thread-Inv w w' s r r' ne p j k i = record {
  tunnel = p;
  jobs_of = j;
  sockets_of = k;
  caller = waits w ne s r r' w' i.caller;
}

Step-Inv : (x y : Worker × Stopper × Held) → Step x y → Inv x → Inv y
unfolding ensure_tunnel close_socket close_tunnel
Step-Inv x y (begins r e) i =
    thread-Inv not_started at_top outside r _ (ground arith) i.tunnel i.jobs_of i.sockets_of i
Step-Inv x y (ends s r e) i =
    thread-Inv at_top ended s r r (ground arith) i.tunnel i.jobs_of i.sockets_of i
Step-Inv x y (tunnels alive new_job new_process s r) i =
    let (p, j, k, l) =
      ensure_with-TunnelOf r.process alive new_job new_process r refl i.tunnel i.jobs_of in
    thread-Inv at_top _ s r _ (ground arith) p j (after_tunnel-SocketsOf _ r _ k l i.sockets_of) i
Step-Inv x y (no_socket s r) i =
    thread-Inv with_tunnel at_top s r r (ground arith) i.tunnel i.jobs_of i.sockets_of i
Step-Inv x y (socket_made h s r) i =
    thread-Inv with_tunnel (connecting h) s r _ (ground arith) i.tunnel i.jobs_of
      (ap (λ k. h ∷ k) i.sockets_of.0, i.sockets_of.1) i
Step-Inv x y (connect_fails h s r) i =
    thread-Inv (connecting h) at_top s r _ (ground arith) i.tunnel i.jobs_of
      (ap (close h) i.sockets_of.0 ∙ close_self h, i.sockets_of.1) i
Step-Inv x y (connects h s r) i =
    thread-Inv (connecting h) receiving s r _ (ground arith) i.tunnel i.jobs_of i.sockets_of.0 i
Step-Inv x y (loop_ends s r) i =
    thread-Inv receiving receiving_done s r r (ground arith) i.tunnel i.jobs_of i.sockets_of i
Step-Inv x y (socket_closed s r) i =
    thread-Inv receiving_done at_top s r _ (ground arith) i.tunnel i.jobs_of
      (close_listed r.sock r.sockets i.sockets_of, refl) i
Step-Inv x y (stop_begins w r e) i = record {
  tunnel = i.tunnel;
  jobs_of = i.jobs_of;
  sockets_of = moved-SocketsOf w r _ refl refl i.sockets_of;
  caller = tt;
}
Step-Inv x y (stop_closes w r) i = record {
  tunnel = i.tunnel;
  jobs_of = i.jobs_of;
  sockets_of = closed-SocketsOf w r i.sockets_of;
  caller = tt;
}
Step-Inv x y (joins r) i = record {
  tunnel = i.tunnel;
  jobs_of = i.jobs_of;
  sockets_of = i.sockets_of;
  caller = refl;
}
Step-Inv x y (stop_ends w r) i = record {
  tunnel = close_listed r.process r.processes i.tunnel;
  jobs_of = close_listed r.job r.jobs i.jobs_of;
  sockets_of = moved-SocketsOf w r _ refl refl i.sockets_of;
  caller = (i.caller, refl, refl);
}

Reachable-Inv : (x y : Worker × Stopper × Held) → Reachable x y → Inv x → Inv y
Reachable-Inv x y start i = i
Reachable-Inv x y (step z p q) i = Step-Inv z y q (Reachable-Inv x z p i)

-- Whatever the order of the steps of the thread and of a caller of `stop`, and whatever Windows
-- returns: when `stop` is behind its end, the thread has ended, and no process, job or socket that
-- was opened is open. It begins with nothing held.
pub stopped_lem :
    (w : Worker) (r : Held)
    → Reachable (not_started, outside, nothing_held) (w, stopped, r)
    → (w ≡ ended) × (r.processes ≡ []) × (r.jobs ≡ []) × (r.sockets ≡ [])
stopped_lem w r p =
    let i =
      Reachable-Inv (not_started, outside, nothing_held) (w, stopped, r) p
        (record { tunnel = refl; jobs_of = refl; sockets_of = (refl, refl); caller = tt }) in
    let (e, no_process, no_job) = i.caller in
    (
      e,
      i.tunnel ∙ ap listed no_process,
      i.jobs_of ∙ ap listed no_job,
      (subst (λ v. SocketsOf v r) e i.sockets_of).0,
    )
