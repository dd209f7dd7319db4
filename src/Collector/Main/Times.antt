-- ===== src/Collector/Main/Times.antt =====
-- The times that polls are recorded under.
use native.Mathlib.Nat.{div-mul-le_self, lt-div-mul-add, le-div_iff_mul-le, mul-le-mul_right}
use stream_monitor.Prelude.{ℕ, ◌+◌, ◌*◌, ◌/◌, ◌≤◌, ◌<◌, ◌≡◌, List, [], ◌∷◌, arith}
use stream_monitor.Collector.Main.{poll_time, wake_time, Look, stop_set, time_is, woke, wait_until}

wait_until-woke : (wake t : ℕ) (ls : List Look) → wait_until wake ls ≡ woke t → wake ≤ t
unfolding wait_until
wait_until-woke wake t [] e = ground arith
wait_until-woke wake t (stop_set ∷ ls) e = ground arith
wait_until-woke wake t (time_is s ∷ ls) e = ground (arith, wait_until-woke wake t ls)

-- A poll is recorded under a multiple of the interval that is at most an interval ago.
poll_time-now : (p now : ℕ) → 0 < p → (poll_time p now ≤ now) × (now < poll_time p now + p)
unfolding poll_time
poll_time-now p now h = (div-mul-le_self now p, lt-div-mul-add h)

-- A poll that starts when the wait of another is over is recorded under a later time, a multiple
-- of the interval: no sample of the first poll stands in the way of one of the second.
pub poll_time-wait_until :
    (p now later t : ℕ) (ls : List Look)
    → 0 < p
    → now ≤ later
    → wait_until (wake_time p later) ls ≡ woke t
    → (poll_time p now + p ≤ poll_time p t) × (poll_time p t ≤ t) × (t < poll_time p t + p)
unfolding poll_time wake_time
poll_time-wait_until p now later t ls h k e =
    let a : now / p ≤ later / p = (le-div_iff_mul-le h).1 (omega (arith, div-mul-le_self now p)) in
    let b : later / p + 1 ≤ t / p =
      (le-div_iff_mul-le h).1 (wait_until-woke (wake_time p later) t ls e) in
    let c : (now / p + 1) * p ≤ t / p * p = mul-le-mul_right p (omega arith) in
    (omega (arith, c), div-mul-le_self t p, lt-div-mul-add h)
