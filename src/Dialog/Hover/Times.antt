-- ===== src/Dialog/Hover/Times.antt =====
-- The time that `update_hover` gives a column of a row.
use native.Mathlib.Nat.{div-mul-le_self, div-lt_iff_lt-mul}
use stream_monitor.Prelude.{ℕ, ◌+◌, ◌*◌, ◌/◌, ◌≤◌, ◌<◌, ◌≡◌, refl, arith}
use stream_monitor.Prelude.Int.{ℤ, pos, pos_part, ◌+ℤ◌, ◌-ℤ◌}
use stream_monitor.Dialog.Plot.{Rect, width}
use stream_monitor.Dialog.Hover.{time_at}

-- The column `x` of a row that shows `span` seconds from `t0` begins within the second `t`.
abbrev pub IsTimeOf : Rect → ℤ → ℕ → ℤ → ℤ → Type 0
IsTimeOf r t0 span x t =
    (q : ℕ) × (t ≡ t0 +ℤ pos q)
    × (q * width r ≤ pos_part (x -ℤ r.left) * span)
    × (pos_part (x -ℤ r.left) * span < (q + 1) * width r)

width_pos : (r : Rect) → 0 < width r
unfolding width
width_pos r = omega arith

quotient_lem : (m c : ℕ) → 0 < c → (m / c * c ≤ m) × (m < (m / c + 1) * c)
quotient_lem m c h = (div-mul-le_self m c, (div-lt_iff_lt-mul h).0 (omega arith))

pub time_at-IsTimeOf :
    (r : Rect) (t0 : ℤ) (span : ℕ) (x : ℤ) → IsTimeOf r t0 span x (time_at r t0 span x)
unfolding time_at
time_at-IsTimeOf r t0 span x =
    let n = pos_part (x -ℤ r.left) * span in
    let (lower, upper) = quotient_lem n (width r) (width_pos r) in (n / width r, refl, lower, upper)
