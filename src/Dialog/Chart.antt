-- ===== src/Dialog/Chart.antt =====
-- src/mfc/MainDlg.cpp: the scale of `draw_chart`, and the lines of `draw_week`.
use native.Mathlib.Nat.{
  div-mul-le_self, div-eq_of_lt, mul-mod_left, lt-div-mul-add, mul-le-mul_right,
}
use stream_monitor.Prelude.{
  ℕ, zero, suc, ◌+◌, ◌*◌, ◌/◌, ◌%◌, ◌≤◌, ◌<◌, ◌≡◌, refl, inl, inr, false, ◌||◌, Bool-cases, List,
  [], ◌∷◌, Option, none, some, not, ltb, if◌then◌else◌, arith, max,
}
use stream_monitor.Prelude.Int.{ℤ, pos, ◌-ℤ◌, ◌+ℤ◌, ltb_ℤ}
use stream_monitor.Client.{Point}
use stream_monitor.Dialog.{week}

-- `for (base = 1;; base *= 10) for (m : {1, 2, 5}) if (vmax / (base * m) < 6) …`, on fuel.
unfoldable pub scale : ℕ → ℕ → ℕ → Option ℕ
scale zero vmax base = none
scale (suc fuel) vmax base =
    let rest = scale fuel vmax (base * 10) in
    if ltb (vmax / base) 6
    then some base
    else if ltb (vmax / (base * 2)) 6
    then some (base * 2)
    else if ltb (vmax / (base * 5)) 6
    then some (base * 5)
    else rest

unfoldable pub y_step : ℕ → Option ℕ
y_step vmax = scale (suc vmax) vmax 1

-- `std::max(step, (vmax / step + 1) * step)`, exact up to the largest `int` of the source: from about
-- 2 * 10^9 viewers on the sum overflows there.
unfoldable pub y_max : ℕ → ℕ → ℕ
y_max vmax step = max step ((vmax / step + 1) * step)

-- A step that gives fewer than six steps up to `vmax`.
abbrev pub IsStep : ℕ → ℕ → Type 0
IsStep vmax step = (0 < step) × (vmax / step < 6)

-- A step that is passed over is at most a sixth of the highest number.
six_steps : (vmax b : ℕ) → ltb (vmax / b) 6 ≡ false → 6 * b ≤ vmax
six_steps vmax b e =
    let low : 6 * b ≤ vmax / b * b = mul-le-mul_right b (ground arith) in
    omega (arith, div-mul-le_self vmax b)

scale-IsStep :
    (fuel vmax base : ℕ)
    → 0 < base
    → base ≤ vmax + 1
    → vmax < fuel + base
    → (step : ℕ) × (scale (suc fuel) vmax base ≡ some step) × IsStep vmax step × (step ≤ vmax + 1)
unfolding scale
scale-IsStep zero vmax base h l k =
    let e : vmax / base ≡ 0 = div-eq_of_lt (omega arith) in
    (base, rw (scale, e), (h, rw e (omega arith)), l)
scale-IsStep (suc fuel) vmax base h l k = elim (Bool-cases (ltb (vmax / base) 6)) [
  | inl e ↦ (base, rw (scale, e), (h, ground arith), l)
  | inr e ↦ elim (Bool-cases (ltb (vmax / (base * 2)) 6)) [
    | inl f ↦ (
      base * 2,
      rw (scale, e, f),
      (omega arith, ground arith),
      omega (arith, six_steps vmax base e),
    )
    | inr f ↦ elim (Bool-cases (ltb (vmax / (base * 5)) 6)) [
      | inl g ↦ (
        base * 5,
        rw (scale, e, f, g),
        (omega arith, ground arith),
        omega (arith, six_steps vmax (base * 2) f),
      )
      | inr g ↦
          let (step, r, s, m) =
            scale-IsStep fuel vmax (base * 10) (omega arith)
              (omega (arith, six_steps vmax (base * 5) g)) (omega arith) in
          (step, rw (scale, e, f, g) r, s, m)
    ]
  ]
]

y_max-IsStep :
    (vmax step : ℕ)
    → IsStep vmax step
    → (vmax < y_max vmax step)
      × (y_max vmax step ≤ 6 * step)
      × (y_max vmax step % step ≡ 0)
      × (y_max vmax step ≤ vmax + step)
unfolding y_max
y_max-IsStep vmax step (h, k) =
    let q = vmax / step in
    let a : max step ((q + 1) * step) ≡ (q + 1) * step = omega arith in
    rw a (
      omega (arith, lt-div-mul-add {a = vmax} h),
      mul-le-mul_right step (omega arith),
      mul-mod_left (q + 1) step,
      omega (arith, div-mul-le_self vmax step),
    )

pub y_step-y_max :
    (vmax : ℕ)
    → (step : ℕ) × (y_step vmax ≡ some step)
      × (0 < step)
      × (step ≤ vmax + 1)
      × (vmax < y_max vmax step)
      × (y_max vmax step ≤ 6 * step)
      × (y_max vmax step % step ≡ 0)
      × (y_max vmax step ≤ 2 * vmax + 1)
unfolding y_step
y_step-y_max vmax =
    let (step, r, (h, k), l) = scale-IsStep vmax vmax 1 (omega arith) (omega arith) (omega arith) in
    let (above, six, whole, high) = y_max-IsStep vmax step (h, k) in
    (step, r, h, l, above, six, whole, omega arith)

-- ── the lines of a week ──
-- MoveTo and LineTo, with the time (moved by `shift`) and the viewers of the point.
pub data Stroke : Type 0 where
  move_to line_to : ℤ → ℤ → Stroke

-- 2 * kPollSec
abbrev pub max_gap : ℕ
max_gap = 2 * 60

-- `last` is `prev_ts` where the pen is down.
abbrev pub stroke : Option ℤ → ℤ → ℤ → Stroke
stroke none ts v = move_to ts v
stroke (some prev) ts v = if ltb_ℤ (pos max_gap) (ts -ℤ prev) then move_to ts v else line_to ts v

unfoldable pub draw_line : ℤ → ℤ → Option ℤ → List Point → List Stroke
draw_line t0 shift last [] = []
draw_line t0 shift last (p ∷ ps) =
    let ts = p.ts +ℤ shift in
    let skipped = draw_line t0 shift last ps in
    let rest = draw_line t0 shift (some ts) ps in
    if ltb_ℤ ts t0 || not (ltb_ℤ ts (t0 +ℤ pos week))
    then skipped
    else stroke last ts p.viewers ∷ rest

-- The points of the week that begins at `t0`, moved.
abbrev pub week_points : ℤ → ℤ → List Point → List (ℤ × ℤ)
week_points t0 shift [] = []
week_points t0 shift (p ∷ ps) =
    let ts = p.ts +ℤ shift in
    if ltb_ℤ ts t0 || not (ltb_ℤ ts (t0 +ℤ pos week))
    then week_points t0 shift ps
    else (ts, p.viewers) ∷ week_points t0 shift ps

abbrev pub end_of : Stroke → ℤ × ℤ
end_of (move_to ts v) = (ts, v)
end_of (line_to ts v) = (ts, v)

abbrev pub ends_of : List Stroke → List (ℤ × ℤ)
ends_of [] = []
ends_of (s ∷ ss) = end_of s ∷ ends_of ss

-- A line comes from a point that is not more than `max_gap` before its own.
abbrev pub IsNear : Option ℤ → Stroke → Type 0
IsNear last (move_to ts v) = Unit
IsNear none (line_to ts v) = ⊥
IsNear (some prev) (line_to ts v) = ltb_ℤ (pos max_gap) (ts -ℤ prev) ≡ false

abbrev pub AreNear : Option ℤ → List Stroke → Type 0
AreNear last [] = Unit
AreNear last (s ∷ ss) = IsNear last s × AreNear (some (end_of s).0) ss

pub stroke-IsNear :
    (last : Option ℤ) (ts v : ℤ)
    → IsNear last (stroke last ts v) × (end_of (stroke last ts v) ≡ (ts, v))
stroke-IsNear none ts v = (tt, refl)
stroke-IsNear (some prev) ts v = elim (Bool-cases (ltb_ℤ (pos max_gap) (ts -ℤ prev))) [
  | inl e ↦ rw e (tt, refl)
  | inr e ↦ rw e (e, refl)
]

-- The pen goes once to every point of the week, in their order, and draws no line across a gap of
-- more than two polls.
pub draw_line-AreNear :
    (t0 shift : ℤ) (ps : List Point) (last : Option ℤ)
    → (ends_of (draw_line t0 shift last ps) ≡ week_points t0 shift ps)
      × AreNear last (draw_line t0 shift last ps)
unfolding draw_line
draw_line-AreNear t0 shift [] last = (refl, tt)
draw_line-AreNear t0 shift (p ∷ ps) last =
    let ts = p.ts +ℤ shift in
    elim (Bool-cases (ltb_ℤ ts t0 || not (ltb_ℤ ts (t0 +ℤ pos week)))) [
      | inl e ↦ rw (draw_line, e) (draw_line-AreNear t0 shift ps last)
      | inr e ↦
          let (near, at_end) = stroke-IsNear last ts p.viewers in
          let (ends, rest) = draw_line-AreNear t0 shift ps (some ts) in
          rw (draw_line, e) (rw (at_end, ends), rw at_end (near, rest))
    ]
