-- ===== src/Dialog/Screen/Inside.antt =====
-- The lines of the chart stay in the rectangles of their rows.
use mathlib.Core.Path.{subst}
use native.Mathlib.Nat.{div-lt_iff_lt-mul, mul-le-mul_right, mul_comm}
use stream_monitor.Prelude.{
  ℕ, suc, ◌*◌, ◌/◌, ◌≤◌, ◌<◌, ◌≡◌, refl, sym, false, ◌||◌, not, List, [], ◌∷◌, map, none, All,
  All-append, if-elim, arith, ◌==◌,
}
use stream_monitor.Prelude.Int.{ℤ, pos, negsuc, ◌+ℤ◌, ◌-ℤ◌, ◌*ℤ◌, ◌≤ℤ◌, ltb_ℤ, quot, int_laws}
use stream_monitor.Client.{Point}
use stream_monitor.Dialog.{week}
use stream_monitor.Dialog.Plot.{Rect, width_ℤ, height_ℤ, x_of, y_of, data_of}
use stream_monitor.Dialog.Chart.{
  Stroke, move_to, line_to, draw_line, end_of, ends_of, week_points, draw_line-AreNear,
}
use stream_monitor.Dialog.Drawing.{place, lines}

-- A part of `w` that is between nothing and all of it.
pub times_pos : (a w : ℕ) → pos a *ℤ pos w ≡ pos (a * w)
unfolding ◌*ℤ◌
times_pos a w = ground arith

quot-le :
    (a w : ℤ) (n : ℕ)
    → 0 < n
    → pos 0 ≤ℤ a
    → a ≤ℤ pos n
    → pos 0 ≤ℤ w
    → (pos 0 ≤ℤ quot (a *ℤ w) n) × (quot (a *ℤ w) n ≤ℤ w)
unfolding quot
quot-le (pos a) (pos w) n s h k l =
    let part : a * w ≤ n * w = mul-le-mul_right w (omega arith) in
    let lt : a * w / n < suc w = (div-lt_iff_lt-mul s).1 (omega (arith, mul_comm n w)) in
    rw (times_pos a w) (omega arith, omega arith)
quot-le (negsuc a) w n s h k l = absurd (omega arith)
quot-le (pos a) (negsuc w) n s h k l = absurd (omega arith)

abbrev pub Inside : Rect → Stroke → Type 0
Inside r s =
    ((r.left ≤ℤ (end_of s).0) × ((end_of s).0 ≤ℤ r.right))
    × ((r.top ≤ℤ (end_of s).1) × ((end_of s).1 ≤ℤ r.bottom))

abbrev pub IsOrdered : Rect → Type 0
IsOrdered r = (r.left ≤ℤ r.right) × (r.top ≤ℤ r.bottom)

x_of-Inside :
    (plot : Rect) (t0 ts : ℤ)
    → plot.left ≤ℤ plot.right
    → t0 ≤ℤ ts
    → ts ≤ℤ t0 +ℤ pos week
    → (plot.left ≤ℤ x_of plot t0 week ts) × (x_of plot t0 week ts ≤ℤ plot.right)
unfolding x_of
x_of-Inside plot t0 ts o h k =
    let (a, b) =
      quot-le (ts -ℤ t0) (width_ℤ plot) week (omega arith) (omega int_laws) (omega int_laws)
        (omega int_laws) in
    (omega int_laws, omega int_laws)

pub y_of-Inside :
    (area : Rect) (ymax : ℕ) (v : ℤ)
    → 0 < ymax
    → area.top ≤ℤ area.bottom
    → pos 0 ≤ℤ v
    → v ≤ℤ pos ymax
    → (area.top ≤ℤ y_of area ymax v) × (y_of area ymax v ≤ℤ area.bottom)
unfolding y_of
y_of-Inside area ymax v s o h k =
    let (a, b) = quot-le v (height_ℤ area) ymax s h k (omega int_laws) in
    (omega int_laws, omega int_laws)

-- A point of the week, on a scale up to `ymax`.
abbrev InWeek : ℤ → ℕ → ℤ × ℤ → Type 0
InWeek t0 ymax (ts, v) = (t0 ≤ℤ ts) × (ts ≤ℤ t0 +ℤ pos week) × (pos 0 ≤ℤ v) × (v ≤ℤ pos ymax)

abbrev pub OnScale : ℕ → Point → Type 0
OnScale ymax p = (pos 0 ≤ℤ p.viewers) × (p.viewers ≤ℤ pos ymax)

in_week_lem :
    (t0 ts : ℤ)
    → (ltb_ℤ ts t0 || not (ltb_ℤ ts (t0 +ℤ pos week))) ≡ false
    → (t0 ≤ℤ ts) × (ts ≤ℤ t0 +ℤ pos week)
in_week_lem t0 ts h = ground arith

week_points-InWeek :
    (t0 shift : ℤ) (ymax : ℕ) (ps : List Point)
    → All (OnScale ymax) ps
    → All (InWeek t0 ymax) (week_points t0 shift ps)
week_points-InWeek t0 shift ymax [] h = tt
week_points-InWeek t0 shift ymax (p ∷ ps) ((a, b), h) =
    let ts = p.ts +ℤ shift in
    let rest = week_points-InWeek t0 shift ymax ps h in
    if-elim (All (InWeek t0 ymax)) (ltb_ℤ ts t0 || not (ltb_ℤ ts (t0 +ℤ pos week)))
      (week_points t0 shift ps) ((ts, p.viewers) ∷ week_points t0 shift ps) (λ _. rest)
      (λ e. let (c, k) = in_week_lem t0 ts e in ((c, k, a, b), rest))

-- A rectangle with the sides of `plot`.
abbrev pub IsBand : Rect → Rect → Type 0
IsBand plot area =
    (area.left ≡ plot.left)
    × (area.right ≡ plot.right)
    × (plot.left ≤ℤ plot.right)
    × (area.top ≤ℤ area.bottom)

at_least_40 : (a b : ℤ) → ltb_ℤ (b -ℤ a) (pos 40) ≡ false → a ≤ℤ b
unfolding ◌-ℤ◌
at_least_40 a b h = ground arith

pub data_of-IsBand :
    (plot : Rect) (reserve : ℕ) → IsOrdered plot → IsBand plot (data_of plot reserve)
unfolding data_of
data_of-IsBand plot reserve (h, k) =
    if-elim (IsBand plot) (ltb_ℤ (height_ℤ inner) (pos 40)) plot inner (λ _. (refl, refl, h, k))
      (λ e. (refl, refl, h, at_least_40 inner.top inner.bottom e))
  where
    inner : Rect
    inner = record plot { top = plot.top +ℤ pos reserve; bottom = plot.bottom -ℤ pos reserve }

module _ (plot area : Rect) (t0 : ℤ) (ymax : ℕ) (s : 0 < ymax) (band : IsBand plot area) where
  place-Inside :
      (st : Stroke) → InWeek t0 ymax (end_of st) → Inside area (place plot area t0 ymax st)
  place-Inside (move_to ts v) (a, b, c, k) =
      let (l, r, o, v') = band in
      let (x, x') = x_of-Inside plot t0 ts o a b in
      ((rw l x, rw r x'), y_of-Inside area ymax v s v' c k)
  place-Inside (line_to ts v) (a, b, c, k) =
      let (l, r, o, v') = band in
      let (x, x') = x_of-Inside plot t0 ts o a b in
      ((rw l x, rw r x'), y_of-Inside area ymax v s v' c k)

  places-Inside :
      (ss : List Stroke)
      → All (InWeek t0 ymax) (ends_of ss)
      → All (Inside area) (map (place plot area t0 ymax) ss)
  places-Inside [] h = tt
  places-Inside (st ∷ ss) h = (place-Inside st h.0, places-Inside ss h.1)

  line-Inside :
      (shift : ℤ) (ps : List Point)
      → All (OnScale ymax) ps
      → All (Inside area) (map (place plot area t0 ymax) (draw_line t0 shift none ps))
  line-Inside shift ps h = places-Inside (draw_line t0 shift none ps) (
      subst (All (InWeek t0 ymax)) (sym (draw_line-AreNear t0 shift ps none).0)
        (week_points-InWeek t0 shift ymax ps h))

  pub lines-Inside :
      (row : ℕ) (ps : List Point)
      → All (OnScale ymax) ps
      → All (Inside area) (lines plot area t0 ymax row ps)
  unfolding lines
  lines-Inside row ps h =
      All-append (Inside area) _ _
        (if-elim (All (Inside area)) (row == 1) _ [] (λ _. line-Inside (pos week) ps h) (λ _. tt))
        (line-Inside (pos 0) ps h)
