-- ===== src/Dialog/Compared/Stacked.antt =====
-- The rows of the compared channels: one below the other, each with its lines inside.
use mathlib.Core.Path.{subst}
use stream_monitor.Prelude.{
  ℕ, suc, ◌<◌, ◌≡◌, refl, sym, ap, List, [], ◌∷◌, Option, none, some, All, if-elim, arith, length,
  map,
}
use stream_monitor.Prelude.Int.{ℤ, pos, negsuc, ◌+ℤ◌, ◌-ℤ◌, ◌*ℤ◌, ◌≤ℤ◌, max_ℤ, quot, int_laws}
use stream_monitor.Client.{Wide, Point, SampleSet}
use stream_monitor.Json.{bytes_eq}
use stream_monitor.Dialog.Plot.{Rect}
use stream_monitor.Dialog.Chart.{Stroke, move_to, line_to, end_of, stroke-IsNear}
use stream_monitor.Dialog.Screen.{highest}
use stream_monitor.Dialog.Screen.Inside.{OnScale, times_pos, y_of-Inside}
use stream_monitor.Dialog.Screen.Fits.{AreCounts, counts-OnScale, le-max_ℤ}
use stream_monitor.Dialog.Compared.{
  on_screen, Row, Comparison, find_samples, points_of, row_height, plot_of, day_line, scale_of,
  draw_row, draw_channels, draw_multi,
}

-- From the upper to the lower edge.
abbrev pub IsLevel : Rect → Stroke → Type 0
IsLevel r s = (r.top ≤ℤ (end_of s).1) × ((end_of s).1 ≤ℤ r.bottom)

abbrev pub RowFits : Row → Type 0
RowFits r = All (IsLevel r.plot) r.gray × All (IsLevel r.plot) r.line

-- Six pixels are between one row and the next.
abbrev pub AreStacked : List Row → Type 0
AreStacked [] = Unit
AreStacked (r ∷ []) = Unit
AreStacked (r ∷ r' ∷ rs) = (r.plot.bottom +ℤ pos 6 ≡ r'.plot.top) × AreStacked (r' ∷ rs)

abbrev pub name_of : Row → Wide
name_of r = r.name

abbrev pub second : Wide × Wide → Wide
second e = e.1

abbrev pub Compares : List (Wide × Wide) → Option Comparison → Type 0
Compares ids none = ids ≡ []
Compares ids (some c) =
    (map name_of c.rows ≡ map second ids) × All RowFits c.rows × AreStacked c.rows

on_screen-IsLevel :
    (plot : Rect) (t_from : ℤ) (ymax : ℕ) (st : Stroke)
    → 0 < ymax
    → plot.top ≤ℤ plot.bottom
    → (pos 0 ≤ℤ (end_of st).1) × ((end_of st).1 ≤ℤ pos ymax)
    → IsLevel plot (on_screen plot t_from ymax st)
on_screen-IsLevel plot t_from ymax (move_to t v) s o h = y_of-Inside plot ymax v s o h.0 h.1
on_screen-IsLevel plot t_from ymax (line_to t v) s o h = y_of-Inside plot ymax v s o h.0 h.1

day_line-IsLevel :
    (plot : Rect) (t_from : ℤ) (ymax : ℕ) (shift : ℤ) (ps : List Point) (last : Option ℤ)
    → 0 < ymax
    → plot.top ≤ℤ plot.bottom
    → All (OnScale ymax) ps
    → All (IsLevel plot) (day_line plot t_from ymax shift last ps)
unfolding day_line
day_line-IsLevel plot t_from ymax shift [] last s o h = tt
day_line-IsLevel plot t_from ymax shift (p ∷ ps) last s o h =
    let at_end = (stroke-IsNear last (p.ts +ℤ shift) p.viewers).1 in
    (
      on_screen-IsLevel plot t_from ymax _ s o
          (subst (λ e. (pos 0 ≤ℤ e.1) × (e.1 ≤ℤ pos ymax)) (sym at_end) h.0),
      day_line-IsLevel plot t_from ymax shift ps _ s o h.1,
    )

find_samples-AreCounts :
    (id : Wide) (m : List (Wide × SampleSet))
    → All (λ e. AreCounts (e.1).points) m
    → AreCounts (points_of (find_samples id m))
find_samples-AreCounts id [] h = tt
find_samples-AreCounts id ((k, s) ∷ m) h =
    if-elim (λ o. AreCounts (points_of o)) (bytes_eq k id) (some s) (find_samples id m) (λ _. h.0)
      (λ _. find_samples-AreCounts id m h.1)

-- ── the heights ──
next_row : (i : ℕ) → pos i +ℤ pos 1 ≡ pos (suc i)
unfolding ◌+ℤ◌
next_row i = ground arith

succ_times : (i : ℕ) (h : ℤ) → pos 0 ≤ℤ h → pos (suc i) *ℤ h ≡ pos i *ℤ h +ℤ h
unfolding ◌+ℤ◌
succ_times i (pos n) k = rw (times_pos (suc i) n, times_pos i n) (ground arith)
succ_times i (negsuc n) k = absurd (omega arith)

row_height_lem : (rc : Rect) (n : ℕ) → pos 24 ≤ℤ row_height rc n
unfolding row_height
row_height_lem rc n = (le-max_ℤ (pos 24) (quot (rc.bottom -ℤ pos 18 -ℤ (rc.top +ℤ pos 4)) n)).0

plot_of-level : (rc : Rect) (n i : ℕ) → (plot_of rc n i).top ≤ℤ (plot_of rc n i).bottom
unfolding plot_of
plot_of-level rc n i =
    let h = row_height_lem rc n in
    let e = succ_times i (row_height rc n) (omega arith) in rw (next_row i, e) (omega int_laws)

plot_of-next : (rc : Rect) (n i : ℕ) → (plot_of rc n i).bottom +ℤ pos 6 ≡ (plot_of rc n (suc i)).top
unfolding plot_of
plot_of-next rc n i = rw (next_row i) (omega int_laws)

-- ── the rows ──
draw_row-RowFits :
    (rc : Rect) (n i : ℕ) (t_from : ℤ) (name : Wide) (smp prv : Option SampleSet)
    → AreCounts (points_of smp)
    → AreCounts (points_of prv)
    → RowFits (draw_row rc n i t_from name smp prv)
unfolding draw_row scale_of
draw_row-RowFits rc n i t_from name smp prv h k =
    let plot = plot_of rc n i in
    let o = plot_of-level rc n i in
    let peak = highest (pos 0) (points_of smp) in
    let prev_peak = highest (pos 0) (points_of prv) in
    let (one, most) = le-max_ℤ (pos 1) (max_ℤ peak prev_peak) in
    let (a, b) = le-max_ℤ peak prev_peak in
    (
      day_line-IsLevel plot t_from (scale_of smp prv) _ (points_of prv) none (omega arith) o
          (counts-OnScale (scale_of smp prv) (pos 0) (points_of prv) k (omega arith)),
      day_line-IsLevel plot t_from (scale_of smp prv) _ (points_of smp) none (omega arith) o
          (counts-OnScale (scale_of smp prv) (pos 0) (points_of smp) h (omega arith)),
    )

module _ (rc : Rect) (n : ℕ) (t_from : ℤ) (multi prev : List (Wide × SampleSet))
    (counts : All (λ e. AreCounts (e.1).points) multi)
    (prev_counts : All (λ e. AreCounts (e.1).points) prev) where
  draw_channels-RowFits :
      (i : ℕ) (ids : List (Wide × Wide))
      → (map name_of (draw_channels rc n t_from multi prev i ids) ≡ map second ids)
        × All RowFits (draw_channels rc n t_from multi prev i ids)
  unfolding draw_channels draw_row
  draw_channels-RowFits i [] = (refl, tt)
  draw_channels-RowFits i ((id, name) ∷ ids) =
      let (names, fit) = draw_channels-RowFits (suc i) ids in
      (
        ap (λ ns. name ∷ ns) names,
        (
          draw_row-RowFits rc n i t_from name (find_samples id multi) (find_samples id prev)
              (find_samples-AreCounts id multi counts) (find_samples-AreCounts id prev prev_counts),
          fit,
        ),
      )

  draw_channels-AreStacked :
      (i : ℕ) (ids : List (Wide × Wide)) → AreStacked (draw_channels rc n t_from multi prev i ids)
  unfolding draw_channels draw_row
  draw_channels-AreStacked i [] = tt
  draw_channels-AreStacked i (e ∷ []) = tt
  draw_channels-AreStacked i (e ∷ e' ∷ ids) =
      (plot_of-next rc n i, draw_channels-AreStacked (suc i) (e' ∷ ids))

-- Where no answer has a negative number of viewers, in integers without bound and on any rectangle:
-- the compared channels get a row each in their order, six pixels apart. In every row all ends of the
-- strokes of both lines, that of the week before too, are between the upper and the lower edge. How
-- far left or right they are is not said.
pub draw_multi-Compares :
    (rc : Rect) (now t_from : ℤ) (ids : List (Wide × Wide)) (multi prev : List (Wide × SampleSet))
    → All (λ e. AreCounts (e.1).points) multi
    → All (λ e. AreCounts (e.1).points) prev
    → Compares ids (draw_multi rc now t_from ids multi prev)
unfolding draw_multi
draw_multi-Compares rc now t_from [] multi prev h k = refl
draw_multi-Compares rc now t_from (e ∷ es) multi prev h k =
    let n = length (e ∷ es) in
    let (names, fit) = draw_channels-RowFits rc n t_from multi prev h k 0 (e ∷ es) in
    (names, fit, draw_channels-AreStacked rc n t_from multi prev h k 0 (e ∷ es))
