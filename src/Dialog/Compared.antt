-- ===== src/Dialog/Compared.antt =====
-- src/mfc/MainDlg.cpp: `draw_multi`, the compared channels in a row each. As in Drawing, a text is
-- told by what is written. The height of the rectangle is not less than that of the axis.
pub mod Stacked
mod Tooltip
use stream_monitor.Prelude.{
  ℕ, zero, suc, ◌+◌, ◌-◌, ◌*◌, ◌/◌, ◌≤◌, Bool, true, false, List, [], ◌∷◌, ◌++◌, Option, none, some,
  if◌then◌else◌, max, map, length, get_elem?, ltb,
}
use stream_monitor.Prelude.Int.{
  ℤ, pos, pos_part, ◌+ℤ◌, ◌-ℤ◌, ◌*ℤ◌, ltb_ℤ, leb_ℤ, quot, max_ℤ, min_ℤ,
}
use stream_monitor.Prelude.Steps.{steps}
use stream_monitor.Json.{bytes_eq}
use stream_monitor.Client.{Wide, Point, Title, SampleSet}
use stream_monitor.Dialog.{week, kst_offset}
use stream_monitor.Dialog.Plot.{Rect, x_of, y_of}
use stream_monitor.Dialog.Chart.{Stroke, move_to, line_to, stroke}
use stream_monitor.Dialog.Drawing.{Ink, text, channel, figures, clock, date, segment, box, each}
use stream_monitor.Dialog.Screen.{highest}

abbrev pub day_s : ℕ
day_s = 86400

-- `multi_.find(id)`
abbrev pub find_samples : Wide → List (Wide × SampleSet) → Option SampleSet
find_samples id [] = none
find_samples id ((k, s) ∷ m) = if bytes_eq k id then some s else find_samples id m

abbrev pub points_of : Option SampleSet → List Point
points_of none = []
points_of (some s) = s.points

abbrev pub titles_in : Option SampleSet → List Title
titles_in none = []
titles_in (some s) = s.info

-- `cur`
abbrev pub last_viewers : ℤ → List Point → ℤ
last_viewers v [] = v
last_viewers v (p ∷ ps) = last_viewers p.viewers ps

-- What is drawn for one channel: its rectangle, the line below it with the texts beside it, the
-- line of the week before, the marks of the titles and the line.
pub record Row : Type 0 where
  pub plot : Rect
  pub name : Wide
  pub ymax : ℕ
  pub frame : List Ink
  pub gray : List Stroke
  pub marks : List Ink
  pub line : List Stroke

unfoldable pub row_height : Rect → ℕ → ℤ
row_height rc n = max_ℤ (pos 24) (quot (rc.bottom -ℤ pos 18 -ℤ (rc.top +ℤ pos 4)) n)

unfoldable pub axis_of : Rect → ℕ → Rect
axis_of rc n =
    box (rc.left +ℤ pos 150) (rc.top +ℤ pos 4) (rc.right -ℤ pos 60)
      (rc.top +ℤ pos 4 +ℤ row_height rc n *ℤ pos n)

unfoldable pub plot_of : Rect → ℕ → ℕ → Rect
plot_of rc n i =
    let axis = axis_of rc n in
    box axis.left (axis.top +ℤ pos i *ℤ row_height rc n +ℤ pos 3) axis.right
      (axis.top +ℤ (pos i +ℤ pos 1) *ℤ row_height rc n -ℤ pos 3)

abbrev pub on_screen : Rect → ℤ → ℕ → Stroke → Stroke
on_screen plot t_from ymax (move_to t v) = move_to (x_of plot t_from day_s t) (y_of plot ymax v)
on_screen plot t_from ymax (line_to t v) = line_to (x_of plot t_from day_s t) (y_of plot ymax v)

-- A line with the times moved by `shift`; all points, also those that are out of the day.
unfoldable pub day_line : Rect → ℤ → ℕ → ℤ → Option ℤ → List Point → List Stroke
day_line plot t_from ymax shift last [] = []
day_line plot t_from ymax shift last (p ∷ ps) =
    let ts = p.ts +ℤ shift in
    on_screen plot t_from ymax (stroke last ts p.viewers)
    ∷ day_line plot t_from ymax shift (some ts) ps

-- Not the title in force at the start.
unfoldable pub title_marks : Rect → ℤ → List Title → List Ink
title_marks plot t_from [] = []
title_marks plot t_from (inf ∷ infs) =
    let rest = title_marks plot t_from infs in
    let x = x_of plot t_from day_s inf.ts in
    if ltb_ℤ inf.ts t_from then rest else segment x plot.top x plot.bottom ++ rest

abbrev pub numbers_of : Option SampleSet → Option (ℤ × ℤ)
numbers_of none = none
numbers_of (some s) = some (last_viewers (pos 0) s.points, highest (pos 0) s.points)

-- The scale that the two lines share.
unfoldable pub scale_of : Option SampleSet → Option SampleSet → ℕ
scale_of smp prv =
    let peak = highest (pos 0) (points_of smp) in
    let prev_peak = highest (pos 0) (points_of prv) in
    pos_part (max_ℤ (pos 1) (max_ℤ peak prev_peak))

-- `continue` where there is no point.
abbrev pub has_points : List Point → Bool
has_points [] = false
has_points (p ∷ ps) = true

unfoldable pub frame_of : Rect → ℕ → ℕ → Wide → Option SampleSet → List Ink
frame_of rc n i name smp =
    let axis = axis_of rc n in
    let row_top = axis.top +ℤ pos i *ℤ row_height rc n in
    let row_bottom = axis.top +ℤ (pos i +ℤ pos 1) *ℤ row_height rc n in
    segment rc.left row_bottom rc.right row_bottom
    ++ (text (box (rc.left +ℤ pos 4) row_top (axis.left -ℤ pos 6) row_bottom) (channel (i + 1) name)
        ∷ text (box (axis.right +ℤ pos 4) row_top rc.right row_bottom) (figures (numbers_of smp))
        ∷ [])

unfoldable pub draw_row : Rect → ℕ → ℕ → ℤ → Wide → Option SampleSet → Option SampleSet → Row
draw_row rc n i t_from name smp prv =
    let plot = plot_of rc n i in
    let ymax = scale_of smp prv in
    record {
      plot = plot;
      name = name;
      ymax = ymax;
      frame = frame_of rc n i name smp;
      gray = day_line plot t_from ymax (pos week) none (points_of prv);
      marks = if has_points (points_of smp) then title_marks plot t_from (titles_in smp) else [];
      line = day_line plot t_from ymax (pos 0) none (points_of smp);
    }

unfoldable pub draw_channels :
    Rect
    → ℕ
    → ℤ
    → List (Wide × SampleSet)
    → List (Wide × SampleSet)
    → ℕ
    → List (Wide × Wide)
    → List Row
draw_channels rc n t_from multi prev i [] = []
draw_channels rc n t_from multi prev i ((id, name) ∷ ids) =
    draw_row rc n i t_from name (find_samples id multi) (find_samples id prev)
    ∷ draw_channels rc n t_from multi prev (suc i) ids

-- The even hours, midnight and the present time.
unfoldable pub hour_columns : Rect → ℤ → List Ink
hour_columns axis t_from =
    each
      (λ t.
        let x = x_of axis t_from day_s t in
        segment x axis.top x axis.bottom
        ++ (text (box (x -ℤ pos 14) (axis.bottom +ℤ pos 2) (x +ℤ pos 14) (axis.bottom +ℤ pos 16))
              (clock t)
            ∷ []))
      (steps ((quot (t_from +ℤ pos kst_offset) 7200 +ℤ pos 1) *ℤ pos 7200 -ℤ pos kst_offset)
        (t_from +ℤ pos day_s) 7200)

unfoldable pub day_columns : Rect → ℤ → List Ink
day_columns axis t_from =
    each
      (λ t.
        let x = x_of axis t_from day_s t in
        segment x axis.top x axis.bottom
        ++ (if leb_ℤ (x +ℤ pos 40) axis.right
            then text (box (x +ℤ pos 2) (axis.top -ℤ pos 2) (x +ℤ pos 60) (axis.top +ℤ pos 12))
                (date t)
              ∷ []
            else []))
      (steps ((quot (t_from +ℤ pos kst_offset) day_s +ℤ pos 1) *ℤ pos day_s -ℤ pos kst_offset)
        (t_from +ℤ pos day_s -ℤ pos 1) day_s)

unfoldable pub now_column : Rect → ℤ → ℤ → List Ink
now_column axis t_from now =
    let x = x_of axis t_from day_s (min_ℤ now (t_from +ℤ pos day_s)) in
    segment x axis.top x axis.bottom

pub record Comparison : Type 0 where
  pub axis : Rect
  pub columns : List Ink
  pub rows : List Row

-- `none` for the note that nothing was asked for. The tooltip is drawn behind it.
unfoldable pub draw_multi :
    Rect
    → ℤ
    → ℤ
    → List (Wide × Wide)
    → List (Wide × SampleSet)
    → List (Wide × SampleSet)
    → Option Comparison
draw_multi rc now t_from [] multi prev = none
draw_multi rc now t_from (e ∷ es) multi prev =
    let n = length (e ∷ es) in
    let axis = axis_of rc n in
    some (record {
      axis = axis;
      columns = hour_columns axis t_from ++ (day_columns axis t_from ++ now_column axis t_from now);
      rows = draw_channels rc n t_from multi prev 0 (e ∷ es);
    })
