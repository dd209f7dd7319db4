-- ===== src/Dialog/Plot.antt =====
-- src/mfc/MainDlg.cpp: the rectangles of the chart and the places of times and viewers in them.
use stream_monitor.Prelude.{ℕ, suc, ◌+◌, ◌*◌, ◌&&◌, List, [], ◌∷◌, if◌then◌else◌, max, ltb, ◌==◌}
use stream_monitor.Prelude.Int.{ℤ, pos, pos_part, ◌+ℤ◌, ◌-ℤ◌, ◌*ℤ◌, ltb_ℤ, leb_ℤ, quot}
use stream_monitor.Client.{Title}
use stream_monitor.Dialog.{week}

pub record Rect : Type 0 where
  pub left : ℤ
  pub top : ℤ
  pub right : ℤ
  pub bottom : ℤ

-- `std::max(1, r.Width())`
unfoldable pub width : Rect → ℕ
width r = max 1 (pos_part (r.right -ℤ r.left))

-- `Width()` and `Height()`
abbrev pub width_ℤ : Rect → ℤ
width_ℤ r = r.right -ℤ r.left

abbrev pub height_ℤ : Rect → ℤ
height_ℤ r = r.bottom -ℤ r.top

-- The column of a time and the line of a number of viewers, on a scale up to `ymax`. Both
-- quotients round towards 0.
unfoldable pub x_of : Rect → ℤ → ℕ → ℤ → ℤ
x_of plot t0 span ts = plot.left +ℤ quot ((ts -ℤ t0) *ℤ width_ℤ plot) span

unfoldable pub y_of : Rect → ℕ → ℤ → ℤ
y_of area ymax v = area.bottom -ℤ quot (v *ℤ height_ℤ area) ymax

-- The titles of a week, and the rows of labels that they get.
unfoldable pub titles_of : ℤ → List Title → ℕ
titles_of t0 [] = 0
titles_of t0 (inf ∷ infs) =
    let n = titles_of t0 infs in
    if leb_ℤ t0 inf.ts && ltb_ℤ inf.ts (t0 +ℤ pos week) then suc n else n

unfoldable pub label_rows_for : ℤ → List Title → ℕ
label_rows_for t0 infs = let n = titles_of t0 infs in if n == 0 then 0 else if ltb 6 n then 2 else 1

-- What is left of the rectangle when the bands for the labels are cut off above and below; the
-- whole rectangle where less than 40 lines would be left.
unfoldable pub reserve_of : ℤ → List Title → ℕ
reserve_of t0 infs = label_rows_for t0 infs * (2 * 14 + 2 + 3)

unfoldable pub data_of : Rect → ℕ → Rect
data_of plot reserve =
    let inner = record plot {
      top = plot.top +ℤ pos reserve;
      bottom = plot.bottom -ℤ pos reserve;
    } in
    if ltb_ℤ (height_ℤ inner) (pos 40) then plot else inner
