-- ===== src/Dialog/Screen.antt =====
-- src/mfc/MainDlg.cpp: `draw_chart` for one channel and `draw_hover`.
pub mod Inside
pub mod Fits
use stream_monitor.Prelude.{
  ℕ, zero, suc, ◌+◌, ◌*◌, ◌==◌, Bool, true, false, ◌||◌, List, [], ◌∷◌, ◌++◌, Option, none, some,
  if◌then◌else◌, get_elem?,
}
use stream_monitor.Prelude.Int.{ℤ, pos, pos_part, ◌+ℤ◌, ◌-ℤ◌, ltb_ℤ, quot, max_ℤ}
use stream_monitor.Client.{Wide, Point, Title, SampleSet}
use stream_monitor.Dialog.{week}
use stream_monitor.Dialog.Plot.{Rect, x_of, y_of, reserve_of, data_of}
use stream_monitor.Dialog.Chart.{Stroke, y_step, y_max}
use stream_monitor.Dialog.Labels.{Double}
use stream_monitor.Dialog.Drawing.{
  Ink, text, title_line, point_line, dot_at, segment, box, lines, draw_week,
}

-- `vmax`
unfoldable pub highest : ℤ → List Point → ℤ
highest v [] = v
highest v (p ∷ ps) = highest (max_ℤ v p.viewers) ps

-- `samples_->info.back()`
abbrev pub last_of {ℓ} : {A : Type ℓ} → List A → Option A
last_of [] = none
last_of (x ∷ []) = some x
last_of (x ∷ y ∷ ys) = last_of (y ∷ ys)

-- What `draw_chart` does: one of the two notes, nothing where the chart is too small, or the chart,
-- with `ymax_`, `row_rect_` and the lines of the two rows.
pub record Chart : Type 0 where
  pub ymax : ℕ
  pub first : Rect
  pub second : Rect
  pub first_lines : List Stroke
  pub second_lines : List Stroke
  pub ink : List Ink

pub data Drawn : Type 0 where
  not_asked no_data too_small : Drawn
  chart : Chart → Drawn

abbrev pub current : Rect → ℤ → ℤ → Option Title → List Ink
current rc l r none = []
current rc l r (some inf) =
    text (box l (rc.top +ℤ pos 2) r (rc.top +ℤ pos 20)) (title_line inf) ∷ []

-- `draw_hover`: the line and the dot at the sample `i` and its text, which is moved to the left of
-- the mouse or below it where it would leave the rectangle. `extent` is the size of the text.
abbrev pub tooltip : Rect → ℤ → ℤ → Point → ℤ × ℤ → List Ink
tooltip plot x y p (cx, cy) =
    let w = cx +ℤ pos 12 in
    let h = cy +ℤ pos 8 in
    let right = x +ℤ pos 12 in
    let above = y -ℤ h -ℤ pos 6 in
    let bx = if ltb_ℤ plot.right (right +ℤ w) then x -ℤ pos 12 -ℤ w else right in
    let by = if ltb_ℤ above plot.top then y +ℤ pos 10 else above in
    segment x plot.top x plot.bottom
    ++ (dot_at x y
        ∷ text (box (bx +ℤ pos 6) (by +ℤ pos 4) (bx +ℤ w -ℤ pos 6) (by +ℤ h -ℤ pos 4))
            (point_line p)
        ∷ [])

abbrev pub hover_point : Rect → ℤ → ℕ → (Point → ℤ × ℤ) → Option Point → List Ink
hover_point plot t0 ymax extent none = []
hover_point plot t0 ymax extent (some p) =
    tooltip plot (x_of plot t0 week p.ts) (y_of plot ymax p.viewers) p (extent p)

unfoldable pub draw_hover :
    (Point → ℤ × ℤ) → ℤ → List Point → Option ℕ × ℕ → ℕ → Rect → Rect → List Ink
draw_hover extent week0 ps (none, row) ymax first second = []
draw_hover extent week0 ps (some i, row) ymax first second =
    hover_point (if row == 0 then first else second) (week0 +ℤ pos (row * week)) ymax extent
      (get_elem? ps i)

module _ (intersects : Rect → Rect → Bool) {D : Type 0} (d : Double D) (text_width : Wide → ℤ)
    (blank : Rect) where
  -- With the step that the search has found.
  unfoldable pub draw_rows : Rect → ℤ → SampleSet → ℕ → ℕ → (ℕ → Rect → Rect → List Ink) → Drawn
  draw_rows rc week0 s vmax step hover =
      let ymax = y_max vmax step in
      let l = rc.left +ℤ pos 60 in
      let r = rc.right -ℤ pos 12 in
      let t = rc.top +ℤ pos 40 in
      let b = rc.bottom -ℤ pos 22 in
      let row_h = quot (b -ℤ t -ℤ pos 30) 2 in
      let upper = box l t r (t +ℤ row_h) in
      let lower = box l (t +ℤ row_h +ℤ pos 30) r b in
      let week1 = week0 +ℤ pos week in
      let first = data_of upper (reserve_of week0 s.info) in
      let second = data_of lower (reserve_of week1 s.info) in
      if ltb_ℤ (r -ℤ l) (pos 10) || ltb_ℤ row_h (pos 10)
      then too_small
      else chart (record {
        ymax = ymax;
        first = first;
        second = second;
        first_lines = lines upper first week0 ymax 0 s.points;
        second_lines = lines lower second week1 ymax 1 s.points;
        ink =
            draw_week intersects d text_width blank upper week0 ymax step 0 s
            ++ (draw_week intersects d text_width blank lower week1 ymax step 1 s
                ++ (hover ymax first second ++ current rc l r (last_of s.info)));
      })

  -- The search for the step runs on fuel; `none` where it is not enough.
  abbrev pub draw_step :
      Rect → ℤ → SampleSet → ℕ → (ℕ → Rect → Rect → List Ink) → Option ℕ → Option Drawn
  draw_step rc week0 s vmax hover none = none
  draw_step rc week0 s vmax hover (some step) = some (draw_rows rc week0 s vmax step hover)

  abbrev pub draw_points :
      Rect → ℤ → SampleSet → (ℕ → Rect → Rect → List Ink) → List Point → Option Drawn
  draw_points rc week0 s hover [] = some no_data
  draw_points rc week0 s hover (p ∷ ps) =
      let vmax = pos_part (highest (pos 0) (p ∷ ps)) in
      draw_step rc week0 s vmax hover (y_step vmax)

  -- `hovered` is `hover_idx_` and `hover_row_`.
  unfoldable pub draw_chart :
      (Point → ℤ × ℤ) → Rect → ℤ → Option SampleSet → Option ℕ × ℕ → Option Drawn
  draw_chart extent rc week0 none hovered = some not_asked
  draw_chart extent rc week0 (some s) hovered =
      draw_points rc week0 s (draw_hover extent week0 s.points hovered) s.points
