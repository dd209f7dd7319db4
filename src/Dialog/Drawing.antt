-- ===== src/Dialog/Drawing.antt =====
-- src/mfc/MainDlg.cpp: `draw_week`, as what it draws, in its order. Pens, colours, fonts and the formats of DrawText are left out; a text is told by what
-- is written. The parameters are those of the labels.
use stream_monitor.Prelude.{
  ℕ, ◌*◌, ◌/◌, ◌%◌, ◌==◌, Bool, List, [], ◌∷◌, ◌++◌, none, Option, if◌then◌else◌, map, ltb,
}
use stream_monitor.Prelude.Int.{ℤ, pos, pos_part, ◌+ℤ◌, ◌-ℤ◌, ltb_ℤ}
use stream_monitor.Prelude.Steps.{steps}
use stream_monitor.Client.{Wide, Point, Title, SampleSet}
use stream_monitor.Dialog.{week}
use stream_monitor.Dialog.Plot.{Rect, x_of, y_of, reserve_of, data_of}
use stream_monitor.Dialog.Chart.{Stroke, move_to, line_to, draw_line}
use stream_monitor.Dialog.Labels.{Double, Mark, draw_annotations}

pub data Text : Type 0 where
  number : ℤ → Text
  hour : ℕ → Text
  day : ℕ → ℤ → Text
  title_line : Title → Text
  point_line : Point → Text
  clock date : ℤ → Text
  channel : ℕ → Wide → Text
  figures : Option (ℤ × ℤ) → Text
  named_point : Wide → Point → Text

pub data Ink : Type 0 where
  stroke_of : Stroke → Ink
  text : Rect → Text → Ink
  mark_of : Mark → Ink
  dot_at : ℤ → ℤ → Ink

abbrev pub box : ℤ → ℤ → ℤ → ℤ → Rect
box l t r b = record { left = l; top = t; right = r; bottom = b }

abbrev pub segment : ℤ → ℤ → ℤ → ℤ → List Ink
segment x y x' y' = stroke_of (move_to x y) ∷ stroke_of (line_to x' y') ∷ []

abbrev pub each {ℓ κ} : {A : Type ℓ} {B : Type κ} → (A → List B) → List A → List B
each f [] = []
each f (x ∷ xs) = f x ++ each f xs

-- The lines and numbers of the scale.
unfoldable pub scale_lines : Rect → Rect → ℕ → ℕ → List Ink
scale_lines plot area ymax ystep =
    each
      (λ v.
        let y = y_of area ymax v in
        segment plot.left y plot.right y
        ++ (text (box (plot.left -ℤ pos 58) (y -ℤ pos 8) (plot.left -ℤ pos 4) (y +ℤ pos 8))
              (number v)
            ∷ []))
      (steps (pos 0) (pos ymax) ystep)

-- The lines every six hours, not at midnight, and the hours below the second row.
unfoldable pub hour_lines : Rect → ℤ → ℕ → List Ink
hour_lines plot t0 row =
    each
      (λ t.
        let x = x_of plot t0 week t in
        let of_day = pos_part (t -ℤ t0) % 86400 in
        (if of_day == 0 then [] else segment x plot.top x plot.bottom)
        ++ (if row == 1
            then text
                (box (x -ℤ pos 14) (plot.bottom +ℤ pos 2) (x +ℤ pos 14) (plot.bottom +ℤ pos 16))
                (hour (of_day / 3600))
              ∷ []
            else []))
      (steps t0 (t0 +ℤ pos week -ℤ pos 1) (6 * 3600))

-- The lines between the days, and the days.
unfoldable pub day_lines : Rect → ℤ → List Ink
day_lines plot t0 =
    each
      (λ d.
        let t = t0 +ℤ pos (pos_part d * 86400) in
        let x = x_of plot t0 week t in
        let x2 = x_of plot t0 week (t +ℤ pos 86400) in
        segment x (plot.top -ℤ pos 14) x plot.bottom
        ++ (if ltb_ℤ d (pos 7)
            then text (box (x +ℤ pos 2) (plot.top -ℤ pos 16) (x2 -ℤ pos 2) (plot.top -ℤ pos 1))
                (day (pos_part d) t)
              ∷ []
            else []))
      (steps (pos 0) (pos 7) 1)

unfoldable pub axis_lines : Rect → Rect → ℕ → List Ink
axis_lines plot area reserve =
    (stroke_of (move_to plot.left plot.top)
      ∷ stroke_of (line_to plot.left plot.bottom)
      ∷ stroke_of (line_to plot.right plot.bottom)
      ∷ [])
    ++ (if ltb 0 reserve
        then segment plot.left area.top plot.right area.top
          ++ segment plot.left area.bottom plot.right area.bottom
        else [])

-- The end of a stroke on the screen.
abbrev pub place : Rect → Rect → ℤ → ℕ → Stroke → Stroke
place plot area t0 ymax (move_to ts v) = move_to (x_of plot t0 week ts) (y_of area ymax v)
place plot area t0 ymax (line_to ts v) = line_to (x_of plot t0 week ts) (y_of area ymax v)

-- The week before in gray, in the second row only, and the week.
unfoldable pub lines : Rect → Rect → ℤ → ℕ → ℕ → List Point → List Stroke
lines plot area t0 ymax row ps =
    (if row == 1 then map (place plot area t0 ymax) (draw_line t0 (pos week) none ps) else [])
    ++ map (place plot area t0 ymax) (draw_line t0 (pos 0) none ps)

module _ (intersects : Rect → Rect → Bool) {D : Type 0} (d : Double D) (text_width : Wide → ℤ)
    (blank : Rect) where
  unfoldable pub draw_week : Rect → ℤ → ℕ → ℕ → ℕ → SampleSet → List Ink
  draw_week plot t0 ymax ystep row s =
      let reserve = reserve_of t0 s.info in
      let area = data_of plot reserve in
      scale_lines plot area ymax ystep
      ++ (hour_lines plot t0 row
          ++ (day_lines plot t0
              ++ (axis_lines plot area reserve
                  ++ (map stroke_of (lines plot area t0 ymax row s.points)
                      ++ map mark_of
                          (draw_annotations intersects d text_width blank plot area t0 ymax s.points
                            s.info).1))))
