-- ===== src/Tests/Chart.antt =====
-- The chart of the window on concrete data: rectangles of some pixels, and whole numbers with the
-- sum of the two distances in place of `double`.
use stream_monitor.Prelude.{ℕ, ◌+◌, ◌≡◌, refl, Bool, true, ◌&&◌, List, [], ◌∷◌, arith, some}
use stream_monitor.Prelude.Int.{ℤ, pos, ◌+ℤ◌, ◌-ℤ◌, ◌*ℤ◌, quot, ltb_ℤ, leb_ℤ, gap}
use stream_monitor.Prelude.Steps.{steps, upto}
use stream_monitor.Json.{codes}
use stream_monitor.Client.{Wide, Point, Title, SampleSet}
use stream_monitor.Dialog.Plot.{Rect, width, x_of, y_of}
use stream_monitor.Dialog.Hover.{lower_bound}
use stream_monitor.Dialog.Labels.{
  Double, Sheet, sheet_of, is_free, annotate, marker_y, score, grid, label_width, places,
  nearest_on_rect, leader_cross_count, crossings, line_at, columns,
}
use stream_monitor.Dialog.Labels.Choice.{
  IsOrdered, AreSmall, Annotated, score_for, grid_for, annotate-Annotated,
}
use stream_monitor.Dialog.Screen.{draw_chart}
use stream_monitor.Dialog.Screen.Fits.{Fits, AreCounts, draw_chart-Fits}
use stream_monitor.Dialog.Compared.{draw_multi}
use stream_monitor.Dialog.Compared.Stacked.{Compares, draw_multi-Compares}

abbrev intersects : Rect → Rect → Bool
intersects a b =
    (ltb_ℤ a.left b.right && ltb_ℤ b.left a.right) && (ltb_ℤ a.top b.bottom && ltb_ℤ b.top a.bottom)

abbrev upper : Rect
upper = record { left = pos 0; top = pos 0; right = pos 40; bottom = pos 40 }

abbrev at : ℕ → ℕ → Point
at ts v = record { ts = pos ts; viewers = pos v }

abbrev samples : List Point
samples = at 100 10 ∷ at 300000 20 ∷ at 700000 30 ∷ []

abbrev whole : Double ℤ
whole = record {
  of_int = λ a. a;
  add = λ a b. a +ℤ b;
  mul = λ a b. a *ℤ b;
  hypot = λ a b. pos (gap a (pos 0) + gap b (pos 0));
  less = ltb_ℤ;
  at_least = λ a b. leb_ℤ b a;
}

whole-IsOrdered : IsOrdered whole
whole-IsOrdered = record { less_irrefl = λ a. ground arith; less_trans = λ a b c h k. ground arith }

abbrev text_width : Wide → ℤ
text_width t = pos 10

abbrev blank : Rect
blank = record { left = pos 0; top = pos 0; right = pos 0; bottom = pos 0 }

abbrev title : ℕ → Title
title ts = record { ts = pos ts; category = codes "c"; title = codes "t" }

abbrev sheet : Sheet
sheet = sheet_of upper upper (pos 0) 100 samples

small :
    AreSmall whole
      (score_for intersects whole text_width blank sheet [] samples (title 300000))
      (grid_for intersects whole text_width blank sheet [] (title 300000))
unfolding x_of marker_y lower_bound quot y_of score grid label_width places steps upto
    nearest_on_rect leader_cross_count crossings line_at columns width ◌+ℤ◌ ◌-ℤ◌ ◌*ℤ◌ gap
small = record {
  start_high = refl;
  below_start = (refl, (refl, (refl, (refl, (refl, (refl, (refl, (refl, tt))))))));
  fits = (refl, (refl, (refl, (refl, (refl, (refl, (refl, (refl, tt))))))));
}

annotate-Annotated_example :
    Annotated
      (λ c. is_free intersects sheet [] c ≡ true)
      whole
      (score_for intersects whole text_width blank sheet [] samples (title 300000))
      (grid_for intersects whole text_width blank sheet [] (title 300000))
      []
      (pos 19)
      (pos 32)
      (title 300000)
      (annotate intersects whole text_width blank sheet samples [] (title 300000))
unfolding x_of marker_y lower_bound quot y_of ◌+ℤ◌ ◌-ℤ◌ ◌*ℤ◌
annotate-Annotated_example =
    annotate-Annotated intersects whole text_width blank sheet [] samples (title 300000)
      whole-IsOrdered small

abbrev sample_set : SampleSet
sample_set = record {
  channel_id = codes "c";
  from = pos 0;
  to = pos 700000;
  points = samples;
  info = title 300000 ∷ [];
}

abbrev window : Rect
window = record { left = pos 0; top = pos 0; right = pos 800; bottom = pos 600 }

samples-AreCounts : AreCounts samples
samples-AreCounts = ground arith

draw_chart-Fits_example : Fits window (
    draw_chart intersects whole text_width blank
      (λ p. (pos 50, pos 12))
      window
      (pos 0)
      (some sample_set)
      (some 1, 0))
draw_chart-Fits_example =
    draw_chart-Fits intersects whole text_width blank (λ p. (pos 50, pos 12)) window (pos 0)
      sample_set (some 1, 0) (at 100 10) (at 300000 20 ∷ at 700000 30 ∷ []) refl samples-AreCounts

draw_multi-Compares_example : Compares ((codes "c", codes "n") ∷ []) (
    draw_multi window
      (pos 700000)
      (pos 613560)
      ((codes "c", codes "n") ∷ [])
      ((codes "c", sample_set) ∷ [])
      [])
draw_multi-Compares_example =
    draw_multi-Compares window (pos 700000) (pos 613560) ((codes "c", codes "n") ∷ [])
      ((codes "c", sample_set) ∷ []) [] (samples-AreCounts, tt) tt
