-- ===== src/Dialog/Labels/Apart.antt =====
-- Where the labels of `draw_annotations` stand.
use stream_monitor.Prelude.{◌^◌, ◌≡◌, Bool, true, false, List, [], ◌∷◌, ◌++◌, All}
use stream_monitor.Prelude.Int.{ℤ, pos, ◌+ℤ◌, ◌-ℤ◌, ◌≤ℤ◌}
use stream_monitor.Prelude.Steps.{steps}
use stream_monitor.Client.{Wide}
use stream_monitor.Dialog.Plot.{Rect}
use stream_monitor.Dialog.Labels.{Double, Sheet, Mark, dot, label, inflate, in_data, line_at}
use stream_monitor.Dialog.Labels.Places.{HasGap, InPlot}

abbrev pub labels_of : List Mark → List Rect
labels_of [] = []
labels_of (dot x y ∷ ms) = labels_of ms
labels_of (label x y q r inf ∷ ms) = r ∷ labels_of ms

module _ (intersects : Rect → Rect → Bool) where
  -- A label that is 3 pixels larger on every side meets none that was placed before it.
  abbrev pub AreApart : List Rect → Type 0
  AreApart [] = Unit
  AreApart (q ∷ qs) = All (λ r. intersects (inflate r) q ≡ false) qs × AreApart qs

  -- Over the data, in none of the columns from 3 pixels left of a label to 3 pixels right of it are
  -- the heights of the line that `columns` notes within 3 pixels of the label.
  abbrev pub IsClear : Sheet → Rect → Type 0
  IsClear s r =
      in_data s.area r ≡ true
      → All (λ x. line_at s x (r.top -ℤ pos 3) (r.bottom +ℤ pos 3) ≡ false)
          (steps (r.left -ℤ pos 3) (r.right +ℤ pos 3) 1)

  abbrev pub Kept : Sheet → List Rect → Type 0
  Kept s rs = AreApart rs × All (λ r. InPlot s.plot r × IsClear s r) rs

  abbrev pub HaveGaps : List Rect → Type 0
  HaveGaps [] = Unit
  HaveGaps (q ∷ qs) = All (λ r. HasGap q r) qs × HaveGaps qs

  abbrev pub Stand : Sheet → List Rect → Type 0
  Stand s rs = HaveGaps rs × All (λ r. InPlot s.plot r × IsClear s r) rs

  module _ {D : Type 0} (d : Double D) (text_width : Wide → ℤ) (blank : Rect)
      (widths : (u : Wide) → pos 0 ≤ℤ text_width u)
      (start_high : d.at_least (d.of_int (pos (10 ^ 18))) (d.of_int (pos (10 ^ 17))) ≡ true) where
    abbrev KeptAll : Sheet → List Rect → List Rect × List Mark → Type 0
    KeptAll s placed (rs, ms) = Kept s rs × (rs ≡ placed ++ labels_of ms)
