-- ===== src/Dialog/Hover/Rows.antt =====
-- What the mouse picks in the two rows of a channel and in the rows of the compared channels.
use stream_monitor.Prelude.{
  if-elim, ℕ, ◌*◌, ◌/◌, ◌≡◌, refl, Bool, true, false, List, Option, none, some, arith,
}
use stream_monitor.Prelude.Int.{ℤ, pos, ◌+ℤ◌}
use stream_monitor.Client.{Point}
use stream_monitor.Dialog.{week}
use stream_monitor.Dialog.Plot.{Rect, width}
use stream_monitor.Dialog.Hover.{time_at, hover_in, week_scope, hit, hover_rows}
use stream_monitor.Dialog.Hover.Times.{IsTimeOf, time_at-IsTimeOf}
use stream_monitor.Dialog.Hover.Nearest.{
  IsAscending, IsInside, Hovers, hover_in-Hovers, time_at-within,
}

-- What is picked in the row `r` of the week from `t0`, and the row that is held with it: 0 where
-- nothing is picked.
abbrev pub Picks : ℤ → Rect → ℕ → List Point → ℤ → Option ℕ × ℕ → Type 0
Picks t0 r row ps x (i, at_row) =
    (t : ℤ) × IsTimeOf r t0 week x t
    × Hovers (week_scope t0) t (12 * (week / width r)) ps i
    × (at_row ≡ elim i [ none ↦ 0 | some _ ↦ row ])

hit-Picks :
    (t0 : ℤ) (r : Rect) (row : ℕ) (ps : List Point) (x : ℤ) (i : Option ℕ)
    → Hovers (week_scope t0) (time_at r t0 week x) (12 * (week / width r)) ps i
    → Picks t0 r row ps x (hit i row)
hit-Picks t0 r row ps x none h = (time_at r t0 week x, time_at-IsTimeOf r t0 week x, h, refl)
hit-Picks t0 r row ps x (some i) h = (time_at r t0 week x, time_at-IsTimeOf r t0 week x, h, refl)

hover_in-Picks :
    (t0 : ℤ) (r : Rect) (row : ℕ) (ps : List Point) (x : ℤ)
    → IsAscending ps
    → IsInside r x
    → Picks t0 r row ps x (hit (hover_in (week_scope t0) r t0 week ps x) row)
hover_in-Picks t0 r row ps x s h =
    hit-Picks t0 r row ps x _ (
      hover_in-Hovers (week_scope t0) r t0 week ps x (time_at-within r t0 week x (omega arith) h) s)

module _ (pt_in_rect : Rect → ℤ → ℤ → Bool) (week0 : ℤ) (first second : Rect) (ps : List Point)
    (x y : ℤ) where
  -- Where the mouse is, and what is picked there.
  pub data Hovered : Option ℕ × ℕ → Type 0 where
    in_first :
        (h : Option ℕ × ℕ) → pt_in_rect first x y ≡ true → Picks week0 first 0 ps x h → Hovered h
    in_second :
        (h : Option ℕ × ℕ)
        → pt_in_rect first x y ≡ false
        → pt_in_rect second x y ≡ true
        → Picks (week0 +ℤ pos week) second 1 ps x h
        → Hovered h
    outside : pt_in_rect first x y ≡ false → pt_in_rect second x y ≡ false → Hovered (none, 0)

  -- With the points in the order of their times, the sample that `update_hover` shows for a mouse
  -- in a row is one of that row's week, no other sample of the week is nearer to the time under the
  -- mouse, and it is at most the time of 12 pixels away; when none is shown, every sample of the week is
  -- further than that. The first row counts where the rows overlap, and outside both rows there is
  -- no sample. CRect::PtInRect gives only points that are not left of the rectangle and are left of
  -- its right edge.
  pub hover_rows-Hovered :
      ((r : Rect) → pt_in_rect r x y ≡ true → IsInside r x)
      → IsAscending ps
      → Hovered (hover_rows pt_in_rect week0 first second ps x y)
  unfolding hover_rows
  hover_rows-Hovered inside s =
      if-elim Hovered (pt_in_rect first x y) _ _
        (λ h. in_first _ h (hover_in-Picks week0 first 0 ps x s (inside first h)))
        (λ n.
          if-elim Hovered (pt_in_rect second x y) _ _
            (λ h.
              in_second _ n h
                (hover_in-Picks (week0 +ℤ pos week) second 1 ps x s (inside second h)))
            (λ m. outside n m))
