-- ===== src/Dialog/Mouse.antt =====
-- src/mfc/MainDlg.cpp: the mouse over the chart, `PreTranslateMessage` and what `update_hover` does
-- with the sample that it finds. CRect::PtInRect is a parameter; TrackMouseEvent is counted, since
-- Windows answers each request by one WM_MOUSELEAVE.
pub mod Quiet
pub mod Pointed
use stream_monitor.Prelude.{
  ℕ, suc, ◌-◌, Bool, true, false, not, ◌&&◌, List, [], ◌∷◌, Option, none, some, ◌==◌, if◌then◌else◌,
}
use stream_monitor.Prelude.Int.{ℤ}
use stream_monitor.Client.{Wide, Point, SampleSet}
use stream_monitor.Dialog.{Dialog}
use stream_monitor.Dialog.Plot.{Rect}
use stream_monitor.Dialog.Hover.{CompareRow, hover_rows, hover_compared}
use stream_monitor.Dialog.Compared.{find_samples, points_of}
use stream_monitor.Dialog.Events.{Event, handle_event, is_some}

-- `tracking_`, `hover_row_`, and the requests that Windows has not answered yet.
pub record Mouse : Type 0 where
  pub tracking : Bool
  pub hover_row : ℕ
  pub pending : ℕ

-- The rectangles of the last drawing: `row_rect_` and `multi_rows_`.
pub record Places : Type 0 where
  pub first : Rect
  pub second : Rect
  pub multi_rows : List Rect

-- A row of the comparison with the samples of its channel, none for a row beyond the channels.
unfoldable pub compare_rows :
    List Rect → List (Wide × Wide) → List (Wide × SampleSet) → List CompareRow
compare_rows [] ids m = []
compare_rows (r ∷ rs) [] m = (r, none) ∷ compare_rows rs [] m
compare_rows (r ∷ rs) ((id, name) ∷ ids) m = (r, find_samples id m) ∷ compare_rows rs ids m

abbrev pub same_index : Option ℕ → Option ℕ → Bool
same_index none none = true
same_index (some i) (some j) = i == j
same_index _ _ = false

-- The window, and whether the chart is to be drawn again.
abbrev pub Window : Type 0
Window = Dialog × Mouse

abbrev pub set_compared : Option ℕ × Option ℕ → Window → Window × Bool
set_compared (idx, row) (d, m) =
    if same_index idx d.hover_idx && same_index row d.hover_multi
    then ((d, m), false)
    else ((record d { hover_idx = idx; hover_multi = row }, m), true)

abbrev pub set_row : Option ℕ × ℕ → Window → Window × Bool
set_row (idx, row) (d, m) =
    if same_index idx d.hover_idx && row == m.hover_row
    then ((d, m), false)
    else ((record d { hover_idx = idx }, record m { hover_row = row }), true)

-- The messages to the chart: WM_MOUSEMOVE, WM_MOUSELEAVE, and the others.
pub data Message : Type 0 where
  moved : ℤ → ℤ → Message
  left other : Message

abbrev pub track : Mouse → Mouse
track m = if m.tracking then m else record m { tracking = true; pending = suc m.pending }

abbrev pub leave : Window → Window × Bool
leave (d, m) =
    let m' = record m { tracking = false; pending = m.pending - 1 } in
    if is_some d.hover_idx then ((record d { hover_idx = none }, m'), true) else ((d, m'), false)

-- A message, in the mode and with the rectangles of that time, or an event of the window.
pub data Step : Type 0 where
  message : Bool → Places → Message → Step
  event : Event → Step

module _ (pt_in_rect : Rect → ℤ → ℤ → Bool) where
  unfoldable pub update_hover : Bool → Places → ℤ → ℤ → Window → Window × Bool
  update_hover multi p x y (d, m) =
      if multi
      then set_compared
          (hover_compared pt_in_rect 0 d.multi_from (compare_rows p.multi_rows d.multi_ids d.multi)
            x y)
          (d, m)
      else set_row (hover_rows pt_in_rect d.week0 p.first p.second (points_of d.samples) x y) (d, m)

  unfoldable pub pre_translate : Bool → Places → Message → Window → Window × Bool
  pre_translate multi p (moved x y) (d, m) = update_hover multi p x y (d, track m)
  pre_translate multi p left w = leave w
  pre_translate multi p other w = (w, false)

  unfoldable pub take_step : Step → Window → Window
  take_step (message multi p msg) w = (pre_translate multi p msg w).0
  take_step (event e) (d, m) = (handle_event e d, m)

  unfoldable pub take_steps : List Step → Window → Window
  take_steps [] w = w
  take_steps (s ∷ ss) w = take_steps ss (take_step s w)
