-- ===== src/Dialog/Layout.antt =====
-- src/mfc/MainDlg.cpp: the places of the controls, `layout`, and the least size of the window,
-- `OnGetMinMaxInfo`. MoveWindow takes a place and a size; here they are the rectangle.
use stream_monitor.Prelude.{ℕ, ◌-◌, ◌≤◌, ◌≡◌, ◌⊎◌, refl, List, [], ◌∷◌, arith, All}
use stream_monitor.Prelude.Int.{ℤ, pos, ◌+ℤ◌, ◌-ℤ◌, ◌*ℤ◌, ◌≤ℤ◌, int_laws}
use stream_monitor.Dialog.Plot.{Rect}

abbrev pub margin : ℤ
margin = pos 8

abbrev pub list_width : ℤ
list_width = pos 300

abbrev pub button_height : ℤ
button_height = pos 26

abbrev pub status_height : ℤ
status_height = pos 18

-- ptMinTrackSize.
abbrev pub least_size : ℕ × ℕ
least_size = (700, 420)

unfoldable pub moved : ℤ → ℤ → ℤ → ℤ → Rect
moved x y w h = record { left = x; top = y; right = x +ℤ w; bottom = y +ℤ h }

pub record Layout : Type 0 where
  pub list : Rect
  pub refresh : Rect
  pub chk_live : Rect
  pub query : Rect
  pub mode : Rect
  pub chart_title : Rect
  pub chart : Rect
  pub status : Rect

unfoldable pub layout : ℤ → ℤ → Layout
layout cx cy =
    let bottom = cy -ℤ margin -ℤ status_height in
    let button_top = bottom -ℤ button_height -ℤ pos 4 in
    let chart_left = margin +ℤ list_width +ℤ margin in
    record {
      list = moved margin margin list_width (button_top -ℤ margin -ℤ pos 6);
      refresh = moved margin button_top (pos 100) button_height;
      chk_live = moved (margin +ℤ pos 108) (button_top +ℤ pos 4) (pos 70) (button_height -ℤ pos 6);
      query = moved (margin +ℤ list_width -ℤ pos 90) button_top (pos 90) button_height;
      mode = moved chart_left (margin -ℤ pos 2) (pos 130) (pos 200);
      chart_title =
          moved (chart_left +ℤ pos 138) margin (cx -ℤ chart_left -ℤ pos 138 -ℤ margin) (pos 18);
      chart =
          moved chart_left (margin +ℤ pos 22) (cx -ℤ chart_left -ℤ margin)
            (bottom -ℤ margin -ℤ pos 22 -ℤ pos 4);
      status = moved margin (bottom +ℤ pos 2) (cx -ℤ pos 2 *ℤ margin) status_height;
    }

-- Inside the client area, and not empty.
abbrev pub IsVisible : ℤ → ℤ → Rect → Type 0
IsVisible cx cy r =
    (pos 0 ≤ℤ r.left)
    × (r.left +ℤ pos 1 ≤ℤ r.right)
    × (r.right ≤ℤ cx)
    × (pos 0 ≤ℤ r.top)
    × (r.top +ℤ pos 1 ≤ℤ r.bottom)
    × (r.bottom ≤ℤ cy)

abbrev pub AreApart : Rect → Rect → Type 0
AreApart a b =
    (a.right ≤ℤ b.left) ⊎ ((b.right ≤ℤ a.left) ⊎ ((a.bottom ≤ℤ b.top) ⊎ (b.bottom ≤ℤ a.top)))

abbrev pub ArePairwiseApart : List Rect → Type 0
ArePairwiseApart [] = Unit
ArePairwiseApart (r ∷ rs) = All (AreApart r) rs × ArePairwiseApart rs

-- All controls but the choice of the mode, whose height is that of its open list.
abbrev pub fixed_controls : Layout → List Rect
fixed_controls l =
    l.list ∷ l.refresh ∷ l.chk_live ∷ l.query ∷ l.chart_title ∷ l.chart ∷ l.status ∷ []

-- The choice of the mode is between the list and the title, above the chart by a line of text.
abbrev pub IsBetween : Layout → Type 0
IsBetween l =
    (l.list.right ≤ℤ l.mode.left)
    × (l.query.right ≤ℤ l.mode.left)
    × (l.mode.right ≤ℤ l.chart_title.left)
    × (l.mode.top +ℤ pos 24 ≤ℤ l.chart.top)

two_margins : pos 2 *ℤ margin ≡ pos 16
unfolding ◌*ℤ◌
two_margins = refl

abbrev pub IsLaidOut : ℤ → ℤ → Layout → Type 0
IsLaidOut cx cy l =
    All (IsVisible cx cy) (fixed_controls l) × ArePairwiseApart (fixed_controls l) × IsBetween l

layout-IsLaidOut : (cx cy : ℤ) → pos 463 ≤ℤ cx → pos 71 ≤ℤ cy → IsLaidOut cx cy (layout cx cy)
unfolding layout moved
layout-IsLaidOut cx cy h k =
    (rw two_margins (omega int_laws), rw two_margins (omega int_laws), omega int_laws)

-- In the client area of a window of at least the least size, whose frame takes at most 237 by 349
-- pixels off: every control but the choice of the mode is visible and not empty, no two of them
-- overlap, and the choice is between the list and the title and begins 24 pixels above the chart.
pub layout-least_size :
    (w h frame_w frame_h : ℕ)
    → least_size.0 ≤ w
    → least_size.1 ≤ h
    → frame_w ≤ 237
    → frame_h ≤ 349
    → IsLaidOut
        (pos (w - frame_w))
        (pos (h - frame_h))
        (layout (pos (w - frame_w)) (pos (h - frame_h)))
layout-least_size w h frame_w frame_h p q r s =
    layout-IsLaidOut (pos (w - frame_w)) (pos (h - frame_h)) (omega arith) (omega arith)
