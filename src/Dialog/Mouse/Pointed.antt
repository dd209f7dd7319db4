-- ===== src/Dialog/Mouse/Pointed.antt =====
-- The sample that the window holds for the mouse, in both modes.
use stream_monitor.Prelude.{
  ℕ, suc, ◌*◌, ◌/◌, ◌≡◌, ◌⊎◌, Bool, true, false, List, [], ◌∷◌, Option, none, some,
}
use stream_monitor.Prelude.Int.{ℤ}
use stream_monitor.Dialog.{Dialog}
use stream_monitor.Dialog.Plot.{Rect, width}
use stream_monitor.Dialog.Compared.{points_of}
use stream_monitor.Dialog.Hover.{CompareRow}
use stream_monitor.Dialog.Hover.Times.{IsTimeOf}
use stream_monitor.Dialog.Hover.Nearest.{IsAscending, Hovers}
use stream_monitor.Dialog.Hover.Rows.{Hovered}
use stream_monitor.Dialog.Mouse.{Mouse, Window, Places, compare_rows}

abbrev pub AscendingRow : CompareRow → Type 0
AscendingRow (r, none) = Unit
AscendingRow (r, some s) = IsAscending s.points

-- What is picked in the row `i` of a channel, whose day begins at `from`; nothing without samples.
abbrev pub PicksIn : ℕ → ℤ → CompareRow → ℤ → Option ℕ × Option ℕ → Type 0
PicksIn i from (r, none) x h = h ≡ (none, some i)
PicksIn i from (r, some s) x h =
    (h.1 ≡ some i)
    × ((t : ℤ) × IsTimeOf r from 86400 x t × Hovers none t (12 * (86400 / width r)) s.points h.0)

module _ (pt_in_rect : Rect → ℤ → ℤ → Bool) (x y : ℤ) where
  -- The first row that the mouse is in counts, from the row `i` on.
  abbrev pub PicksFirst : ℕ → ℤ → List CompareRow → Option ℕ × Option ℕ → Type 0
  PicksFirst i from [] h = h ≡ (none, none)
  PicksFirst i from (row ∷ rows) h =
      ((pt_in_rect row.0 x y ≡ true) × PicksIn i from row x h)
      ⊎ ((pt_in_rect row.0 x y ≡ false) × PicksFirst (suc i) from rows h)

abbrev pub compared_hover : Window → Option ℕ × Option ℕ
compared_hover (d, m) = (d.hover_idx, d.hover_multi)

abbrev pub week_hover : Window → Option ℕ × ℕ
week_hover (d, m) = (d.hover_idx, m.hover_row)

module _ (pt_in_rect : Rect → ℤ → ℤ → Bool) (x y : ℤ) (p : Places) (d : Dialog) where
  abbrev rows : List CompareRow
  rows = compare_rows p.multi_rows d.multi_ids d.multi

  -- What the window holds in the mode, for the mouse at the point.
  abbrev pub Holds : Bool → Window → Type 0
  Holds true w = PicksFirst pt_in_rect x y 0 d.multi_from rows (compared_hover w)
  Holds false w =
      Hovered pt_in_rect d.week0 p.first p.second (points_of d.samples) x y (week_hover w)
