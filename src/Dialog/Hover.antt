-- ===== src/Dialog/Hover.antt =====
-- src/mfc/MainDlg.cpp: `update_hover`, the sample under the mouse. CRect::PtInRect is a parameter;
-- the rectangles are those of the last drawing.
pub mod Nearest
pub mod Rows
pub mod Times
use stream_monitor.Prelude.{
  ℕ, suc, ◌+◌, ◌*◌, ◌/◌, Bool, true, false, ◌&&◌, List, [], ◌∷◌, Option, none, some, ltb, leb,
  if◌then◌else◌, max,
}
use stream_monitor.Prelude.Int.{ℤ, pos, ◌+ℤ◌, ◌-ℤ◌, ltb_ℤ, leb_ℤ, gap, pos_part}
use stream_monitor.Json.{bytes_eq}
use stream_monitor.Client.{Wide, Point, SampleSet}
use stream_monitor.Dialog.{week}
use stream_monitor.Dialog.Plot.{Rect, width}

-- The time under `x` in a rectangle that spans `span` seconds from `t0`; `x` is in it.
unfoldable pub time_at : Rect → ℤ → ℕ → ℤ → ℤ
time_at r t0 span x = t0 +ℤ pos (pos_part (x -ℤ r.left) * span / width r)

-- A sample with its index.
abbrev pub Cell : Type 0
Cell = ℕ × Point

-- `std::lower_bound` by time, on points that are sorted: what stands at `std::prev(it)`, `none` at
-- the first, and at `it`, `none` at the end. `i` is the index of the list's head, `before` the
-- cell in front of it.
unfoldable pub lower_bound : ℤ → ℕ → Option Cell → List Point → Option Cell × Option Cell
lower_bound t i before [] = (before, none)
lower_bound t i before (p ∷ ps) =
    let rest = lower_bound t (suc i) (some (i, p)) ps in
    if ltb_ℤ p.ts t then rest else (before, some (i, p))

-- The times that are considered: a week, or all.
abbrev pub Scope : Type 0
Scope = Option (ℤ × ℤ)

unfoldable pub is_within : Scope → ℤ → Bool
is_within none ts = true
is_within (some (lo, hi)) ts = leb_ℤ lo ts && ltb_ℤ ts hi

-- `best` and `bi`; `none` for LLONG_MAX and -1.
abbrev pub Best : Type 0
Best = Option (ℕ × Cell)

abbrev pub is_closer : ℕ → Best → Bool
is_closer d none = true
is_closer d (some (best, c)) = ltb d best

-- The body of the loop over the two iterators.
unfoldable pub consider : Scope → ℤ → Option Cell → Best → Best
consider w t none best = best
consider w t (some (i, p)) best =
    if is_within w p.ts && is_closer (gap p.ts t) best then some (gap p.ts t, (i, p)) else best

unfoldable pub nearest : Scope → ℤ → List Point → Best
nearest w t ps =
    let (before, at_it) = lower_bound t 0 none ps in consider w t before (consider w t at_it none)

-- `best <= 12 * sec_per_px`
unfoldable pub within_reach : ℕ → ℕ → Best → Option ℕ
within_reach span px none = none
within_reach span px (some (d, (i, p))) = if leb d (12 * (span / px)) then some i else none

unfoldable pub hover_in : Scope → Rect → ℤ → ℕ → List Point → ℤ → Option ℕ
hover_in w r t0 span ps x = within_reach span (width r) (nearest w (time_at r t0 span x) ps)

-- ── one channel: two rows, a week each ──
abbrev pub week_scope : ℤ → Scope
week_scope t0 = some (t0, t0 +ℤ pos week)

abbrev pub hit : Option ℕ → ℕ → Option ℕ × ℕ
hit none row = (none, 0)
hit (some i) row = (some i, row)

-- A row of the compared channels and its samples.
abbrev pub CompareRow : Type 0
CompareRow = Rect × Option SampleSet

module _ (pt_in_rect : Rect → ℤ → ℤ → Bool) where
  -- The loop over the rows ends at the first one that the point is in.
  unfoldable pub hover_rows : ℤ → Rect → Rect → List Point → ℤ → ℤ → Option ℕ × ℕ
  hover_rows week0 first second ps x y =
      if pt_in_rect first x y
      then hit (hover_in (week_scope week0) first week0 week ps x) 0
      else if pt_in_rect second x y
      then hit (hover_in (week_scope (week0 +ℤ pos week)) second (week0 +ℤ pos week) week ps x) 1
      else (none, 0)

  -- The compared channels have a row each, a day from `from`.
  unfoldable pub hover_compared : ℕ → ℤ → List CompareRow → ℤ → ℤ → Option ℕ × Option ℕ
  hover_compared i from [] x y = (none, none)
  hover_compared i from ((r, none) ∷ rows) x y =
      let rest = hover_compared (suc i) from rows x y in
      if pt_in_rect r x y then (none, some i) else rest
  hover_compared i from ((r, some s) ∷ rows) x y =
      let rest = hover_compared (suc i) from rows x y in
      if pt_in_rect r x y then (hover_in none r from 86400 s.points x, some i) else rest
