-- ===== src/Dialog/Labels.antt =====
-- src/mfc/MainDlg.cpp: `draw_annotations`, where the labels of the changed titles are placed.
-- CRect::IntersectRect, the width of a text (CDC::GetTextExtent), what `CRect best;` holds and the
-- operations of `double` are parameters. Pens, colours and fonts are left out.
pub mod Choice
pub mod Apart
pub mod Places
use stream_monitor.Prelude.{
  ℕ, zero, suc, ◌+◌, ◌*◌, ◌^◌, Bool, true, false, ◌&&◌, ◌||◌, not, List, [], ◌∷◌, ◌++◌, Option,
  none, some, if◌then◌else◌, max, map,
}
use stream_monitor.Prelude.Int.{
  ℤ, pos, ◌+ℤ◌, ◌-ℤ◌, ◌*ℤ◌, ltb_ℤ, leb_ℤ, quot, gap, min_ℤ, max_ℤ, clamp,
}
use stream_monitor.Prelude.Steps.{steps, foldl, any}
use stream_monitor.Client.{Wide, Point, Title}
use stream_monitor.Dialog.{week}
use stream_monitor.Dialog.Plot.{Rect, width, x_of, y_of}
use stream_monitor.Dialog.Hover.{lower_bound}

-- What the code does with `double`. Its literals here are whole numbers.
pub record Double (D : Type 0) : Type 0 where
  pub of_int : ℤ → D
  pub add : D → D → D
  pub mul : D → D → D
  pub hypot : D → D → D
  pub less : D → D → Bool
  pub at_least : D → D → Bool

-- `col_top` and `col_bot` of a column; `none` for INT_MAX and INT_MIN.
abbrev pub Column : Type 0
Column = Option (ℤ × ℤ)

-- The variables that the lambdas capture.
pub record Sheet : Type 0 where
  pub plot : Rect
  pub area : Rect
  pub t0 : ℤ
  pub ymax : ℕ
  pub cols : ℤ → Column

abbrev pub is_out : ℤ → ℤ → Bool
is_out t0 ts = ltb_ℤ ts t0 || not (ltb_ℤ ts (t0 +ℤ pos week))

abbrev pub is_outside : Rect → ℤ → Bool
is_outside plot cx = ltb_ℤ cx (pos 0) || ltb_ℤ (pos (width plot)) cx

abbrev pub widen : ℤ → Column → Column
widen cy none = some (cy, cy)
widen cy (some (t, b)) = some (min_ℤ t cy, max_ℤ b cy)

abbrev pub mark_column : (ℤ → Column) → ℤ → ℤ → ℤ → Column
mark_column cols cx cy c = if leb_ℤ c cx && leb_ℤ cx c then widen cy (cols c) else cols c

unfoldable pub columns : Rect → Rect → ℤ → ℕ → (ℤ → Column) → List Point → ℤ → Column
columns plot area t0 ymax cols [] = cols
columns plot area t0 ymax cols (p ∷ ps) =
    let cx = x_of plot t0 week p.ts -ℤ plot.left in
    let marked = columns plot area t0 ymax (mark_column cols cx (y_of area ymax p.viewers)) ps in
    let skipped = columns plot area t0 ymax cols ps in
    if is_out t0 p.ts then skipped else if is_outside plot cx then skipped else marked

abbrev pub sheet_of : Rect → Rect → ℤ → ℕ → List Point → Sheet
sheet_of plot area t0 ymax ps = record {
  plot = plot;
  area = area;
  t0 = t0;
  ymax = ymax;
  cols = columns plot area t0 ymax (λ _. none) ps;
}

-- Whether the line of the viewers meets [y0, y1] in the column `px`.
abbrev pub meets : ℤ → ℤ → Column → Bool
meets y0 y1 none = false
meets y0 y1 (some (t, b)) = leb_ℤ t y1 && leb_ℤ y0 b

unfoldable pub line_at : Sheet → ℤ → ℤ → ℤ → Bool
line_at s px y0 y1 =
    let cx = px -ℤ s.plot.left in if is_outside s.plot cx then false else meets y0 y1 (s.cols cx)

-- kGap = 3, kLabelH = 2 * 14 + 2, kMaxLabelW = 220
abbrev pub label_h : ℕ
label_h = 2 * 14 + 2

unfoldable pub hits_line : Sheet → Rect → Bool
hits_line s r =
    any (λ x. line_at s x (r.top -ℤ pos 3) (r.bottom +ℤ pos 3))
      (steps (r.left -ℤ pos 3) (r.right +ℤ pos 3) 1)

-- The point of a rectangle that is nearest to a point.
unfoldable pub nearest_on_rect : ℤ → ℤ → Rect → ℤ × ℤ
nearest_on_rect px py r = (clamp px r.left r.right, clamp py r.top r.bottom)

-- The columns in which the straight line from (px, py) crosses the line of the viewers, its first
-- four pixels aside. `last` is `last_col`, `none` for INT_MIN.
abbrev pub is_last : ℤ → Option ℤ → Bool
is_last x none = false
is_last x (some c) = leb_ℤ x c && leb_ℤ c x

unfoldable pub crossings : Sheet → ℤ → ℤ → ℤ → ℤ → ℕ → ℕ → Option ℤ → List ℤ → ℕ
crossings s px py dx dy d n last [] = n
crossings s px py dx dy d n last (i ∷ is) =
    let x = px +ℤ quot (dx *ℤ i) d in
    let y = py +ℤ quot (dy *ℤ i) d in
    let same = crossings s px py dx dy d n last is in
    let hit = crossings s px py dx dy d (suc n) (some x) is in
    let missed = crossings s px py dx dy d n (some x) is in
    if is_last x last then same else if line_at s x (y -ℤ pos 1) (y +ℤ pos 1) then hit else missed

unfoldable pub leader_cross_count : Sheet → ℤ → ℤ → ℤ × ℤ → ℕ
leader_cross_count s px py (qx, qy) =
    let far = max (gap qx px) (gap qy py) in
    crossings s px py (qx -ℤ px) (qy -ℤ py) (max 1 far) 0 none (steps (pos 4) (pos far) 1)

abbrev pub in_data : Rect → Rect → Bool
in_data area cand = ltb_ℤ area.top cand.bottom && ltb_ℤ cand.top area.bottom

module _ {D : Type 0} (d : Double D) where
  unfoldable pub score : Sheet → ℤ → ℤ → Rect → D
  score s x y cand =
      let q = nearest_on_rect x y cand in
      let dist = d.hypot (d.of_int (q.0 -ℤ x)) (d.of_int (q.1 -ℤ y)) in
      let a = if in_data s.area cand then d.add dist (d.of_int (pos 40)) else dist in
      let crossed = d.of_int (pos (leader_cross_count s x y q)) in
      let b = d.add a (d.mul (d.of_int (pos 25)) crossed) in
      if d.less dist (d.of_int (pos 6)) then d.add b (d.of_int (pos 20)) else b

-- The places of the two loops, in their order.
abbrev pub row_of : ℤ → ℤ → ℤ → Rect
row_of w ly lx = record { left = lx; top = ly; right = lx +ℤ w; bottom = ly +ℤ pos label_h }

unfoldable pub places : ℤ → List ℤ → List ℤ → List Rect
places w [] lxs = []
places w (ly ∷ lys) lxs = map (row_of w ly) lxs ++ places w lys lxs

unfoldable pub grid : Rect → ℤ → ℤ → List Rect
grid plot x w =
    places w (steps (plot.top +ℤ pos 1) (plot.bottom -ℤ pos 1 -ℤ pos label_h) 6)
      (steps (max_ℤ plot.left (x -ℤ w -ℤ pos 260)) (min_ℤ (plot.right -ℤ w) (x +ℤ pos 260)) 8)

abbrev pub inflate : Rect → Rect
inflate r = record {
  left = r.left -ℤ pos 3;
  top = r.top -ℤ pos 3;
  right = r.right +ℤ pos 3;
  bottom = r.bottom +ℤ pos 3;
}

-- What is drawn for a title: a dot, or a dot, the line to the label and the label.
pub data Mark : Type 0 where
  dot : ℤ → ℤ → Mark
  label : ℤ → ℤ → ℤ × ℤ → Rect → Title → Mark

unfoldable pub label_width : (Wide → ℤ) → Title → ℤ
label_width text_width inf =
    min_ℤ (max_ℤ (text_width inf.category) (text_width inf.title) +ℤ pos 6) (pos 220)

-- The height of the first point that is not before the title, the lower edge where there is
-- none in the week.
abbrev pub height_at : Sheet → Option (ℕ × Point) → ℤ
height_at s none = s.area.bottom
height_at s (some (i, p)) =
    if ltb_ℤ p.ts (s.t0 +ℤ pos week) then y_of s.area s.ymax p.viewers else s.area.bottom

unfoldable pub marker_y : Sheet → List Point → ℤ → ℤ
marker_y s ps ts = height_at s (lower_bound ts 0 none ps).1

module _ (intersects : Rect → Rect → Bool) where
  unfoldable pub hits_label : List Rect → Rect → Bool
  hits_label placed r = any (λ q. intersects (inflate r) q) placed

  -- The `continue`s of the inner loop.
  unfoldable pub is_free : Sheet → List Rect → Rect → Bool
  is_free s placed cand =
      if hits_label placed cand then false else not (in_data s.area cand && hits_line s cand)

  module _ {D : Type 0} (d : Double D) (text_width : Wide → ℤ) (blank : Rect) where
    -- `best_score` and `best`
    unfoldable pub consider_place : Sheet → List Rect → ℤ → ℤ → D × Rect → Rect → D × Rect
    consider_place s placed x y best cand =
        if is_free s placed cand && d.less (score d s x y cand) best.0
        then (score d s x y cand, cand)
        else best

    unfoldable pub best_place : Sheet → List Rect → ℤ → ℤ → ℤ → D × Rect
    best_place s placed x y w =
        foldl (consider_place s placed x y) (d.of_int (pos (10 ^ 18)), blank) (grid s.plot x w)

    -- The end of the loop's body: `placed` after it, and what is drawn.
    abbrev pub put_label : List Rect → Title → ℤ → ℤ → D × Rect → List Rect × Mark
    put_label placed inf x y (best_score, best) =
        if d.at_least best_score (d.of_int (pos (10 ^ 17)))
        then (placed, dot x y)
        else (placed ++ (best ∷ []), label x y (nearest_on_rect x y best) best inf)

    unfoldable pub annotate : Sheet → List Point → List Rect → Title → List Rect × Mark
    annotate s ps placed inf =
        let x = x_of s.plot s.t0 week inf.ts in
        let y = marker_y s ps inf.ts in
        put_label placed inf x y (best_place s placed x y (label_width text_width inf))

    unfoldable pub annotate_all :
        Sheet → List Point → List Rect → List Title → List Rect × List Mark
    annotate_all s ps placed [] = (placed, [])
    annotate_all s ps placed (inf ∷ infs) =
        let skipped = annotate_all s ps placed infs in
        let (placed', mark) = annotate s ps placed inf in
        let (all, marks) = annotate_all s ps placed' infs in
        if is_out s.t0 inf.ts then skipped else (all, mark ∷ marks)

    unfoldable pub draw_annotations :
        Rect → Rect → ℤ → ℕ → List Point → List Title → List Rect × List Mark
    draw_annotations plot area t0 ymax ps infs =
        annotate_all (sheet_of plot area t0 ymax ps) ps [] infs
