-- ===== src/Dialog/Compared/Tooltip.antt =====
-- src/mfc/MainDlg.cpp: the tooltip of `draw_multi`. `extent` is CDC::GetTextExtent of a text.
use stream_monitor.Prelude.{
  ℕ, List, [], ◌∷◌, ◌++◌, Option, none, some, if◌then◌else◌, get_elem?, length, ◌≡◌, false, if-elim,
  arith,
}
use stream_monitor.Prelude.Int.{ℤ, pos, ◌+ℤ◌, ◌-ℤ◌, ◌≤ℤ◌, ltb_ℤ, leb_ℤ, max_ℤ, min_ℤ, int_laws}
use stream_monitor.Client.{Wide, Point, Title, SampleSet}
use stream_monitor.Dialog.Plot.{Rect, x_of, y_of}
use stream_monitor.Dialog.Drawing.{Ink, text, dot_at, Text, named_point, title_line, segment, box}
use stream_monitor.Dialog.Compared.{find_samples, axis_of, plot_of, day_s, scale_of}

-- The last title that is not after the point.
unfoldable current_title : ℤ → Option Title → List Title → Option Title
current_title ts last [] = last
current_title ts last (inf ∷ infs) =
    current_title ts (if leb_ℤ inf.ts ts then some inf else last) infs

abbrev second_extent : (Text → ℤ × ℤ) → Option Title → ℤ × ℤ
second_extent extent none = (pos 0, pos 0)
second_extent extent (some inf) = extent (title_line inf)

abbrev second_text : Rect → ℤ → Option Title → List Ink
second_text b h none = []
second_text b h (some inf) =
    text (box (b.left +ℤ pos 6) (b.top +ℤ pos 4 +ℤ h) (b.right -ℤ pos 6) (b.bottom -ℤ pos 4))
      (title_line inf)
    ∷ []

-- To the right of the point and above it; to the left where it would leave the rectangle, below
-- where it would begin above it, and at the lower edge where it would end below it.
unfoldable tooltip_box : Rect → ℤ → ℤ → ℤ → ℤ → Rect
tooltip_box rc x y w h =
    let right = x +ℤ pos 12 in
    let above = y -ℤ h -ℤ pos 6 in
    let bx = if ltb_ℤ rc.right (right +ℤ w) then x -ℤ pos 12 -ℤ w else right in
    let low = if ltb_ℤ above rc.top then y +ℤ pos 10 else above in
    let by = if ltb_ℤ rc.bottom (low +ℤ h) then rc.bottom -ℤ h else low in
    box bx by (bx +ℤ w) (by +ℤ h)

unfoldable draw_tooltip :
    (Text → ℤ × ℤ) → Rect → Rect → Rect → ℤ → ℕ → Wide → List Title → Point → List Ink
draw_tooltip extent rc axis plot t_from ymax name infs p =
    let x = x_of axis t_from day_s p.ts in
    let y = y_of plot ymax p.viewers in
    let l2 = current_title p.ts none infs in
    let (s1x, s1y) = extent (named_point name p) in
    let (s2x, s2y) = second_extent extent l2 in
    let w = min_ℤ (max_ℤ s1x s2x +ℤ pos 12) (pos 360) in
    let b = tooltip_box rc x y w (s1y +ℤ s2y +ℤ pos 8) in
    segment x axis.top x axis.bottom
    ++ (dot_at x y
        ∷ text (box (b.left +ℤ pos 6) (b.top +ℤ pos 4) (b.right -ℤ pos 6) (b.top +ℤ pos 4 +ℤ s1y))
            (named_point name p)
        ∷ second_text b s1y l2)

abbrev at_point :
    (Text → ℤ × ℤ)
    → Rect
    → ℕ
    → ℕ
    → ℤ
    → Wide
    → SampleSet
    → Option SampleSet
    → Option Point
    → List Ink
at_point extent rc n i t_from name smp prv none = []
at_point extent rc n i t_from name smp prv (some p) =
    draw_tooltip extent rc (axis_of rc n) (plot_of rc n i) t_from (scale_of (some smp) prv) name
      smp.info p

abbrev at_samples :
    (Text → ℤ × ℤ) → Rect → ℕ → ℕ → ℤ → Wide → ℕ → Option SampleSet → Option SampleSet → List Ink
at_samples extent rc n i t_from name idx none prv = []
at_samples extent rc n i t_from name idx (some smp) prv =
    at_point extent rc n i t_from name smp prv (get_elem? smp.points idx)

abbrev at_row :
    (Text → ℤ × ℤ)
    → Rect
    → ℕ
    → ℕ
    → ℤ
    → List (Wide × SampleSet)
    → List (Wide × SampleSet)
    → ℕ
    → Option (Wide × Wide)
    → List Ink
at_row extent rc n i t_from multi prev idx none = []
at_row extent rc n i t_from multi prev idx (some (id, name)) =
    at_samples extent rc n i t_from name idx (find_samples id multi) (find_samples id prev)

-- `hover_multi_` and `hover_idx_`; nothing where one of them is -1 or out of range.
unfoldable hover_multi :
    (Text → ℤ × ℤ)
    → Rect
    → ℤ
    → List (Wide × Wide)
    → List (Wide × SampleSet)
    → List (Wide × SampleSet)
    → Option ℕ
    → Option ℕ
    → List Ink
hover_multi extent rc t_from ids multi prev (some i) (some idx) =
    at_row extent rc (length ids) i t_from multi prev idx (get_elem? ids i)
hover_multi extent rc t_from ids multi prev (some i) none = []
hover_multi extent rc t_from ids multi prev none idx = []

not_less : (a b : ℤ) → ltb_ℤ a b ≡ false → b ≤ℤ a
not_less a b h = ground arith

-- A tooltip that is not higher than the window stands in it from the upper to the lower edge, for
-- a point in it.
tooltip_box-level :
    (rc : Rect) (x y w h : ℤ)
    → rc.top +ℤ h ≤ℤ rc.bottom
    → rc.top ≤ℤ y
    → (rc.top ≤ℤ (tooltip_box rc x y w h).top) × ((tooltip_box rc x y w h).bottom ≤ℤ rc.bottom)
unfolding tooltip_box
tooltip_box-level rc x y w h b c =
    let above = y -ℤ h -ℤ pos 6 in
    let low = if ltb_ℤ above rc.top then y +ℤ pos 10 else above in
    let low_enough : rc.top ≤ℤ low =
      if-elim (λ v. rc.top ≤ℤ v) (ltb_ℤ above rc.top) (y +ℤ pos 10) above (λ _. omega int_laws)
        (λ e. not_less above rc.top e) in
    if-elim (λ v. (rc.top ≤ℤ v) × (v +ℤ h ≤ℤ rc.bottom)) (ltb_ℤ rc.bottom (low +ℤ h))
      (rc.bottom -ℤ h) low (λ _. (omega int_laws, omega int_laws))
      (λ e. (low_enough, not_less rc.bottom (low +ℤ h) e))
