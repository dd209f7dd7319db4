-- ===== src/Dialog/Screen/Fits.antt =====
-- The whole of `draw_chart`: its scale and its rectangles.
use mathlib.Core.Path.{subst}
use stream_monitor.Prelude.{
  ℕ, ◌<◌, ◌≡◌, sym, ◌⊎◌, inl, inr, Bool, true, false, Bool-cases, ◌||◌, List, [], ◌∷◌, Option, some,
  All, if-elim, arith,
}
use stream_monitor.Prelude.Int.{
  ℤ, pos, negsuc, pos_part, ◌+ℤ◌, ◌-ℤ◌, ◌≤ℤ◌, ltb_ℤ, quot, max_ℤ, int_laws,
}
use stream_monitor.Client.{Wide, Point, SampleSet}
use stream_monitor.Dialog.{week}
use stream_monitor.Dialog.Plot.{Rect, reserve_of}
use stream_monitor.Dialog.Chart.{y_max, y_step-y_max}
use stream_monitor.Dialog.Labels.{Double}
use stream_monitor.Dialog.Drawing.{Ink, box}
use stream_monitor.Dialog.Screen.{
  Chart, Drawn, too_small, chart, highest, draw_rows, draw_points, draw_chart, draw_hover,
}
use stream_monitor.Dialog.Screen.Inside.{IsOrdered, OnScale, Inside, data_of-IsBand, lines-Inside}

abbrev pub AreCounts : List Point → Type 0
AreCounts ps = All (λ p. pos 0 ≤ℤ p.viewers) ps

pub le-max_ℤ : (a b : ℤ) → (a ≤ℤ max_ℤ a b) × (b ≤ℤ max_ℤ a b)
le-max_ℤ a b = ground arith

pub highest-OnScale :
    (v : ℤ) (ps : List Point) → (v ≤ℤ highest v ps) × All (λ p. p.viewers ≤ℤ highest v ps) ps
unfolding highest
highest-OnScale v [] = (omega arith, tt)
highest-OnScale v (p ∷ ps) =
    let (a, h) = highest-OnScale (max_ℤ v p.viewers) ps in
    let (b, c) = le-max_ℤ v p.viewers in (omega arith, (omega arith, h))

pub counts-OnScale :
    (ymax : ℕ) (v : ℤ) (ps : List Point)
    → AreCounts ps
    → highest v ps ≤ℤ pos ymax
    → All (OnScale ymax) ps
unfolding highest
counts-OnScale ymax v [] h l = tt
counts-OnScale ymax v (p ∷ ps) h l =
    let (a, _) = highest-OnScale (max_ℤ v p.viewers) ps in
    let (_, b) = le-max_ℤ v p.viewers in
    ((h.0, omega arith), counts-OnScale ymax (max_ℤ v p.viewers) ps h.1 l)

half_le : (z : ℤ) → pos 10 ≤ℤ quot z 2 → quot z 2 ≤ℤ z
unfolding quot ◌-ℤ◌
half_le (pos n) h = omega arith
half_le (negsuc n) h = ground arith

-- The rectangle has no place for a row of 10 pixels by 10 beside the scale and the texts.
abbrev pub IsSmall : Rect → Type 0
IsSmall rc = (rc.right -ℤ rc.left ≤ℤ pos 81) ⊎ (rc.bottom -ℤ rc.top ≤ℤ pos 111)

-- What `draw_chart` may do with samples on the rectangle `rc`: nothing if it is small, or both rows
-- with every end of a stroke in the row's rectangle.
pub data Fits (rc : Rect) : Option Drawn → Type 0 where
  nothing : IsSmall rc → Fits rc (some too_small)
  rows :
      (c : Chart)
      → pos 82 ≤ℤ rc.right -ℤ rc.left
      → pos 112 ≤ℤ rc.bottom -ℤ rc.top
      → All (Inside c.first) c.first_lines
      → All (Inside c.second) c.second_lines
      → Fits rc (some (chart c))

large_enough :
    (w h : ℤ) → (ltb_ℤ w (pos 10) || ltb_ℤ h (pos 10)) ≡ false → (pos 10 ≤ℤ w) × (pos 10 ≤ℤ h)
large_enough w h e = ground arith

half_10 : (z : ℤ) → pos 10 ≤ℤ quot z 2 → pos 20 ≤ℤ z
unfolding quot ◌-ℤ◌
half_10 (pos n) h = omega arith
half_10 (negsuc n) h = ground arith

half_9 : (z : ℤ) → quot z 2 ≤ℤ pos 9 → z ≤ℤ pos 19
unfolding quot ◌-ℤ◌
half_9 (pos n) h = omega arith
half_9 (negsuc n) h = ground arith

-- The width and the height of a row in the rectangle.
abbrev across : Rect → ℤ
across rc = rc.right -ℤ pos 12 -ℤ (rc.left +ℤ pos 60)

abbrev down : Rect → ℤ
down rc = quot (rc.bottom -ℤ pos 22 -ℤ (rc.top +ℤ pos 40) -ℤ pos 30) 2

under_10 : (w h : ℤ) → (ltb_ℤ w (pos 10) || ltb_ℤ h (pos 10)) ≡ true → (w ≤ℤ pos 9) ⊎ (h ≤ℤ pos 9)
under_10 w h e = elim (Bool-cases (ltb_ℤ w (pos 10))) [
  | inl f ↦ inl (ground arith)
  | inr f ↦ inr (ground arith)
]

under_10-IsSmall :
    (rc : Rect) → (ltb_ℤ (across rc) (pos 10) || ltb_ℤ (down rc) (pos 10)) ≡ true → IsSmall rc
under_10-IsSmall rc e = elim (under_10 (across rc) (down rc) e) [
  | inl w ↦ inl (omega int_laws)
  | inr h ↦ let k = half_9 _ h in inr (omega int_laws)
]

wide_rect : (rc : Rect) → pos 10 ≤ℤ across rc → pos 82 ≤ℤ rc.right -ℤ rc.left
wide_rect rc h = omega int_laws

high_rect : (rc : Rect) → pos 10 ≤ℤ down rc → pos 112 ≤ℤ rc.bottom -ℤ rc.top
high_rect rc h = let k = half_10 _ h in omega int_laws

upper-IsOrdered : (l t r h : ℤ) → pos 10 ≤ℤ r -ℤ l → pos 10 ≤ℤ h → IsOrdered (box l t r (t +ℤ h))
upper-IsOrdered l t r h a b = (omega int_laws, omega int_laws)

lower-IsOrdered :
    (l t r b : ℤ)
    → pos 10 ≤ℤ r -ℤ l
    → pos 10 ≤ℤ quot (b -ℤ t -ℤ pos 30) 2
    → IsOrdered (box l (t +ℤ quot (b -ℤ t -ℤ pos 30) 2 +ℤ pos 30) r b)
lower-IsOrdered l t r b w h =
    let half = half_le (b -ℤ t -ℤ pos 30) h in (omega int_laws, omega int_laws)

module _ (intersects : Rect → Rect → Bool) {D : Type 0} (d : Double D) (text_width : Wide → ℤ)
    (blank : Rect) where
  draw_rows-Fits :
      (rc : Rect) (week0 : ℤ) (s : SampleSet) (vmax step : ℕ) (hover : ℕ → Rect → Rect → List Ink)
      → 0 < y_max vmax step
      → All (OnScale (y_max vmax step)) s.points
      → Fits rc (some (draw_rows intersects d text_width blank rc week0 s vmax step hover))
  unfolding draw_rows
  draw_rows-Fits rc week0 s vmax step hover pos_ymax h =
      if-elim (λ x. Fits rc (some x)) (ltb_ℤ (r -ℤ l) (pos 10) || ltb_ℤ row_h (pos 10)) too_small _
        (λ e. nothing (under_10-IsSmall rc e))
        (λ e.
          let (w, k) = large_enough (r -ℤ l) row_h e in
          rows _ (wide_rect rc w) (high_rect rc k)
            (lines-Inside _ _ week0 _ pos_ymax
              (data_of-IsBand _ (reserve_of week0 s.info) (upper-IsOrdered l t r row_h w k)) 0
              s.points h)
            (lines-Inside _ _ (week0 +ℤ pos week) _ pos_ymax
              (data_of-IsBand _ (reserve_of (week0 +ℤ pos week) s.info)
                (lower-IsOrdered l t r b w k))
              1 s.points h))
    where
      l : ℤ
      l = rc.left +ℤ pos 60

      r : ℤ
      r = rc.right -ℤ pos 12

      t : ℤ
      t = rc.top +ℤ pos 40

      b : ℤ
      b = rc.bottom -ℤ pos 22

      row_h : ℤ
      row_h = quot (b -ℤ t -ℤ pos 30) 2

  draw_points-Fits :
      (rc : Rect) (week0 : ℤ) (s : SampleSet) (hover : ℕ → Rect → Rect → List Ink) (p : Point)
      (ps : List Point)
      → AreCounts s.points
      → s.points ≡ p ∷ ps
      → Fits rc (draw_points intersects d text_width blank rc week0 s hover (p ∷ ps))
  draw_points-Fits rc week0 s hover p ps h e =
      let vmax = pos_part (highest (pos 0) (p ∷ ps)) in
      let (step, found, _, _, above, _, _, _) = y_step-y_max vmax in
      rw found (
        draw_rows-Fits rc week0 s vmax step hover (omega arith) (
          subst (All (OnScale (y_max vmax step))) (sym e)
            (counts-OnScale _ (pos 0) (p ∷ ps) (subst AreCounts e h) (omega arith))))

  -- For samples with at least one point and no negative number of viewers, in integers without
  -- bound: `draw_chart` finds its scale. On a rectangle that is narrower than 82 pixels or lower than
  -- 112 it draws no rows. On every other one it draws two rows, in which every end of the lines is
  -- inside the row's rectangle: the bands for the labels above and below it stay free.
  pub draw_chart-Fits :
      (extent : Point → ℤ × ℤ) (rc : Rect) (week0 : ℤ) (s : SampleSet) (hovered : Option ℕ × ℕ)
      (p : Point) (ps : List Point)
      → s.points ≡ p ∷ ps
      → AreCounts s.points
      → Fits rc (draw_chart intersects d text_width blank extent rc week0 (some s) hovered)
  unfolding draw_chart
  draw_chart-Fits extent rc week0 s hovered p ps e h =
      subst
        (λ qs. Fits rc (
          draw_points intersects d text_width blank rc week0 s
            (draw_hover extent week0 s.points hovered) qs))
        (sym e) (draw_points-Fits rc week0 s _ p ps h e)
