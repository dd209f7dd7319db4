-- ===== src/Dialog/Labels/Places.antt =====
-- The places that `draw_annotations` looks at for a label, and gaps between rectangles.
use stream_monitor.Prelude.{
  ◌≡◌, ◌⊎◌, inl, inr, Bool, false, List, [], ◌∷◌, All, All-append, map, arith,
}
use stream_monitor.Prelude.Int.{ℤ, pos, ◌+ℤ◌, ◌-ℤ◌, ◌≤ℤ◌, min_ℤ, max_ℤ, int_laws}
use stream_monitor.Prelude.Steps.{steps-bounds}
use stream_monitor.Dialog.Plot.{Rect}
use stream_monitor.Dialog.Labels.{inflate, grid, places, row_of, label_h}

-- Not empty.
abbrev pub IsProper : Rect → Type 0
IsProper r = (r.left +ℤ pos 1 ≤ℤ r.right) × (r.top +ℤ pos 1 ≤ℤ r.bottom)

abbrev pub Disjoint : Rect → Rect → Type 0
Disjoint a b =
    (a.right ≤ℤ b.left) ⊎ ((b.right ≤ℤ a.left) ⊎ ((a.bottom ≤ℤ b.top) ⊎ (b.bottom ≤ℤ a.top)))

-- CRect::IntersectRect, of two rectangles that are not empty: no result where they do not overlap.
abbrev pub FindsOverlap : (Rect → Rect → Bool) → Type 0
FindsOverlap intersects =
    (a b : Rect) → IsProper a → IsProper b → intersects a b ≡ false → Disjoint a b

-- Three pixels are between the rectangles, across or down.
abbrev pub HasGap : Rect → Rect → Type 0
HasGap q r =
    (r.right +ℤ pos 3 ≤ℤ q.left)
    ⊎ ((q.right +ℤ pos 3 ≤ℤ r.left) ⊎ ((r.bottom +ℤ pos 3 ≤ℤ q.top) ⊎ (q.bottom +ℤ pos 3 ≤ℤ r.top)))

-- A label that is not empty and inside, at least one pixel from the upper and the lower edge.
abbrev pub InPlot : Rect → Rect → Type 0
InPlot plot r =
    (plot.left ≤ℤ r.left)
    × (r.right ≤ℤ plot.right)
    × (plot.top +ℤ pos 1 ≤ℤ r.top)
    × (r.bottom ≤ℤ plot.bottom -ℤ pos 1)
    × IsProper r

le-max_ℤ : (a b : ℤ) → a ≤ℤ max_ℤ a b
le-max_ℤ a b = ground arith

min_ℤ-le : (a b : ℤ) → min_ℤ a b ≤ℤ a
min_ℤ-le a b = ground arith

row_of-InPlot :
    (plot : Rect) (x w ly lx : ℤ)
    → pos 1 ≤ℤ w
    → (plot.top +ℤ pos 1 ≤ℤ ly) × (ly ≤ℤ plot.bottom -ℤ pos 1 -ℤ pos label_h)
    → (max_ℤ plot.left (x -ℤ w -ℤ pos 260) ≤ℤ lx) × (lx ≤ℤ min_ℤ (plot.right -ℤ w) (x +ℤ pos 260))
    → InPlot plot (row_of w ly lx)
row_of-InPlot plot x w ly lx k (a, b) (c, e) = (
  omega (int_laws, le-max_ℤ plot.left (x -ℤ w -ℤ pos 260)),
  omega (int_laws, min_ℤ-le (plot.right -ℤ w) (x +ℤ pos 260)),
  a,
  omega int_laws,
  (omega int_laws, omega int_laws),
)

pub outside_gap : (q r : Rect) → Disjoint (inflate r) q → HasGap q r
outside_gap q r (inl h) = inl h
outside_gap q r (inr (inl h)) = inr (inl (omega int_laws))
outside_gap q r (inr (inr (inl h))) = inr (inr (inl h))
outside_gap q r (inr (inr (inr h))) = inr (inr (inr (omega int_laws)))

min_ℤ-least : (a b : ℤ) → pos 1 ≤ℤ a → pos 1 ≤ℤ b → pos 1 ≤ℤ min_ℤ a b
min_ℤ-least a b h k = ground arith

pub least : (a b : ℤ) → pos 0 ≤ℤ a → pos 1 ≤ℤ min_ℤ (max_ℤ a b +ℤ pos 6) (pos 220)
least a b h =
    min_ℤ-least (max_ℤ a b +ℤ pos 6) (pos 220) (omega (int_laws, le-max_ℤ a b)) (omega int_laws)

places-All :
    (P : Rect → Type 0) (A B : ℤ → Type 0) (w : ℤ) (lys lxs : List ℤ)
    → ((ly lx : ℤ) → A ly → B lx → P (row_of w ly lx))
    → All A lys
    → All B lxs
    → All P (places w lys lxs)
unfolding places
places-All P A B w [] lxs f h k = tt
places-All P A B w (ly ∷ lys) lxs f h k =
    All-append P _ _ (All-map lxs (f ly) h.0 k) (places-All P A B w lys lxs f h.1 k)
  where
    All-map :
        (xs : List ℤ)
        → ((x : ℤ) → A ly → B x → P (row_of w ly x))
        → A ly
        → All B xs
        → All P (map (row_of w ly) xs)
    All-map [] g a hs = tt
    All-map (x ∷ xs) g a hs = (g x a hs.0, All-map xs g a hs.1)

pub grid-InPlot : (plot : Rect) (x w : ℤ) → pos 1 ≤ℤ w → All (InPlot plot) (grid plot x w)
unfolding grid
grid-InPlot plot x w k =
    places-All (InPlot plot) _ _ w _ _ (λ ly lx. row_of-InPlot plot x w ly lx k)
      (steps-bounds _ _ 6) (steps-bounds _ _ 8)
