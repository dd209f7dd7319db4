-- ===== src/Dialog/Hover/Nearest.antt =====
-- The sample that `update_hover` finds.
use mathlib.Core.Path.{subst}
use native.Mathlib.Nat.{div-lt_iff_lt-mul, mul-lt-mul_of_pos_right, mul_comm}
use stream_monitor.Prelude.{
  ℕ, suc, ◌+◌, ◌*◌, ◌/◌, ◌≤◌, ◌<◌, ◌≡◌, refl, true, if-elim, List, [], ◌∷◌, Option, none, some,
  arith, All, leb, get_elem?,
}
use stream_monitor.Prelude.Int.{ℤ, pos, pos_part, ◌+ℤ◌, ◌-ℤ◌, ◌≤ℤ◌, ltb_ℤ, gap}
use stream_monitor.Prelude.Steps.{All-imp}
use stream_monitor.Client.{Point}
use stream_monitor.Dialog.Plot.{Rect, width}
use stream_monitor.Dialog.Hover.{
  Cell, Scope, Best, lower_bound, is_within, consider, nearest, within_reach, hover_in, time_at,
}

-- The points stand in the order of their times.
abbrev pub IsAscending : List Point → Type 0
IsAscending [] = Unit
IsAscending (p ∷ ps) = All (λ q. p.ts ≤ℤ q.ts) ps × IsAscending ps

gap_anti : (a b t : ℤ) → a ≤ℤ b → b ≤ℤ t → gap b t ≤ gap a t
unfolding gap
gap_anti a b t h k = ground arith

gap_mono : (a b t : ℤ) → a ≤ℤ b → t ≤ℤ a → gap a t ≤ gap b t
unfolding gap
gap_mono a b t h k = ground arith

is_within-below :
    (w : Scope) (a b t : ℤ)
    → is_within w a ≡ true
    → is_within w t ≡ true
    → a ≤ℤ b
    → b ≤ℤ t
    → is_within w b ≡ true
unfolding is_within
is_within-below none a b t p q h k = refl
is_within-below (some (lo, hi)) a b t p q h k = ground arith

is_within-above :
    (w : Scope) (a b t : ℤ)
    → is_within w b ≡ true
    → is_within w t ≡ true
    → a ≤ℤ b
    → t ≤ℤ a
    → is_within w a ≡ true
unfolding is_within
is_within-above none a b t p q h k = refl
is_within-above (some (lo, hi)) a b t p q h k = ground arith

module _ (w : Scope) (t : ℤ) where
  -- A point of the scope is no nearer than the best.
  abbrev IsNear : Best → ℕ → Type 0
  IsNear none e = ⊥
  IsNear (some (d, c)) e = d ≤ e

  abbrev Beats : Best → Point → Type 0
  Beats best q = is_within w q.ts ≡ true → IsNear best (gap q.ts t)

  abbrev BeatsCell : Best → Option Cell → Type 0
  BeatsCell best none = Unit
  BeatsCell best (some (i, q)) = Beats best q

  consider-Beats :
      (c : Option Cell) (best : Best) (q : Point) → Beats best q → Beats (consider w t c best) q
  unfolding consider
  consider-Beats none best q h = h
  consider-Beats (some (i, p)) none q h = λ k. absurd (h k)
  consider-Beats (some (i, p)) (some (d, c)) q h = ground arith

  consider-BeatsCell : (c : Option Cell) (best : Best) → BeatsCell (consider w t c best) c
  unfolding consider
  consider-BeatsCell none best = tt
  consider-BeatsCell (some (i, p)) none = ground arith
  consider-BeatsCell (some (i, p)) (some (d, c)) = ground arith

  IsNear-mono : (best : Best) (d e : ℕ) → IsNear best d → d ≤ e → IsNear best e
  IsNear-mono none d e h k = h
  IsNear-mono (some (b, c)) d e h k = omega arith

  module _ (t_in : is_within w t ≡ true) (best : Best) (p q : Point) (near : Beats best p) where
    Beats-below : q.ts ≤ℤ p.ts → p.ts ≤ℤ t → Beats best q
    Beats-below h k q_in =
        IsNear-mono best (gap p.ts t) (gap q.ts t)
          (near (is_within-below w q.ts p.ts t q_in t_in h k)) (gap_anti q.ts p.ts t h k)

    Beats-above : p.ts ≤ℤ q.ts → t ≤ℤ p.ts → Beats best q
    Beats-above h k q_in =
        IsNear-mono best (gap p.ts t) (gap q.ts t)
          (near (is_within-above w p.ts q.ts t q_in t_in h k)) (gap_mono p.ts q.ts t h k)

  All-above :
      (best : Best) (p : Point) (ps : List Point)
      → is_within w t ≡ true
      → Beats best p
      → t ≤ℤ p.ts
      → All (λ q. p.ts ≤ℤ q.ts) ps
      → All (Beats best) ps
  All-above best p [] t_in near h a = tt
  All-above best p (q ∷ ps) t_in near h a =
      (Beats-above t_in best p q near a.0 h, All-above best p ps t_in near h a.1)

  -- What is in front of the rest of the list, in time.
  abbrev IsBefore : Option Cell → List Point → Type 0
  IsBefore none ps = Unit
  IsBefore (some (i, q)) ps = (ltb_ℤ q.ts t ≡ true) × All (λ p. q.ts ≤ℤ p.ts) ps

  abbrev best_of : Option Cell × Option Cell → Best
  best_of (before, at_it) = consider w t before (consider w t at_it none)

  BeatsCell-below :
      (best : Best) (p : Point) (before : Option Cell) (ps : List Point)
      → is_within w t ≡ true
      → Beats best p
      → ltb_ℤ p.ts t ≡ true
      → IsBefore before (p ∷ ps)
      → BeatsCell best before
  BeatsCell-below best p none ps t_in near lt b = tt
  BeatsCell-below best p (some (i, q)) ps t_in near lt b =
      Beats-below t_in best p q near b.1.0 (ground arith)

  -- The better of two neighbours beats what is in front and all points of the list.
  abbrev BeatsAll : Option Cell × Option Cell → Option Cell → List Point → Type 0
  BeatsAll o before ps = BeatsCell (best_of o) before × All (Beats (best_of o)) ps

  lower_bound-BeatsAll :
      (i : ℕ) (before : Option Cell) (ps : List Point)
      → is_within w t ≡ true
      → IsAscending ps
      → IsBefore before ps
      → BeatsAll (lower_bound t i before ps) before ps
  unfolding lower_bound
  lower_bound-BeatsAll i before [] t_in s b =
      (consider-BeatsCell before (consider w t none none), tt)
  lower_bound-BeatsAll i before (p ∷ ps) t_in s b =
      let later = lower_bound t (suc i) (some (i, p)) ps in
      if-elim (λ o. BeatsAll o before (p ∷ ps)) (ltb_ℤ p.ts t) later (before, some (i, p))
        (λ lt.
          let (near, rest) = lower_bound-BeatsAll (suc i) (some (i, p)) ps t_in s.1 (lt, s.0) in
          (BeatsCell-below (best_of later) p before ps t_in near lt b, (near, rest)))
        (λ ge.
          let first = consider w t (some (i, p)) none in
          let near = consider-Beats before first p (consider-BeatsCell (some (i, p)) none) in
          (
            consider-BeatsCell before first,
            (near, All-above (consider w t before first) p ps t_in near (ground arith) s.0),
          ))

  -- What is found stands in the list, in the scope, at the distance that is told.
  abbrev CellIn : List Point → Option Cell → Type 0
  CellIn whole none = Unit
  CellIn whole (some (i, p)) = get_elem? whole i ≡ some p

  abbrev Sound : List Point → Best → Type 0
  Sound whole none = Unit
  Sound whole (some (d, (i, p))) =
      (get_elem? whole i ≡ some p) × (is_within w p.ts ≡ true) × (d ≡ gap p.ts t)

  consider-Sound :
      (whole : List Point) (c : Option Cell) (best : Best)
      → CellIn whole c
      → Sound whole best
      → Sound whole (consider w t c best)
  unfolding consider
  consider-Sound whole none best h k = k
  consider-Sound whole (some (i, p)) none h k = ground arith
  consider-Sound whole (some (i, p)) (some (d, c)) h k = ground arith

  lower_bound-CellIn :
      (whole : List Point) (i : ℕ) (before : Option Cell) (ps : List Point)
      → CellIn whole before
      → ((k : ℕ) (q : Point) → get_elem? ps k ≡ some q → get_elem? whole (i + k) ≡ some q)
      → CellIn whole (lower_bound t i before ps).0 × CellIn whole (lower_bound t i before ps).1
  unfolding lower_bound
  lower_bound-CellIn whole i before [] h at = (h, tt)
  lower_bound-CellIn whole i before (p ∷ ps) h at =
      let here : get_elem? whole i ≡ some p =
        subst (λ n. get_elem? whole n ≡ some p) (omega arith) (at 0 p refl) in
      if-elim (λ o. CellIn whole o.0 × CellIn whole o.1) (ltb_ℤ p.ts t)
        (lower_bound t (suc i) (some (i, p)) ps) (before, some (i, p))
        (λ _.
          lower_bound-CellIn whole (suc i) (some (i, p)) ps here
            (λ k q e. subst (λ n. get_elem? whole n ≡ some q) (omega arith) (at (suc k) q e)))
        (λ _. (h, here))

  nearest-Sound : (ps : List Point) → Sound ps (nearest w t ps)
  unfolding nearest
  nearest-Sound ps =
      let (before, at_it) =
        lower_bound-CellIn ps 0 none ps tt
          (λ k q e. subst (λ n. get_elem? ps n ≡ some q) (omega arith) e) in
      consider-Sound ps _ _ before (consider-Sound ps _ none at_it tt)

  nearest-Beats :
      (ps : List Point) → is_within w t ≡ true → IsAscending ps → All (Beats (nearest w t ps)) ps
  unfolding nearest
  nearest-Beats ps t_in s = (lower_bound-BeatsAll 0 none ps t_in s tt).1

-- The sample at the index is in the scope and within reach, and none of the scope is nearer; or
-- there is no index, and no sample of the scope is within reach.
abbrev pub Hovers : Scope → ℤ → ℕ → List Point → Option ℕ → Type 0
Hovers w t reach ps (some i) =
    (p : Point) × (get_elem? ps i ≡ some p)
    × (is_within w p.ts ≡ true)
    × (gap p.ts t ≤ reach)
    × All (λ q. is_within w q.ts ≡ true → gap p.ts t ≤ gap q.ts t) ps
Hovers w t reach ps none = All (λ q. is_within w q.ts ≡ true → reach < gap q.ts t) ps

within_reach-Hovers :
    (w : Scope) (t : ℤ) (span px : ℕ) (ps : List Point) (best : Best)
    → Sound w t ps best
    → All (Beats w t best) ps
    → Hovers w t (12 * (span / px)) ps (within_reach span px best)
unfolding within_reach
within_reach-Hovers w t span px ps none s b = All-imp ps (λ q h k. absurd (h k)) b
within_reach-Hovers w t span px ps (some (d, (i, p))) (at_i, inside, e) b =
    if-elim (Hovers w t (12 * (span / px)) ps) (leb d (12 * (span / px))) (some i) none
      (λ le. (p, at_i, inside, ground arith, All-imp ps (λ q h k. rw e at (h k)) b))
      (λ gt. All-imp ps (λ q h k. ground (arith, h k)) b)

pub hover_in-Hovers :
    (w : Scope) (r : Rect) (t0 : ℤ) (span : ℕ) (ps : List Point) (x : ℤ)
    → is_within w (time_at r t0 span x) ≡ true
    → IsAscending ps
    → Hovers w (time_at r t0 span x) (12 * (span / width r)) ps (hover_in w r t0 span ps x)
unfolding hover_in
hover_in-Hovers w r t0 span ps x h s =
    within_reach-Hovers w (time_at r t0 span x) span (width r) ps _
      (nearest-Sound w (time_at r t0 span x) ps) (nearest-Beats w (time_at r t0 span x) ps h s)

within-add :
    (t0 : ℤ) (q span : ℕ) → q < span → is_within (some (t0, t0 +ℤ pos span)) (t0 +ℤ pos q) ≡ true
unfolding is_within ◌+ℤ◌
within-add t0 q span h = ground arith

-- Between the left edge, which belongs to the rectangle, and the right one, which does not.
abbrev pub IsInside : Rect → ℤ → Type 0
IsInside r x = (r.left ≤ℤ x) × (ltb_ℤ x r.right ≡ true)

inside-lt-width : (r : Rect) (x : ℤ) → IsInside r x → pos_part (x -ℤ r.left) < width r
unfolding width ◌-ℤ◌
inside-lt-width r x (l, h) = ground arith

-- The time under a point of the rectangle.
pub time_at-within :
    (r : Rect) (t0 : ℤ) (span : ℕ) (x : ℤ)
    → 0 < span
    → IsInside r x
    → is_within (some (t0, t0 +ℤ pos span)) (time_at r t0 span x) ≡ true
unfolding time_at
time_at-within r t0 span x s h =
    let lt = inside-lt-width r x h in
    within-add t0 _ span (
      (div-lt_iff_lt-mul (omega arith)).1 (
        subst (λ n. pos_part (x -ℤ r.left) * span < n) (mul_comm (width r) span)
          (mul-lt-mul_of_pos_right lt s)))
