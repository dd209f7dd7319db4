-- ===== src/Dialog/Labels/Choice.antt =====
-- The place that `draw_annotations` chooses for a label.
use stream_monitor.Prelude.{
  ℕ, zero, suc, ◌^◌, ◌≡◌, refl, sym, ◌∙◌, ◌⊎◌, inl, inr, Bool, true, false, Bool-cases, List, [],
  ◌∷◌, ◌++◌, some, All, get_elem?,
}
use mathlib.Core.Bool.{true≢false}
use mathlib.Core.Path.{subst}
use mathlib.Core.Option.{some-injective, none-ne-some}
use stream_monitor.Prelude.Int.{ℤ, pos}
use stream_monitor.Prelude.Steps.{foldl, All-imp}
use stream_monitor.Client.{Wide, Point, Title}
use stream_monitor.Dialog.{week}
use stream_monitor.Dialog.Plot.{Rect, x_of}
use stream_monitor.Dialog.Labels.{
  Double, Sheet, Mark, dot, label, score, is_free, consider_place, best_place, grid, label_width,
  nearest_on_rect, marker_y, put_label, annotate,
}

-- `<` on double, also with NaN.
pub record IsOrdered {D : Type 0} (d : Double D) : Type 0 where
  pub less_irrefl : (a : D) → d.less a a ≡ false
  pub less_trans : (a b c : D) → d.less a b ≡ true → d.less b c ≡ true → d.less a c ≡ true

abbrev pub In : Rect → List Rect → Type 0
In r cs = (i : ℕ) × (get_elem? cs i ≡ some r)

pub All-In : (P : Rect → Type 0) (cs : List Rect) (r : Rect) → All P cs → In r cs → P r
All-In P [] r h (i, e) = absurd (none-ne-some _ e)
All-In P (c ∷ cs) r h (zero, e) = subst P (some-injective _ _ e) h.0
All-In P (c ∷ cs) r h (suc i, e) = All-In P cs r h.1 (i, e)

All-zip {ℓ κ μ} :
    {A : Type ℓ} (P : A → Type κ) (Q : A → Type μ) (xs : List A)
    → All P xs
    → All Q xs
    → All (λ x. P x × Q x) xs
All-zip P Q [] h k = tt
All-zip P Q (x ∷ xs) h k = ((h.0, k.0), All-zip P Q xs h.1 k.1)

module _ (intersects : Rect → Rect → Bool) {D : Type 0} (d : Double D) (text_width : Wide → ℤ)
    (blank : Rect) (s : Sheet) (placed : List Rect) (x y : ℤ) where
  abbrev pub step : D × Rect → Rect → D × Rect
  step = consider_place intersects d text_width blank s placed x y

  -- A place that was taken.
  abbrev pub Taken : List Rect → D × Rect → Type 0
  Taken cs (b, r) = In r cs × (is_free intersects s placed r ≡ true) × (b ≡ score d s x y r)

  later : (c : Rect) (cs : List Rect) (best : D × Rect) → Taken cs best → Taken (c ∷ cs) best
  later c cs best ((i, e), free, q) = ((suc i, e), free, q)

  -- What one place does to the best one.
  step-cases :
      (best : D × Rect) (c : Rect)
      → ((step best c ≡ (score d s x y c, c))
          × (is_free intersects s placed c ≡ true)
          × (d.less (score d s x y c) best.0 ≡ true))
        ⊎ ((step best c ≡ best)
            × (is_free intersects s placed c ≡ true → d.less (score d s x y c) best.0 ≡ false))
  unfolding consider_place
  step-cases best c = elim (Bool-cases (is_free intersects s placed c)) [
    | inl e ↦ elim (Bool-cases (d.less (score d s x y c) best.0)) [
      | inl f ↦ inl (rw (e, f) refl, e, f)
      | inr f ↦ inr (rw (e, f) refl, λ _. f)
    ]
    | inr e ↦ inr (rw e refl, λ f. absurd (true≢false (sym f ∙ e)))
  ]

  pub foldl-Taken :
      (cs : List Rect) (best : D × Rect)
      → (foldl step best cs ≡ best) ⊎ Taken cs (foldl step best cs)
  unfolding foldl
  foldl-Taken [] best = inl refl
  foldl-Taken (c ∷ cs) best = elim (foldl-Taken cs (step best c)) [
    | inr t ↦ inr (later c cs _ t)
    | inl e ↦ elim (step-cases best c) [
      | inl (f, free, _) ↦ inr (rw (e, f) ((zero, refl), free, refl))
      | inr (f, _) ↦ inl (e ∙ f)
    ]
  ]

  -- No free place of these has a lower score.
  abbrev pub IsLowest : List Rect → D → Type 0
  IsLowest cs b =
      All (λ c. is_free intersects s placed c ≡ true → d.less (score d s x y c) b ≡ false) cs

  module _ (o : IsOrdered d) where
    less-contra : (q a b : D) → d.less a b ≡ true → d.less q b ≡ false → d.less q a ≡ false
    less-contra q a b h k = elim (Bool-cases (d.less q a)) [
      | inl e ↦ absurd (true≢false (sym (o.less_trans q a b e h) ∙ k))
      | inr e ↦ e
    ]

    -- What was not below the best score is not below it afterwards.
    step-not_worse :
        (best : D × Rect) (c : Rect) (q : D)
        → d.less q best.0 ≡ false
        → d.less q (step best c).0 ≡ false
    step-not_worse best c q h = elim (step-cases best c) [
      | inl (e, _, l) ↦ rw e (less-contra q _ best.0 l h)
      | inr (e, _) ↦ rw e h
    ]

    step-IsLowest :
        (best : D × Rect) (c : Rect)
        → is_free intersects s placed c ≡ true
        → d.less (score d s x y c) (step best c).0 ≡ false
    step-IsLowest best c free = elim (step-cases best c) [
      | inl (e, _, _) ↦ rw e (o.less_irrefl _)
      | inr (e, l) ↦ rw e (l free)
    ]

    foldl-not_worse :
        (cs : List Rect) (best : D × Rect) (q : D)
        → d.less q best.0 ≡ false
        → d.less q (foldl step best cs).0 ≡ false
    unfolding foldl
    foldl-not_worse [] best q h = h
    foldl-not_worse (c ∷ cs) best q h =
        foldl-not_worse cs (step best c) q (step-not_worse best c q h)

    foldl-IsLowest : (cs : List Rect) (best : D × Rect) → IsLowest cs (foldl step best cs).0
    unfolding foldl
    foldl-IsLowest [] best = tt
    foldl-IsLowest (c ∷ cs) best = (
      λ free. foldl-not_worse cs (step best c) _ (step-IsLowest best c free),
      foldl-IsLowest cs (step best c),
    )

-- What `annotate` does with a title whose point stands at (x, y), on the places `cs`.
pub data Annotated (IsFree : Rect → Type 0) {D : Type 0} (d : Double D) (score_of : Rect → D)
    (cs placed : List Rect) (x y : ℤ) (inf : Title) : List Rect × Mark → Type 0 where
  chosen :
      (r : Rect)
      → In r cs
      → IsFree r
      → All (λ c. IsFree c → d.less (score_of c) (score_of r) ≡ false) cs
      → Annotated IsFree d score_of cs placed x y inf
          (placed ++ (r ∷ []), label x y (nearest_on_rect x y r) r inf)
  full :
      All (λ c. ¬ (IsFree c)) cs → Annotated IsFree d score_of cs placed x y inf (placed, dot x y)

-- The scores of the places are less than the start value 1e18 and not at least 1e17, which the
-- start value is.
pub record AreSmall {D : Type 0} (d : Double D) (score_of : Rect → D) (cs : List Rect)
    : Type 0 where
  pub start_high : d.at_least (d.of_int (pos (10 ^ 18))) (d.of_int (pos (10 ^ 17))) ≡ true
  pub below_start : All (λ c. d.less (score_of c) (d.of_int (pos (10 ^ 18))) ≡ true) cs
  pub fits : All (λ c. d.at_least (score_of c) (d.of_int (pos (10 ^ 17))) ≡ false) cs

module _ (intersects : Rect → Rect → Bool) {D : Type 0} (d : Double D) (text_width : Wide → ℤ)
    (blank : Rect) (s : Sheet) (placed : List Rect) where
  abbrev start : D × Rect
  start = (d.of_int (pos (10 ^ 18)), blank)

  full-Annotated :
      (x y : ℤ) (inf : Title) (cs : List Rect) (best : D × Rect)
      → AreSmall d (score d s x y) cs
      → IsLowest intersects d text_width blank s placed x y cs best.0
      → best ≡ start
      → Annotated
          (λ c. is_free intersects s placed c ≡ true)
          d
          (score d s x y)
          cs
          placed
          x
          y
          inf
          (put_label intersects d text_width blank placed inf x y best)
  full-Annotated x y inf cs best small lowest e =
      rw (e, small.start_high)
        (full (
          All-imp cs (λ c (below, l) free. true≢false (sym below ∙ rw e at (l free)))
            (All-zip _ _ cs small.below_start lowest)))

  chosen-Annotated :
      (x y : ℤ) (inf : Title) (cs : List Rect) (best : D × Rect)
      → AreSmall d (score d s x y) cs
      → IsLowest intersects d text_width blank s placed x y cs best.0
      → Taken intersects d text_width blank s placed x y cs best
      → Annotated
          (λ c. is_free intersects s placed c ≡ true)
          d
          (score d s x y)
          cs
          placed
          x
          y
          inf
          (put_label intersects d text_width blank placed inf x y best)
  chosen-Annotated x y inf cs (b, r) small lowest (at_i, free, q) =
      rw (q, All-In _ cs r small.fits at_i)
        (chosen r at_i free (All-imp cs (λ c l f. rw q at (l f)) lowest))

  abbrev pub score_for : List Point → Title → Rect → D
  score_for ps inf = score d s (x_of s.plot s.t0 week inf.ts) (marker_y s ps inf.ts)

  abbrev pub grid_for : Title → List Rect
  grid_for inf = grid s.plot (x_of s.plot s.t0 week inf.ts) (label_width text_width inf)

  -- A title gets a label exactly where some place of the grid is free: not near a label that is
  -- already there and, over the data, not near the line. The label takes a free place that no free
  -- place of the grid is below in score; the leader ends at `nearest_on_rect` of it and the title's
  -- point. Otherwise only the dot is drawn. The order of `double` is irreflexive and
  -- transitive, and the scores are below 1e17.
  pub annotate-Annotated :
      (ps : List Point) (inf : Title)
      → IsOrdered d
      → AreSmall d (score_for ps inf) (grid_for inf)
      → Annotated
          (λ c. is_free intersects s placed c ≡ true)
          d
          (score_for ps inf)
          (grid_for inf)
          placed
          (x_of s.plot s.t0 week inf.ts)
          (marker_y s ps inf.ts)
          inf
          (annotate intersects d text_width blank s ps placed inf)
  unfolding annotate best_place
  annotate-Annotated ps inf o small =
      let x = x_of s.plot s.t0 week inf.ts in
      let y = marker_y s ps inf.ts in
      let lowest =
        foldl-IsLowest intersects d text_width blank s placed x y o (grid_for inf) start in
      elim (foldl-Taken intersects d text_width blank s placed x y (grid_for inf) start) [
        | inl e ↦ full-Annotated x y inf (grid_for inf) _ small lowest e
        | inr t ↦ chosen-Annotated x y inf (grid_for inf) _ small lowest t
      ]
