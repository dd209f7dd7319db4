-- ===== src/Prelude/Steps.antt =====
-- The loops that count upwards, as the list of the numbers that they meet, and folds over lists.
use mathlib.Core.Path.{subst}
use mathlib.Core.Bool.{true≢false}
use stream_monitor.Prelude.{
  ℕ, zero, suc, ◌*◌, ◌<◌, ◌≡◌, Bool, true, false, if◌then◌else◌, List, [], ◌∷◌, some, All, ap, sym,
  ◌∙◌, Bool-cases, inl, inr, get_elem?, if-elim, arith,
}
use stream_monitor.Prelude.Int.{ℤ, pos, pos_part, ◌+ℤ◌, ◌-ℤ◌, ◌≤ℤ◌, leb_ℤ, int_laws}

-- `for (int i = lo; i <= hi; i += step)`, on fuel.
unfoldable pub upto : ℕ → ℤ → ℤ → ℕ → List ℤ
upto zero lo hi step = []
upto (suc fuel) lo hi step =
    let rest = upto fuel (lo +ℤ pos step) hi step in if leb_ℤ lo hi then lo ∷ rest else []

unfoldable pub steps : ℤ → ℤ → ℕ → List ℤ
steps lo hi step = upto (suc (pos_part (hi -ℤ lo))) lo hi step

pub All-imp {ℓ κ μ} :
    {A : Type ℓ} {P : A → Type κ} {Q : A → Type μ} (xs : List A)
    → ((x : A) → P x → Q x)
    → All P xs
    → All Q xs
All-imp [] f h = tt
All-imp (x ∷ xs) f h = (f x h.0, All-imp xs f h.1)

upto-bounds :
    (fuel : ℕ) (lo hi : ℤ) (step : ℕ) → All (λ i. (lo ≤ℤ i) × (i ≤ℤ hi)) (upto fuel lo hi step)
unfolding upto
upto-bounds zero lo hi step = tt
upto-bounds (suc fuel) lo hi step =
    if-elim (All (λ i. (lo ≤ℤ i) × (i ≤ℤ hi))) (leb_ℤ lo hi) _ []
      (λ le. (
        (omega arith, ground arith),
        All-imp _ (λ i h. (omega (int_laws, h.0), h.1)) (upto-bounds fuel (lo +ℤ pos step) hi step),
      ))
      (λ _. tt)

-- The loop meets only numbers between its bounds.
pub steps-bounds : (lo hi : ℤ) (step : ℕ) → All (λ i. (lo ≤ℤ i) × (i ≤ℤ hi)) (steps lo hi step)
unfolding steps
steps-bounds lo hi step = upto-bounds (suc (pos_part (hi -ℤ lo))) lo hi step

distance_shrinks :
    (lo hi : ℤ) (step : ℕ)
    → 0 < step
    → lo +ℤ pos step ≤ℤ hi
    → pos_part (hi -ℤ (lo +ℤ pos step)) < pos_part (hi -ℤ lo)
unfolding ◌+ℤ◌ ◌-ℤ◌
distance_shrinks lo hi step s h = ground arith

leb_ℤ_of_le : (a b : ℤ) → a ≤ℤ b → leb_ℤ a b ≡ true
leb_ℤ_of_le a b h = ground arith

upto-get_elem? :
    (fuel : ℕ) (lo hi : ℤ) (step k : ℕ)
    → 0 < step
    → pos_part (hi -ℤ lo) < fuel
    → lo +ℤ pos (k * step) ≤ℤ hi
    → get_elem? (upto fuel lo hi step) k ≡ some (lo +ℤ pos (k * step))
unfolding upto
upto-get_elem? zero lo hi step k s f h = absurd (omega arith)
upto-get_elem? (suc fuel) lo hi step zero s f h =
    let le : leb_ℤ lo hi ≡ true = leb_ℤ_of_le lo hi (omega int_laws) in
    let same : lo ≡ lo +ℤ pos (0 * step) = omega int_laws in rw (upto, le) (ap some same)
upto-get_elem? (suc fuel) lo hi step (suc k) s f h =
    let le : leb_ℤ lo hi ≡ true = leb_ℤ_of_le lo hi (omega int_laws) in
    let same : lo +ℤ pos step +ℤ pos (k * step) ≡ lo +ℤ pos (suc k * step) = omega int_laws in
    rw (upto, le)
      (upto-get_elem? fuel (lo +ℤ pos step) hi step k s
          (omega (int_laws, distance_shrinks lo hi step s (omega int_laws)))
          (subst (λ n. n ≤ℤ hi) (sym same) h)
        ∙ ap some same)

-- It meets each of them that is some steps above the lower bound: the fuel is enough.
pub steps-get_elem? :
    (lo hi : ℤ) (step k : ℕ)
    → 0 < step
    → lo +ℤ pos (k * step) ≤ℤ hi
    → get_elem? (steps lo hi step) k ≡ some (lo +ℤ pos (k * step))
unfolding steps
steps-get_elem? lo hi step k s h = upto-get_elem? _ lo hi step k s (omega arith) h

-- The loop `for (x : xs)` that changes `acc`.
unfoldable pub foldl {ℓ κ} : {A : Type ℓ} {B : Type κ} → (B → A → B) → B → List A → B
foldl f acc [] = acc
foldl f acc (x ∷ xs) = foldl f (f acc x) xs

-- The loop that returns true at the first hit.
unfoldable pub any {ℓ} : {A : Type ℓ} → (A → Bool) → List A → Bool
any p [] = false
any p (x ∷ xs) = if p x then true else any p xs

pub any-All {ℓ} :
    {A : Type ℓ} (p : A → Bool) (xs : List A) → any p xs ≡ false → All (λ x. p x ≡ false) xs
unfolding any
any-All p [] h = tt
any-All p (x ∷ xs) h = elim (Bool-cases (p x)) [
  | inl e ↦ absurd (true≢false (rw e at h))
  | inr e ↦ (e, any-All p xs (rw e at h))
]
