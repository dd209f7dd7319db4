-- ===== src/Push/Queries/Points.antt =====
-- The points of a samples reply: their order, and the viewers at a time.
use stream_monitor.Prelude.{
  ℕ, ◌≤◌, ◌≡◌, refl, ◌∙◌, inl, inr, Bool, true, false, ◌&&◌, Bool-cases, List, [], ◌∷◌, none, arith,
  leb, if◌then◌else◌,
}
use stream_monitor.Prelude.Int.{ℤ, pos, leb_ℤ}
use stream_monitor.Framing.{Bytes}
use stream_monitor.Db.{Sample, sample_at}
use stream_monitor.Push.Queries.{in_window, place_point, points}

-- No point is before the one in front of it.
abbrev pub IsFrom : ℕ → List Sample → Type 0
IsFrom ts [] = Unit
IsFrom ts (s ∷ ss) = ts ≤ s.ts

abbrev pub IsSorted : List Sample → Type 0
IsSorted [] = Unit
IsSorted (s ∷ ss) = IsFrom s.ts ss × IsSorted ss

place_point-IsFrom :
    (ts : ℕ) (r : Sample) (ss : List Sample)
    → ts ≤ r.ts
    → IsFrom ts ss
    → IsFrom ts (place_point r ss)
unfolding place_point
place_point-IsFrom ts r [] h k = h
place_point-IsFrom ts r (s ∷ ss) h k = ground arith

place_point-IsSorted : (r : Sample) (ss : List Sample) → IsSorted ss → IsSorted (place_point r ss)
unfolding place_point
place_point-IsSorted r [] h = (tt, tt)
place_point-IsSorted r (s ∷ ss) h =
    ground (arith, place_point-IsSorted r ss, place_point-IsFrom s.ts r ss)

-- The points stand in the order of their times.
pub points-IsSorted : (t : List Sample) (ch : Bytes) (from to : ℤ) → IsSorted (points ch from to t)
unfolding points
points-IsSorted [] ch from to = tt
points-IsSorted (s ∷ ss) ch from to =
    ground (arith, place_point-IsSorted s (points ch from to ss), points-IsSorted ss ch from to)

sample_at-swap :
    (ch : Bytes) (ts : ℕ) (r s : Sample) (ss : List Sample)
    → leb r.ts s.ts ≡ false
    → sample_at ch ts (s ∷ r ∷ ss) ≡ sample_at ch ts (r ∷ s ∷ ss)
unfolding sample_at
sample_at-swap ch ts r s ss h = ground arith

sample_at-cons :
    (ch : Bytes) (ts : ℕ) (s : Sample) (a b : List Sample)
    → sample_at ch ts a ≡ sample_at ch ts b
    → sample_at ch ts (s ∷ a) ≡ sample_at ch ts (s ∷ b)
unfolding sample_at
sample_at-cons ch ts s a b h = rw h

sample_at-place :
    (ch : Bytes) (ts : ℕ) (r : Sample) (ss : List Sample)
    → sample_at ch ts (place_point r ss) ≡ sample_at ch ts (r ∷ ss)
unfolding place_point
sample_at-place ch ts r [] = refl
sample_at-place ch ts r (s ∷ ss) = elim (Bool-cases (leb r.ts s.ts)) [
  | inl e ↦ rw e
  | inr e ↦
      rw e (sample_at-cons ch ts s _ _ (sample_at-place ch ts r ss) ∙ sample_at-swap ch ts r s ss e)
]

sample_at-if :
    (b : Bool) (ch : Bytes) (ts : ℕ) (s : Sample) (ss : List Sample)
    → sample_at ch ts (if b then place_point s ss else ss)
      ≡ sample_at ch ts (if b then s ∷ ss else ss)
sample_at-if true ch ts s ss = sample_at-place ch ts s ss
sample_at-if false ch ts s ss = refl

-- The points give the viewers of every time of the window, and nothing at any other time.
pub sample_at-points :
    (t : List Sample) (ch : Bytes) (from to : ℤ) (ts : ℕ)
    → sample_at ch ts (points ch from to t)
      ≡ (if leb_ℤ from (pos ts) && leb_ℤ (pos ts) to then sample_at ch ts t else none)
unfolding points in_window sample_at
sample_at-points [] ch from to ts = ground arith
sample_at-points (s ∷ ss) ch from to ts =
    sample_at-if (in_window ch from to s) ch ts s (points ch from to ss)
    ∙ ground (arith, sample_at-points ss ch from to ts)
