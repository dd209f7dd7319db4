-- ===== src/Push/Queries/Ranking.antt =====
-- The rows of the channels query: which channels they show, their order, and their numbers.
use mathlib.Core.List.{Permᴰ}
use mathlib.Core.List.Permᴰ
use mathlib.Core.Bool.{true≢false}
use stream_monitor.Prelude.{
  ℕ, suc, ◌≤◌, ◌≡◌, refl, sym, ap, ◌∙◌, inl, inr, Bool, true, false, ◌&&◌, Bool-cases, List, [],
  ◌∷◌, Option, none, some, map, arith, All, if◌then◌else◌, if-elim,
}
use stream_monitor.Prelude.Int.{ℤ, pos, ◌≤ℤ◌, leb_ℤ}
use stream_monitor.Prelude.Steps.{any}
use stream_monitor.Framing.{Bytes}
use stream_monitor.Json.{bytes_eq}
use stream_monitor.Db.{Sample, Channel, Tables, sample_at}
use stream_monitor.Push.Queries.{
  Totals, add_total, totals, Row, is_ahead, place_row, row_of, with_row, rows,
}

-- A sample of the channel from `since` on.
abbrev pub is_counted : Bytes → ℤ → Sample → Bool
is_counted ch since s = bytes_eq s.channel_id ch && leb_ℤ since (pos s.ts)

abbrev pub counted : (Sample → Bool) → List Sample → ℕ
counted p [] = 0
counted p (s ∷ ss) = if p s then suc (counted p ss) else counted p ss

-- `n` counts the samples of `p`, and its peak is the highest of their viewers.
pub record IsTotal (p : Sample → Bool) (ss : List Sample) (n : Totals) : Type 0 where
  pub all_counted : n.count ≡ counted p ss
  pub is_bound : All (λ (s : Sample). p s ≡ true → s.viewers ≤ℤ n.peak) ss
  pub is_reached : any (λ (s : Sample). p s && leb_ℤ n.peak s.viewers) ss ≡ true

-- The channels with such a sample, in the order of the table.
abbrev pub active : Tables → ℤ → List Channel → List Channel
active t since [] = []
active t since (c ∷ cs) =
    if any (is_counted c.channel_id since) t.samples
    then c ∷ active t since cs
    else active t since cs

-- The row `r` may stand above `s`: its peak is not lower and, where the peaks are equal, neither is
-- its last time.
abbrev pub MayPrecede : Row → Row → Type 0
MayPrecede r s =
    (s.totals.peak ≤ℤ r.totals.peak)
    × (r.totals.peak ≤ℤ s.totals.peak → s.channel.last_seen ≤ r.channel.last_seen)

abbrev pub IsHead : Row → List Row → Type 0
IsHead r [] = Unit
IsHead r (s ∷ ss) = MayPrecede r s

abbrev pub IsRanked : List Row → Type 0
IsRanked [] = Unit
IsRanked (r ∷ rs) = IsHead r rs × IsRanked rs

abbrev pub IsRowOf : Tables → ℤ → Row → Type 0
IsRowOf t since r =
    IsTotal (is_counted r.channel.channel_id since) t.samples r.totals
    × (r.current ≡ sample_at r.channel.channel_id r.channel.last_seen t.samples)

-- ── the totals ──
module _ (p : Sample → Bool) where
  abbrev Total : List Sample → Option Totals → Type 0
  Total ss none = All (λ (s : Sample). p s ≡ false) ss
  Total ss (some n) = (any p ss ≡ true) × IsTotal p ss n

  none_counted : (ss : List Sample) → All (λ (s : Sample). p s ≡ false) ss → counted p ss ≡ 0
  none_counted [] h = refl
  none_counted (s ∷ ss) h = rw h.0 (none_counted ss h.1)

  none_bound :
      (v : ℤ) (ss : List Sample)
      → All (λ (s : Sample). p s ≡ false) ss
      → All (λ (s : Sample). p s ≡ true → s.viewers ≤ℤ v) ss
  none_bound v [] h = tt
  none_bound v (s ∷ ss) h = ((λ e. cc), none_bound v ss h.1)

  higher_bound :
      (v w : ℤ) (ss : List Sample)
      → v ≤ℤ w
      → All (λ (s : Sample). p s ≡ true → s.viewers ≤ℤ v) ss
      → All (λ (s : Sample). p s ≡ true → s.viewers ≤ℤ w) ss
  higher_bound v w [] k h = tt
  higher_bound v w (s ∷ ss) k h = ((λ e. omega (arith, h.0 e)), higher_bound v w ss k h.1)

  first_reached :
      (s : Sample) (ss : List Sample) (q : Sample → Bool) → q s ≡ true → any q (s ∷ ss) ≡ true
  unfolding any
  first_reached s ss q e = rw e refl

  later_reached :
      (s : Sample) (ss : List Sample) (q : Sample → Bool) → any q ss ≡ true → any q (s ∷ ss) ≡ true
  unfolding any
  later_reached s ss q e = ground arith

  first-IsTotal :
      (s : Sample) (ss : List Sample)
      → p s ≡ true
      → Total ss none
      → IsTotal p (s ∷ ss) (record { count = 1; peak = s.viewers })
  first-IsTotal s ss e h = record {
    all_counted = rw e (ap suc (sym (none_counted ss h)));
    is_bound = ((λ _. omega arith), none_bound s.viewers ss h);
    is_reached = first_reached s ss _ (ground arith);
  }

  next-IsTotal :
      (s : Sample) (ss : List Sample) (n : Totals) (b : Bool)
      → leb_ℤ n.peak s.viewers ≡ b
      → p s ≡ true
      → IsTotal p ss n
      → IsTotal p (s ∷ ss) (record { count = suc n.count; peak = if b then s.viewers else n.peak })
  next-IsTotal s ss n true k e h = record {
    all_counted = rw e (ap suc h.all_counted);
    is_bound = ((λ _. omega arith), higher_bound n.peak s.viewers ss (ground arith) h.is_bound);
    is_reached = first_reached s ss _ (ground arith);
  }
  next-IsTotal s ss n false k e h = record {
    all_counted = rw e (ap suc h.all_counted);
    is_bound = ((λ _. ground arith), h.is_bound);
    is_reached = later_reached s ss _ h.is_reached;
  }

  add_total-Total :
      (s : Sample) (ss : List Sample) (o : Option Totals)
      → p s ≡ true
      → Total ss o
      → Total (s ∷ ss) (some (add_total s o))
  add_total-Total s ss none e h = (first_reached s ss p e, first-IsTotal s ss e h)
  add_total-Total s ss (some n) e h =
      (first_reached s ss p e, next-IsTotal s ss n (leb_ℤ n.peak s.viewers) refl e h.1)

  skip-Total :
      (s : Sample) (ss : List Sample) (o : Option Totals)
      → p s ≡ false
      → Total ss o
      → Total (s ∷ ss) o
  skip-Total s ss none e h = (e, h)
  skip-Total s ss (some n) e (a, h) = (
    later_reached s ss p a,
    record {
      all_counted = rw e h.all_counted;
      is_bound = ((λ f. absurd (true≢false (sym f ∙ e))), h.is_bound);
      is_reached = later_reached s ss _ h.is_reached;
    },
  )

totals-Total :
    (ch : Bytes) (since : ℤ) (ss : List Sample)
    → Total (is_counted ch since) ss (totals ch since ss)
unfolding totals
totals-Total ch since [] = tt
totals-Total ch since (s ∷ ss) = elim (Bool-cases (is_counted ch since s)) [
  | inl e ↦
      rw (totals, e)
        (add_total-Total (is_counted ch since) s ss (totals ch since ss) e
          (totals-Total ch since ss))
  | inr e ↦
      rw (totals, e)
        (skip-Total (is_counted ch since) s ss (totals ch since ss) e (totals-Total ch since ss))
]

-- ── the order ──
is_ahead-MayPrecede : (r s : Row) → is_ahead r s ≡ true → MayPrecede r s
unfolding is_ahead
is_ahead-MayPrecede r s h = (ground arith, λ k. ground arith)

behind-MayPrecede : (r s : Row) → is_ahead r s ≡ false → MayPrecede s r
unfolding is_ahead
behind-MayPrecede r s h = (ground arith, λ k. ground arith)

place_row-IsHead :
    (a r : Row) (rs : List Row) → MayPrecede a r → IsHead a rs → IsHead a (place_row r rs)
unfolding place_row
place_row-IsHead a r [] h k = h
place_row-IsHead a r (s ∷ ss) h k = if-elim (IsHead a) (is_ahead r s) _ _ (λ _. h) (λ _. k)

place_row-IsRanked : (r : Row) (rs : List Row) → IsRanked rs → IsRanked (place_row r rs)
unfolding place_row
place_row-IsRanked r [] h = (tt, tt)
place_row-IsRanked r (s ∷ ss) h =
    if-elim IsRanked (is_ahead r s) _ _ (λ e. (is_ahead-MayPrecede r s e, h))
      (λ e. (place_row-IsHead s r ss (behind-MayPrecede r s e) h.0, place_row-IsRanked r ss h.1))

abbrev channel : Row → Channel
channel r = r.channel

place_row-Perm :
    (r : Row) (rs : List Row) → Permᴰ (map channel (place_row r rs)) (r.channel ∷ map channel rs)
unfolding place_row
place_row-Perm r [] = Permᴰ.refl _
place_row-Perm r (s ∷ ss) =
    if-elim (λ (l : List Row). Permᴰ (map channel l) (r.channel ∷ s.channel ∷ map channel ss))
      (is_ahead r s) _ _ (λ _. Permᴰ.refl _)
      (λ _. Permᴰ.trans (Permᴰ.cons refl (place_row-Perm r ss)) (Permᴰ.swap refl refl))

place_row-All :
    (P : Row → Type 0) (r : Row) (rs : List Row) → P r → All P rs → All P (place_row r rs)
unfolding place_row
place_row-All P r [] p q = (p, tt)
place_row-All P r (s ∷ ss) p q =
    if-elim (All P) (is_ahead r s) _ _ (λ _. (p, q)) (λ _. (q.0, place_row-All P r ss p q.1))

none-any :
    (p : Sample → Bool) (ss : List Sample) → All (λ (s : Sample). p s ≡ false) ss → any p ss ≡ false
unfolding any
none-any p [] h = refl
none-any p (s ∷ ss) h = rw h.0 (none-any p ss h.1)

-- What holds of the rows of `cs`.
pub record IsListing (t : Tables) (since : ℤ) (cs : List Channel) (rs : List Row) : Type 0 where
  pub shows : Permᴰ (map (λ (r : Row). r.channel) rs) (active t since cs)
  pub is_ranked : IsRanked rs
  pub are_true : All (IsRowOf t since) rs

with_row-IsListing :
    (t : Tables) (since : ℤ) (c : Channel) (cs : List Channel) (rs : List Row) (o : Option Totals)
    → Total (is_counted c.channel_id since) t.samples o
    → IsListing t since cs rs
    → IsListing t since (c ∷ cs) (with_row t c o rs)
with_row-IsListing t since c cs rs none k l = record {
  shows = rw (none-any (is_counted c.channel_id since) t.samples k) l.shows;
  is_ranked = l.is_ranked;
  are_true = l.are_true;
}
with_row-IsListing t since c cs rs (some n) (a, k) l = record {
  shows = rw a (Permᴰ.trans (place_row-Perm (row_of t c n) rs) (Permᴰ.cons refl l.shows));
  is_ranked = place_row-IsRanked (row_of t c n) rs l.is_ranked;
  are_true = place_row-All (IsRowOf t since) (row_of t c n) rs (k, refl) l.are_true;
}

-- For any tables: the channels query has a row for exactly the channels with a sample from `since`
-- on; a row that comes behind another has a peak that is not higher and, where it is equal, a last
-- time that is not later;
-- each row has the number of these samples, the highest of their viewers, and the viewers at the
-- last time of the channel.
pub rows-IsListing :
    (t : Tables) (since : ℤ) (cs : List Channel) → IsListing t since cs (rows t since cs)
unfolding rows
rows-IsListing t since [] = record { shows = Permᴰ.nil; is_ranked = tt; are_true = tt }
rows-IsListing t since (c ∷ cs) =
    with_row-IsListing t since c cs (rows t since cs) (totals c.channel_id since t.samples)
      (totals-Total c.channel_id since t.samples) (rows-IsListing t since cs)
