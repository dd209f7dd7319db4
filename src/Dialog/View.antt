-- ===== src/Dialog/View.antt =====
-- The rows of the list of channels.
use mathlib.Core.List.{Permᴰ}
use mathlib.Core.List.Permᴰ
use mathlib.Core.Bool.{true≢false}
use stream_monitor.Prelude.{
  ℕ, ◌≡◌, refl, sym, ◌∙◌, inl, inr, Bool, true, false, not, ◌&&◌, Bool-cases, List, [], ◌∷◌, arith,
  if◌then◌else◌, if-elim,
}
use stream_monitor.Prelude.Int.{ℤ, pos, ◌-ℤ◌, ◌≤ℤ◌, ltb_ℤ}
use stream_monitor.Client.{Listed}
use stream_monitor.Dialog.{is_live, live_viewers, is_before, place_row, is_shown, view_of}

-- More than two minutes have gone since the channel was seen.
abbrev pub is_offline : ℕ → Listed → Bool
is_offline now c = ltb_ℤ (pos 120) (pos now -ℤ c.last_seen)

-- The channels that the filter lets through, in the order of the server.
abbrev pub shown : Bool → ℕ → List Listed → List Listed
shown live_only now [] = []
shown live_only now (c ∷ cs) =
    if live_only && is_offline now c then shown live_only now cs else c ∷ shown live_only now cs

-- What a channel is ranked by: its viewers, 0 where it is offline.
abbrev pub rank : ℕ → Listed → ℤ
rank now c = if is_offline now c then pos 0 else c.current

-- The channel `a` may stand above `b`: it is not ranked lower and, where they are ranked equal, its
-- peak is not lower.
abbrev pub InOrder : ℕ → Listed → Listed → Type 0
InOrder now a b = (rank now b ≤ℤ rank now a) × (rank now a ≤ℤ rank now b → b.peak ≤ℤ a.peak)

abbrev pub IsHead : ℕ → Listed → List Listed → Type 0
IsHead now a [] = Unit
IsHead now a (s ∷ ss) = InOrder now a s

abbrev pub IsRanked : ℕ → List Listed → Type 0
IsRanked now [] = Unit
IsRanked now (s ∷ ss) = IsHead now s ss × IsRanked now ss

live_viewers-rank : (now : ℕ) (c : Listed) → live_viewers now c ≡ rank now c
unfolding live_viewers is_live
live_viewers-rank now c = ground arith

is_shown_lem :
    (live_only : Bool) (now : ℕ) (c : Listed)
    → is_shown live_only now c ≡ not (live_only && is_offline now c)
unfolding is_shown is_live
is_shown_lem live_only now c = ground arith

-- The comparison of two channels by what they are ranked by.
compared : ℤ → ℤ → ℤ → ℤ → Bool
compared ca cb pa pb = if ltb_ℤ cb ca then true else if ltb_ℤ ca cb then false else ltb_ℤ pb pa

compared-true : (ca cb pa pb : ℤ) → compared ca cb pa pb ≡ true → (cb ≤ℤ ca) × (ca ≤ℤ cb → pb ≤ℤ pa)
unfolding compared
compared-true ca cb pa pb h = (ground arith, λ k. ground arith)

compared-false :
    (ca cb pa pb : ℤ) → compared ca cb pa pb ≡ false → (ca ≤ℤ cb) × (cb ≤ℤ ca → pa ≤ℤ pb)
unfolding compared
compared-false ca cb pa pb h = (ground arith, λ k. ground arith)

is_before-compared :
    (now : ℕ) (a b : Listed) → is_before now a b ≡ compared (rank now a) (rank now b) a.peak b.peak
unfolding is_before compared
is_before-compared now a b = rw (live_viewers-rank now a, live_viewers-rank now b) refl

before-InOrder : (now : ℕ) (a b : Listed) → is_before now a b ≡ true → InOrder now a b
before-InOrder now a b h =
    compared-true (rank now a) (rank now b) a.peak b.peak (sym (is_before-compared now a b) ∙ h)

behind-InOrder : (now : ℕ) (a b : Listed) → is_before now a b ≡ false → InOrder now b a
behind-InOrder now a b h =
    compared-false (rank now a) (rank now b) a.peak b.peak (sym (is_before-compared now a b) ∙ h)

place_row-IsHead :
    (now : ℕ) (a r : Listed) (ss : List Listed)
    → InOrder now a r
    → IsHead now a ss
    → IsHead now a (place_row now r ss)
unfolding place_row
place_row-IsHead now a r [] h k = h
place_row-IsHead now a r (s ∷ ss) h k =
    if-elim (IsHead now a) (is_before now s r) _ _ (λ _. k) (λ _. h)

place_row-IsRanked :
    (now : ℕ) (r : Listed) (ss : List Listed) → IsRanked now ss → IsRanked now (place_row now r ss)
unfolding place_row
place_row-IsRanked now r [] h = (tt, tt)
place_row-IsRanked now r (s ∷ ss) h =
    if-elim (IsRanked now) (is_before now s r) _ _
      (λ e. (
        place_row-IsHead now s r ss (before-InOrder now s r e) h.0,
        place_row-IsRanked now r ss h.1,
      ))
      (λ e. (behind-InOrder now s r e, h))

place_row-Perm : (now : ℕ) (r : Listed) (ss : List Listed) → Permᴰ (place_row now r ss) (r ∷ ss)
unfolding place_row
place_row-Perm now r [] = Permᴰ.refl _
place_row-Perm now r (s ∷ ss) = elim (Bool-cases (is_before now s r)) [
  | inl e ↦
      rw (place_row, e)
        (Permᴰ.trans (Permᴰ.cons refl (place_row-Perm now r ss)) (Permᴰ.swap refl refl))
  | inr e ↦ rw (place_row, e) (Permᴰ.refl _)
]

abbrev pub Views : Bool → ℕ → List Listed → List Listed → Type 0
Views live_only now cs vs = Permᴰ vs (shown live_only now cs) × IsRanked now vs

hidden-Views :
    (live_only : Bool) (now : ℕ) (c : Listed) (cs vs : List Listed)
    → is_shown live_only now c ≡ false
    → Views live_only now cs vs
    → Views live_only now (c ∷ cs) vs
hidden-Views live_only now c cs vs e h =
    if-elim (λ l. Permᴰ vs l × IsRanked now vs) (live_only && is_offline now c) _ _ (λ _. h)
      (λ f. absurd (true≢false (sym (is_shown_lem live_only now c ∙ rw f refl) ∙ e)))

shown-Views :
    (live_only : Bool) (now : ℕ) (c : Listed) (cs vs : List Listed)
    → is_shown live_only now c ≡ true
    → Views live_only now cs vs
    → Views live_only now (c ∷ cs) (place_row now c vs)
shown-Views live_only now c cs vs e (p, r) =
    if-elim (λ l. Permᴰ (place_row now c vs) l × IsRanked now (place_row now c vs))
      (live_only && is_offline now c) _ _
      (λ f. absurd (true≢false (sym e ∙ is_shown_lem live_only now c ∙ rw f refl)))
      (λ _.
        (Permᴰ.trans (place_row-Perm now c vs) (Permᴰ.cons refl p), place_row-IsRanked now c vs r))

-- The rows of the list are all channels, or under the filter those seen in the last two minutes,
-- each as often as it was there. A row below another does not have more viewers, an offline channel
-- counting as 0, and where both have as many, it does not have the higher peak.
pub view_of-IsRanked :
    (live_only : Bool) (now : ℕ) (cs : List Listed)
    → Views live_only now cs (view_of live_only now cs)
unfolding view_of
view_of-IsRanked live_only now [] = (Permᴰ.nil, tt)
view_of-IsRanked live_only now (c ∷ cs) =
    let rest = view_of live_only now cs in
    let h = view_of-IsRanked live_only now cs in
    if-elim (Views live_only now (c ∷ cs)) (is_shown live_only now c) (place_row now c rest) rest
      (λ e. shown-Views live_only now c cs rest e h) (λ e. hidden-Views live_only now c cs rest e h)
