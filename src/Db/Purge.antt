-- ===== src/Db/Purge.antt =====
-- What `Store::purge` leaves of stream_info.
use mathlib.Core.Path.{subst}
use mathlib.Core.Bool.{false≢true}
use stream_monitor.Prelude.{
  ℕ, ◌≤◌, ◌<◌, ◌≡◌, refl, sym, ◌∙◌, Bool, true, false, ◌&&◌, inl, inr, ◌⊎◌, List, [], ◌∷◌, Option,
  none, some, arith, if-elim, Bool-cases,
}
use stream_monitor.Prelude.Int.{ℤ, pos, negsuc, ltb_ℤ, leb_ℤ}
use stream_monitor.Framing.{Bytes}
use stream_monitor.Json.{bytes_eq, bytes_eq_iff}
use stream_monitor.Db.{Info, later, last_info, before_last, purge_infos, info_at}

abbrev IsBelow : ℕ → Option Info → Type 0
IsBelow m none = Unit
IsBelow m (some r) = r.ts < m

-- Two last rows that agree, or that are both older than `m`.
abbrev Agree : ℕ → Option Info → Option Info → Type 0
Agree m a b = (a ≡ b) ⊎ (IsBelow m a × IsBelow m b)

later-Agree :
    (m : ℕ) (s : Info) (a b : Option Info)
    → Agree m a b
    → Agree m (some (later s a)) (some (later s b))
later-Agree m s none none (inl e) = inl refl
later-Agree m s none (some r) h = ground arith
later-Agree m s (some r) none h = ground arith
later-Agree m s (some q) (some r) h = ground arith
later-Agree m s none none (inr h) = inl refl

skip-Agree :
    (m : ℕ) (s : Info) (a b : Option Info) → s.ts < m → Agree m a b → Agree m a (some (later s b))
skip-Agree m s none b l h = ground arith
skip-Agree m s (some q) b l h = ground arith

abbrev last_ts : Option Info → ℕ
last_ts none = 0
last_ts (some r) = r.ts

Agree-last : (a b : Option Info) → Agree (last_ts b) a b → a ≡ b
Agree-last a b (inl e) = e
Agree-last none none (inr h) = refl
Agree-last (some q) none (inr h) = absurd (omega arith)
Agree-last a (some r) (inr h) = absurd (omega arith)

and-right : (a b : Bool) → (a && b) ≡ true → b ≡ true
and-right a b e = ground arith

and-left : (a b : Bool) → (a && b) ≡ true → a ≡ true
and-left a b e = ground arith

info_at-other :
    (ch : Bytes) (t : ℤ) (s : Info) (ss : List Info)
    → (bytes_eq s.channel_id ch && leb_ℤ (pos s.ts) t) ≡ false
    → info_at ch t (s ∷ ss) ≡ info_at ch t ss
unfolding info_at
info_at-other ch t s ss e = rw e

before_last-lt : (ts : ℕ) (o : Option Info) → before_last ts o ≡ true → ts < last_ts o
before_last-lt ts none e = cc
before_last-lt ts (some r) e = ground arith

last_info-other :
    (ch : Bytes) (s : Info) (ss : List Info)
    → bytes_eq s.channel_id ch ≡ false
    → last_info ch (s ∷ ss) ≡ last_info ch ss
unfolding last_info
last_info-other ch s ss e = rw e

last_info-own :
    (ch : Bytes) (s : Info) (ss : List Info)
    → bytes_eq s.channel_id ch ≡ true
    → last_info ch (s ∷ ss) ≡ some (later s (last_info ch ss))
unfolding last_info
last_info-own ch s ss e = rw e

purge-Agree :
    (ch : Bytes) (cutoff : ℤ) (all infos : List Info)
    → Agree
        (last_ts (last_info ch all))
        (last_info ch (purge_infos all cutoff infos))
        (last_info ch infos)
unfolding purge_infos
purge-Agree ch cutoff all [] = inl refl
purge-Agree ch cutoff all (s ∷ ss) =
    let ih = purge-Agree ch cutoff all ss in
    let old = ltb_ℤ (pos s.ts) cutoff && before_last s.ts (last_info s.channel_id all) in
    let kept = purge_infos all cutoff ss in
    elim (Bool-cases (bytes_eq s.channel_id ch)) [
      | inl own ↦ rw (last_info-own ch s ss own) (
          if-elim
            (λ l.
              Agree (last_ts (last_info ch all)) (last_info ch l)
                (some (later s (last_info ch ss))))
            old kept (s ∷ kept)
            (λ g.
              skip-Agree _ s _ _
                (before_last-lt s.ts (last_info ch all) (
                  subst (λ k. before_last s.ts (last_info k all) ≡ true)
                    ((bytes_eq_iff s.channel_id ch).0 own)
                    (and-right (ltb_ℤ (pos s.ts) cutoff) _ g)))
                ih)
            (λ _. rw (last_info-own ch s kept own) (later-Agree _ s _ _ ih)))
      | inr other ↦ rw (last_info-other ch s ss other) (
          if-elim (λ l. Agree (last_ts (last_info ch all)) (last_info ch l) (last_info ch ss)) old
            kept (s ∷ kept) (λ _. ih) (λ _. rw (last_info-other ch s kept other) ih))
    ]

-- A purge of the infos keeps the last row of every channel.
pub last_info-purge :
    (ch : Bytes) (cutoff : ℤ) (infos : List Info)
    → last_info ch (purge_infos infos cutoff infos) ≡ last_info ch infos
last_info-purge ch cutoff infos = Agree-last _ _ (purge-Agree ch cutoff infos infos)

abbrev IsAtMost : ℕ → Option Info → Type 0
IsAtMost m none = Unit
IsAtMost m (some r) = r.ts ≤ m

later-IsAtMost :
    (m : ℕ) (s : Info) (o : Option Info) → IsAtMost m (some (later s o)) → (s.ts ≤ m) × IsAtMost m o
later-IsAtMost m s none h = (h, tt)
later-IsAtMost m s (some r) h = ground arith

older-ltb :
    (a b : ℕ) (cutoff : ℤ) → a ≤ b → ltb_ℤ (pos b) cutoff ≡ true → ltb_ℤ (pos a) cutoff ≡ true
older-ltb a b (pos n) h e = ground arith
older-ltb a b (negsuc n) h e = ground arith

older-before_last :
    (a b : ℕ) (o : Option Info) → a ≤ b → before_last b o ≡ true → before_last a o ≡ true
older-before_last a b none h e = e
older-before_last a b (some r) h e = ground arith

and-true : (a b : Bool) → a ≡ true → b ≡ true → (a && b) ≡ true
and-true a b p q = ground arith

module _ (ch : Bytes) (t cutoff : ℤ) (all : List Info) (r : Info) where
  info_at-IsAtMost :
      (s : Info) (ss : List Info)
      → IsAtMost r.ts (info_at ch t (s ∷ ss))
      → IsAtMost r.ts (info_at ch t ss)
        × ((bytes_eq s.channel_id ch && leb_ℤ (pos s.ts) t) ≡ true → s.ts ≤ r.ts)
  unfolding info_at
  info_at-IsAtMost s ss h = elim (Bool-cases (bytes_eq s.channel_id ch && leb_ℤ (pos s.ts) t)) [
    | inl e ↦
        let (p, q) = later-IsAtMost r.ts s (info_at ch t ss) (rw (e, info_at) at h) in (q, λ _. p)
    | inr e ↦ ((rw (e, info_at) at h), λ p. absurd (false≢true (sym e ∙ p)))
  ]

  info_at-none :
      (infos : List Info)
      → ltb_ℤ (pos r.ts) cutoff ≡ true
      → before_last r.ts (last_info ch all) ≡ true
      → IsAtMost r.ts (info_at ch t infos)
      → info_at ch t (purge_infos all cutoff infos) ≡ none
  unfolding purge_infos
  info_at-none [] old late h = unfold info_at in refl
  info_at-none (s ∷ ss) old late h =
      let (rest, own) = info_at-IsAtMost s ss h in
      let ih = info_at-none ss old late rest in
      let kept = purge_infos all cutoff ss in
      if-elim (λ l. info_at ch t l ≡ none)
        (ltb_ℤ (pos s.ts) cutoff && before_last s.ts (last_info s.channel_id all)) kept (s ∷ kept)
        (λ _. ih)
        (λ g. elim (Bool-cases (bytes_eq s.channel_id ch && leb_ℤ (pos s.ts) t)) [
          | inl e ↦ absurd (
              false≢true (
                sym g
                ∙ and-true _ _ (older-ltb s.ts r.ts cutoff (own e) old) (
                    subst (λ k. before_last s.ts (last_info k all) ≡ true)
                      (sym ((bytes_eq_iff s.channel_id ch).0 (and-left _ _ e)))
                      (older-before_last s.ts r.ts (last_info ch all) (own e) late))))
          | inr e ↦ info_at-other ch t s kept e ∙ ih
        ])

-- A purge loses the row that is in force at a time: where that row is older than the cutoff and
-- the channel has a later one, no row is in force at that time after the purge, be the time
-- itself before the cutoff or not.
pub info_at-purge :
    (ch : Bytes) (t cutoff : ℤ) (infos : List Info) (r : Info)
    → info_at ch t infos ≡ some r
    → ltb_ℤ (pos r.ts) cutoff ≡ true
    → before_last r.ts (last_info ch infos) ≡ true
    → info_at ch t (purge_infos infos cutoff infos) ≡ none
info_at-purge ch t cutoff infos r e old late =
    info_at-none ch t cutoff infos r infos old late (rw e (omega arith))
