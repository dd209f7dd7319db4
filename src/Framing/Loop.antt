-- ===== src/Framing/Loop.antt =====
-- The loop over a buffer against the handler on the lines of `split`.
use mathlib.Core.Option
use mathlib.Core.Option.{some-injective, none-ne-some}
use mathlib.Core.Path.{subst}
use stream_monitor.Prelude.{
  ℕ, zero, suc, ◌<◌, ◌≡◌, refl, inl, inr, List, [], ◌∷◌, ◌++◌, Option, none, some, Option-cases,
  length, arith,
}
use stream_monitor.Framing.{Bytes, next_line, on_line, drain}
use stream_monitor.Framing.Split.{split}

-- The handler on each line in turn, until one throws.
abbrev pub run_lines {ℓ} : {S : Type ℓ} → (S → Bytes → Option S) → List Bytes → S → Option S
run_lines handle [] s = some s
run_lines handle (l ∷ ls) s = elim (on_line handle l s) [
  | none ↦ none
  | some s' ↦ run_lines handle ls s'
]

next_line-none : (buf : Bytes) → next_line buf ≡ none → split buf ≡ ([], buf)
unfolding next_line split
next_line-none [] e = refl
next_line-none (c ∷ cs) e = elim (Option-cases (next_line cs)) [
  | inl n ↦ ground (arith, next_line-none cs n)
  | inr ((l, r), n) ↦ ground arith
]

next_line-some :
    (buf l r : Bytes)
    → next_line buf ≡ some (l, r)
    → (split buf ≡ (l ∷ (split r).0, (split r).1)) × (length r < length buf)
unfolding next_line split
next_line-some [] l r e = ground arith
next_line-some (c ∷ cs) l r e = elim (Option-cases (next_line cs)) [
  | inl n ↦ ground arith
  | inr ((l', r'), n) ↦ ground (arith, next_line-some cs l' r' n)
]

module _ {ℓ} {S : Type ℓ} (handle : S → Bytes → Option S) where
  drain_line :
      (fuel : ℕ) (buf l r : Bytes) (s : S)
      → next_line buf ≡ some (l, r)
      → (split buf ≡ (l ∷ (split r).0, (split r).1)) × (length r < length buf)
      → ((s' : S)
          → length r < fuel
          → drain fuel handle r s'
            ≡ Option.map (λ s''. (s'', (split r).1)) (run_lines handle (split r).0 s'))
      → length buf < suc fuel
      → drain (suc fuel) handle buf s
        ≡ Option.map (λ s''. (s'', (split buf).1)) (run_lines handle (split buf).0 s)
  unfolding drain
  drain_line fuel buf l r s n (e, lt) ih h = elim (Option-cases (on_line handle l s)) [
    | inl o ↦ rw (n, drain, e, o, run_lines)
    | inr (s', o) ↦ rw (n, drain, e, o, run_lines) (ih s' (omega arith))
  ]

  -- Fuel above the length of the buffer is enough, whatever the handler does.
  pub drain-split :
      (fuel : ℕ) (buf : Bytes) (s : S)
      → length buf < fuel
      → drain fuel handle buf s
        ≡ Option.map (λ s'. (s', (split buf).1)) (run_lines handle (split buf).0 s)
  unfolding drain
  drain-split zero buf s h = elim h [ ]
  drain-split (suc fuel) buf s h = elim (Option-cases (next_line buf)) [
    | inl n ↦ rw (n, drain, next_line-none buf n)
    | inr ((l, r), n) ↦
        drain_line fuel buf l r s n (next_line-some buf l r n) (λ s' k. drain-split fuel r s' k) h
  ]

  pub run_lines-append :
      (ls ks : List Bytes) (s : S)
      → run_lines handle (ls ++ ks) s
        ≡ elim (run_lines handle ls s) [ none ↦ none | some s' ↦ run_lines handle ks s' ]
  run_lines-append [] ks s = refl
  run_lines-append (l ∷ ls) ks s = elim (Option-cases (on_line handle l s)) [
    | inl e ↦ rw (e, run_lines)
    | inr (s', e) ↦ rw (e, run_lines) (run_lines-append ls ks s')
  ]

  -- What the handler keeps, the loop keeps.
  pub run_lines-preserves {κ} :
      (P : S → Type κ)
      → ((s s' : S) (l : Bytes) → P s → handle s l ≡ some s' → P s')
      → (ls : List Bytes) (s : S) {s' : S} → P s
      → run_lines handle ls s ≡ some s'
      → P s'
  unfolding on_line
  run_lines-preserves P keep [] s p e = subst P (some-injective _ _ e) p
  run_lines-preserves P keep ([] ∷ ls) s p e = run_lines-preserves P keep ls s p e
  run_lines-preserves P keep ((c ∷ l) ∷ ls) s p e = elim (Option-cases (handle s (c ∷ l))) [
    | inl n ↦ absurd (none-ne-some _ (rw (n, run_lines) at e))
    | inr (t, n) ↦ run_lines-preserves P keep ls t (keep s t (c ∷ l) p n) (rw (n, run_lines) at e)
  ]
