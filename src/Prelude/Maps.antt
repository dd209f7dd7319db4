-- ===== src/Prelude/Maps.antt =====
-- std::map<int, V> as an association list in ascending key order.
use Prim.Native.Nat.{ℕ, ◌<◌}
use mathlib.Core.Logic.{inl, inr}
use mathlib.Core.Path.{◌≡◌, refl}
use mathlib.Core.List.{List, [], ◌∷◌}
use mathlib.Core.Option.{Option, none, some, some-injective}
use native.Mathlib.Omega.{arith}
use stream_monitor.Prelude.Tests.{ltb, ◌==◌, if◌then◌else◌, Bool-cases, ==_iff}
use stream_monitor.Prelude.Lists.{All}

module _ {ℓ} {V : Type ℓ} where
  unfoldable pub find : ℕ → List (ℕ × V) → Option V
  find k [] = none
  find k ((j, v) ∷ m) = if j == k then some v else find k m

  -- m[k] = v
  unfoldable pub insert : ℕ → V → List (ℕ × V) → List (ℕ × V)
  insert k v [] = (k, v) ∷ []
  insert k v ((j, w) ∷ m) =
      if k == j then (k, v) ∷ m else if ltb k j then (k, v) ∷ (j, w) ∷ m else (j, w) ∷ insert k v m

  -- m.erase(k)
  unfoldable pub erase : ℕ → List (ℕ × V) → List (ℕ × V)
  erase k [] = []
  erase k ((j, w) ∷ m) = if j == k then m else (j, w) ∷ erase k m

  -- The value at a key is replaced in place, through the reference that the map hands out.
  unfoldable pub update : ℕ → V → List (ℕ × V) → List (ℕ × V)
  update k v [] = []
  update k v ((j, w) ∷ m) = if j == k then (j, v) ∷ m else (j, w) ∷ update k v m

  -- Every key of the map is above `k`.
  abbrev pub Above : ℕ → List (ℕ × V) → Type 0
  Above k m = All (λ p. k < p.0) m

  abbrev pub IsOrdered : List (ℕ × V) → Type 0
  IsOrdered [] = Unit
  IsOrdered ((k, v) ∷ m) = Above k m × IsOrdered m

  Above-mono : {a b : ℕ} (m : List (ℕ × V)) → a < b → Above b m → Above a m
  Above-mono [] h x = tt
  Above-mono ((k, v) ∷ m) h x = (omega arith, Above-mono m h x.1)

  pub find-Above : (k : ℕ) (m : List (ℕ × V)) → Above k m → find k m ≡ none
  unfolding find
  find-Above k [] h = refl
  find-Above k ((j, v) ∷ m) h = ground (arith, find-Above k m h.1)

  insert-Above : (a k : ℕ) (v : V) (m : List (ℕ × V)) → a < k → Above a m → Above a (insert k v m)
  unfolding insert
  insert-Above a k v [] h x = (h, tt)
  insert-Above a k v ((j, w) ∷ m) h x = ground (arith, insert-Above a k v m h x.1)

  pub insert-IsOrdered : (k : ℕ) (v : V) (m : List (ℕ × V)) → IsOrdered m → IsOrdered (insert k v m)
  unfolding insert
  insert-IsOrdered k v [] h = (tt, tt)
  insert-IsOrdered k v ((j, w) ∷ m) h =
      ground (arith, Above-mono {a = k} {b = j} m, insert-Above j k v m, insert-IsOrdered k v m h.1)

  erase-Above : (a k : ℕ) (m : List (ℕ × V)) → Above a m → Above a (erase k m)
  unfolding erase
  erase-Above a k [] x = tt
  erase-Above a k ((j, w) ∷ m) x = ground (arith, erase-Above a k m x.1)

  pub erase-IsOrdered : (k : ℕ) (m : List (ℕ × V)) → IsOrdered m → IsOrdered (erase k m)
  unfolding erase
  erase-IsOrdered k [] h = tt
  erase-IsOrdered k ((j, w) ∷ m) h = ground (arith, erase-Above j k m h.0, erase-IsOrdered k m h.1)

  update-Above : (a k : ℕ) (v : V) (m : List (ℕ × V)) → Above a m → Above a (update k v m)
  unfolding update
  update-Above a k v [] x = tt
  update-Above a k v ((j, w) ∷ m) x = ground (arith, update-Above a k v m x.1)

  pub update-IsOrdered : (k : ℕ) (v : V) (m : List (ℕ × V)) → IsOrdered m → IsOrdered (update k v m)
  unfolding update
  update-IsOrdered k v [] h = tt
  update-IsOrdered k v ((j, w) ∷ m) h =
      ground (arith, update-Above j k v m h.0, update-IsOrdered k v m h.1)

  pub find-insert :
      (k j : ℕ) (v : V) (m : List (ℕ × V))
      → find j (insert k v m) ≡ (if k == j then some v else find j m)
  unfolding find insert
  find-insert k j v [] = ground arith
  find-insert k j v ((i, w) ∷ m) = ground (arith, find-insert k j v m)

  pub find-erase :
      (k j : ℕ) (m : List (ℕ × V))
      → IsOrdered m
      → find j (erase k m) ≡ (if k == j then none else find j m)
  unfolding find erase
  find-erase k j [] h = ground arith
  find-erase k j ((i, w) ∷ m) h = ground (arith, find-Above i m h.0, find-erase k j m h.1)

  pub find-update :
      (k j : ℕ) (v : V) (m : List (ℕ × V))
      → find j (update k v m)
        ≡ (if k == j then elim (find j m) [ none ↦ none | some w ↦ some v ] else find j m)
  unfolding find update
  find-update k j v [] = ground arith
  find-update k j v ((i, w) ∷ m) = ground (arith, find-update k j v m)

module _ {ℓ κ} {V : Type ℓ} (P : ℕ × V → Type κ) where
  pub find-All : (k : ℕ) {v : V} (m : List (ℕ × V)) → find k m ≡ some v → All P m → P (k, v)
  unfolding find
  find-All k [] e h = cc
  find-All k ((j, w) ∷ m) e h = elim (Bool-cases (j == k)) [
    | inl t ↦ rw (← (==_iff j k).0 t, ← some-injective _ _ (rw t at e)) h.0
    | inr t ↦ find-All k m (rw t at e) h.1
  ]

  pub insert-All : (k : ℕ) (v : V) (m : List (ℕ × V)) → P (k, v) → All P m → All P (insert k v m)
  unfolding insert
  insert-All k v [] p h = (p, tt)
  insert-All k v ((j, w) ∷ m) p h = ground (arith, insert-All k v m p h.1)

  pub erase-All : (k : ℕ) (m : List (ℕ × V)) → All P m → All P (erase k m)
  unfolding erase
  erase-All k [] h = tt
  erase-All k ((j, w) ∷ m) h = ground (arith, erase-All k m h.1)

  pub update-All : (k : ℕ) (v : V) (m : List (ℕ × V)) → P (k, v) → All P m → All P (update k v m)
  unfolding update
  update-All k v [] p h = tt
  update-All k v ((j, w) ∷ m) p h = elim (Bool-cases (j == k)) [
    | inl t ↦ rw t ((rw ((==_iff j k).0 t) p), h.1)
    | inr t ↦ rw t (h.0, update-All k v m p h.1)
  ]

  -- A map in order is known by its lookups.
  pub All-of_find :
      (m : List (ℕ × V)) → IsOrdered m → ((k : ℕ) (v : V) → find k m ≡ some v → P (k, v)) → All P m
  unfolding find
  All-of_find [] o h = tt
  All-of_find ((j, w) ∷ m) o h =
      (h j w (ground arith), All-of_find m o.1 λ k v e. h k v (ground (arith, find-Above j m o.0)))
