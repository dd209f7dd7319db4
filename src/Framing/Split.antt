-- ===== src/Framing/Split.antt =====
-- The lines of a buffer by structural recursion, with no search and no fuel.
use stream_monitor.Prelude.{
  ℕ, false, ◌≡◌, ◌≢◌, inl, inr, refl, ap, ◌∙◌, List, [], ◌∷◌, ◌++◌, append_assoc, ◌==◌,
  if◌then◌else◌, Bool-cases, All, arith, ◌≤◌, length, length-append,
}
use stream_monitor.Framing.{Bytes, frame}

-- A byte in front of the first line, which is the rest if there is no other.
abbrev pub push_byte : ℕ → List Bytes × Bytes → List Bytes × Bytes
push_byte c ([], r) = ([], c ∷ r)
push_byte c (l ∷ ls, r) = ((c ∷ l) ∷ ls, r)

-- The finished lines, empty ones included, and the unfinished one.
unfoldable pub split : Bytes → List Bytes × Bytes
split [] = ([], [])
split (c ∷ cs) = if c == b'\n' then ([] ∷ (split cs).0, (split cs).1) else push_byte c (split cs)

-- No byte is '\n'.
abbrev pub IsLine : Bytes → Type 0
IsLine l = All (λ c. c ≢ b'\n') l

-- The lines of `b` after the unfinished line of `a`.
abbrev pub join : List Bytes × Bytes → List Bytes × Bytes → List Bytes × Bytes
join (ls, _) (ks, r) = (ls ++ ks, r)

split-push_byte :
    (c : ℕ) (b : Bytes) (p q : List Bytes × Bytes)
    → (c == b'\n') ≡ false
    → q ≡ join p (split (p.1 ++ b))
    → push_byte c q ≡ join (push_byte c p) (split ((push_byte c p).1 ++ b))
unfolding split
split-push_byte c b ([], r) q ne e = rw (e, ne)
split-push_byte c b (l ∷ ls, r) q ne e = rw e

-- A segmentation of the input does not matter: the second part is read after the unfinished line
-- that the first part leaves.
pub split-append : (a b : Bytes) → split (a ++ b) ≡ join (split a) (split ((split a).1 ++ b))
unfolding split
split-append [] b = refl
split-append (c ∷ cs) b = elim (Bool-cases (c == b'\n')) [
  | inl e ↦ rw e (rw (split-append cs b))
  | inr e ↦ rw e (split-push_byte c b (split cs) _ e (split-append cs b))
]

push_byte-IsLine :
    (c : ℕ) (p : List Bytes × Bytes)
    → c ≢ b'\n'
    → All IsLine p.0 × IsLine p.1
    → All IsLine (push_byte c p).0 × IsLine (push_byte c p).1
push_byte-IsLine c ([], r) ne h = (tt, (ne, h.1))
push_byte-IsLine c (l ∷ ls, r) ne h = (((ne, h.0.0), h.0.1), h.1)

-- No line holds a '\n', the unfinished one neither.
pub split-IsLine : (a : Bytes) → All IsLine (split a).0 × IsLine (split a).1
unfolding split
split-IsLine [] = (tt, tt)
split-IsLine (c ∷ cs) = elim (Bool-cases (c == b'\n')) [
  | inl e ↦ rw e ((tt, (split-IsLine cs).0), (split-IsLine cs).1)
  | inr e ↦ rw e (push_byte-IsLine c (split cs) (ground arith) (split-IsLine cs))
]

frame-push_byte :
    (c : ℕ) (p : List Bytes × Bytes)
    → frame (push_byte c p).0 ++ (push_byte c p).1 ≡ c ∷ (frame p.0 ++ p.1)
unfolding frame
frame-push_byte c ([], r) = refl
frame-push_byte c (l ∷ ls, r) = refl

frame-nil_line : (ls : List Bytes) (r : Bytes) → frame ([] ∷ ls) ++ r ≡ b'\n' ∷ (frame ls ++ r)
unfolding frame
frame-nil_line ls r = refl

-- Nothing of the input is lost: the lines framed again and the rest are the input.
pub frame-split : (a : Bytes) → frame (split a).0 ++ (split a).1 ≡ a
unfolding split
frame-split [] = unfold frame in refl
frame-split (c ∷ cs) = elim (Bool-cases (c == b'\n')) [
  | inl e ↦ rw e (frame-nil_line (split cs).0 (split cs).1 ∙ (ground (arith, frame-split cs)))
  | inr e ↦ rw e (frame-push_byte c (split cs) ∙ ap (◌∷◌ c) (frame-split cs))
]

pub split-line :
    (l b : Bytes) → IsLine l → split (l ++ (b'\n' ∷ b)) ≡ (l ∷ (split b).0, (split b).1)
unfolding split
split-line [] b h = refl
split-line (c ∷ l) b h = ground (arith, split-line l b h.1)

pub split-rest : (l : Bytes) → IsLine l → split l ≡ ([], l)
unfolding split
split-rest [] h = refl
split-rest (c ∷ l) h = ground (arith, split-rest l h.1)

pub split-frame :
    (ms : List Bytes) (r : Bytes) → All IsLine ms → IsLine r → split (frame ms ++ r) ≡ (ms, r)
unfolding frame
split-frame [] r h hr = split-rest r hr
split-frame (m ∷ ms) r h hr =
    rw append_assoc (split-line m (frame ms ++ r) h.0 ∙ (rw (split-frame ms r h.1 hr)))

pub split-length-le : (a : Bytes) → length (split a).1 ≤ length a
split-length-le a =
    omega (arith, ap length (frame-split a), length-append (frame (split a).0) (split a).1)
