-- ===== src/Framing/Segments.antt =====
-- A stream that TCP hands over in pieces, and the lines that the handler sees.
use mathlib.Core.Option
use stream_monitor.Prelude.{
  ◌≡◌, ◌∙◌, inl, inr, List, [], ◌∷◌, ◌++◌, Option, none, some, append-nil, append_assoc,
  Option-cases, All, arith,
}
use stream_monitor.Framing.{Bytes, frame, receive, receive_all}
use stream_monitor.Framing.Split.{
  split, split-append, split-rest, split-IsLine, split-frame, IsLine,
}
use stream_monitor.Framing.Loop.{run_lines, run_lines-append, drain-split}

abbrev pub concat : List Bytes → Bytes
concat [] = []
concat (c ∷ cs) = c ++ concat cs

module _ {ℓ} {S : Type ℓ} (handle : S → Bytes → Option S) where
  -- The handler on all lines of `buf`, with the unfinished one kept.
  abbrev pub handled : Bytes → S → Option (S × Bytes)
  handled buf s = Option.map (λ s'. (s', (split buf).1)) (run_lines handle (split buf).0 s)

  receive-handled :
      (chunk buf : Bytes) (s : S) → receive handle chunk (s, buf) ≡ handled (buf ++ chunk) s
  unfolding receive
  receive-handled chunk buf s = drain-split handle _ (buf ++ chunk) s (omega arith)

  handled-append :
      (a b : Bytes) (s : S)
      → handled (a ++ b) s ≡ elim (handled a s) [ none ↦ none | some (s', r) ↦ handled (r ++ b) s' ]
  handled-append a b s = elim (Option-cases (run_lines handle (split a).0 s)) [
    | inl e ↦ rw (split-append a b, run_lines-append handle (split a).0, e)
    | inr (s', e) ↦ rw (split-append a b, run_lines-append handle (split a).0, e)
  ]

  -- Whatever the pieces, the handler is run on the lines of the whole stream, in their order.
  pub receive_all-concat :
      (cs : List Bytes) (buf : Bytes) (s : S)
      → IsLine buf
      → receive_all handle cs (s, buf) ≡ handled (buf ++ concat cs) s
  unfolding receive_all
  receive_all-concat [] buf s h = rw (append-nil buf, split-rest buf h)
  receive_all-concat (c ∷ cs) buf s h =
      rw
        (
          receive-handled c buf s,
          receive_all,
          ← append_assoc,
          handled-append (buf ++ c) (concat cs) s,
        )
        (elim (Option-cases (run_lines handle (split (buf ++ c)).0 s)) [
          | inl e ↦ rw e
          | inr (s', e) ↦ rw e (receive_all-concat cs _ s' (split-IsLine (buf ++ c)).1)
        ])

  -- Framed messages without '\n' come out of any segmentation as they were, and nothing is left.
  pub receive_all-frame :
      (ms cs : List Bytes) (s : S)
      → All IsLine ms
      → concat cs ≡ frame ms
      → receive_all handle cs (s, []) ≡ Option.map (λ s'. (s', [])) (run_lines handle ms s)
  receive_all-frame ms cs s h e =
      receive_all-concat cs [] s tt ∙ rw (e, ← append-nil (frame ms), split-frame ms [] h tt)
