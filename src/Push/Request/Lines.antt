-- ===== src/Push/Request/Lines.antt =====
-- The replies to a buffer of requests.
use mathlib.Core.Option.{some-injective, none-ne-some}
use stream_monitor.Prelude.{
  ℕ, suc, ◌≡◌, ◌≢◌, refl, sym, ◌∙◌, ap, inl, inr, List, [], ◌∷◌, ◌++◌, map, Option, none, some,
  arith, Option-cases, length,
}
use stream_monitor.Framing.{Bytes, on_line, drain, frame}
use stream_monitor.Framing.Split.{split}
use stream_monitor.Framing.Loop.{run_lines, drain-split}
use stream_monitor.Json.{Json}
use stream_monitor.Push.Conn.{Conn}
use stream_monitor.Push.Request.{Env, handle_line}
use stream_monitor.Push.Request.Answer.{answer, answers, with_answer, lines-answers}
use stream_monitor.Push.Request.Window.{IsLimited, handle_line-ne-none}

-- The lines that are not empty: the requests.
abbrev pub requests : List Bytes → List Bytes
requests [] = []
requests ([] ∷ ls) = requests ls
requests ((b ∷ l) ∷ ls) = (b ∷ l) ∷ requests ls

with_answer-cons :
    (o : Option Json) (os : Option (List Json)) (js : List Json)
    → with_answer o os ≡ some js
    → (j : Json) × (ks : List Json) × (o ≡ some j) × (os ≡ some ks) × (js ≡ j ∷ ks)
with_answer-cons none os js e = absurd (none-ne-some _ e)
with_answer-cons (some j) none js e = absurd (none-ne-some _ e)
with_answer-cons (some j) (some ks) js e = (j, ks, refl, refl, sym (some-injective _ _ e))

answers-map :
    (env : Env) (now clients : ℕ) (ls : List Bytes) (js : List Json)
    → answers env now clients ls ≡ some js
    → map (answer env now clients) (requests ls) ≡ map some js
unfolding answers
answers-map env now clients [] js e = ap (map some) (some-injective _ _ e)
answers-map env now clients ([] ∷ ls) js e = answers-map env now clients ls js e
answers-map env now clients ((b ∷ l) ∷ ls) js e =
    let (j, ks, p, q, r) =
      with_answer-cons (answer env now clients (b ∷ l)) (answers env now clients ls) js e in
    ap (λ o. o ∷ map (answer env now clients) (requests ls)) p
    ∙ ap (λ os. some j ∷ os) (answers-map env now clients ls ks q)
    ∙ ap (map some) (sym r)

lines-ne-none :
    (env : Env) (now clients : ℕ) (ls : List Bytes) (c : Conn)
    → IsLimited env.queries
    → run_lines (handle_line env now clients) ls c ≢ none
unfolding on_line
lines-ne-none env now clients [] c q e = none-ne-some _ (sym e)
lines-ne-none env now clients ([] ∷ ls) c q e = lines-ne-none env now clients ls c q e
lines-ne-none env now clients ((b ∷ l) ∷ ls) c q e =
    elim (Option-cases (handle_line env now clients c (b ∷ l))) [
      | inl n ↦ handle_line-ne-none env now clients c (b ∷ l) q n
      | inr (d, n) ↦ lines-ne-none env now clients ls d q (rw (n, run_lines) at e)
    ]

-- Where the queries throw on no window of 0 to 30 days, every buffer is handled to its end: the
-- lines that are not empty have their answers, and behind the output that there was stand these
-- documents as the writer gives them, each with a newline behind it, in the order of the lines. The
-- unfinished line stays.
pub drain-answered :
    (env : Env) (now clients : ℕ) (buf : Bytes) (c : Conn)
    → IsLimited env.queries
    → (d : Conn) × (js : List Json) × (drain (suc (length buf)) (handle_line env now clients) buf c
        ≡ some (d, (split buf).1))
      × (map (answer env now clients) (requests (split buf).0) ≡ map some js)
      × (d.out ≡ c.out ++ frame (map env.write js))
drain-answered env now clients buf c q =
    elim (Option-cases (run_lines (handle_line env now clients) (split buf).0 c)) [
      | inl n ↦ absurd (lines-ne-none env now clients (split buf).0 c q n)
      | inr (d, n) ↦
          let (js, k, a) = lines-answers env now clients (split buf).0 c n in
          (
            d,
            js,
            drain-split (handle_line env now clients) _ buf c (omega arith) ∙ rw n,
            answers-map env now clients (split buf).0 js k,
            a,
          )
    ]
