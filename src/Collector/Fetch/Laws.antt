-- ===== src/Collector/Fetch/Laws.antt =====
-- The end of `fetch_top_lives`, and what it returns.
use stream_monitor.Prelude.{
  ℕ, zero, suc, ◌+◌, ◌≤◌, ◌<◌, ◌≡◌, ◌≢◌, inl, inr, false, ◌||◌, List, [], ◌∷◌, ◌++◌, Option, none,
  some, arith, All, All-append, length, length-append, length-take, take, ltb, if-elim, Bool-cases,
}
use stream_monitor.Prelude.Int.{ℤ, pos}
use stream_monitor.Framing.{Bytes}
use stream_monitor.Json.{
  Json, arr, find_member, c_str, Items, nil, cons, obj, Members, IsCStr, json_str-IsCStr, codes,
}
use stream_monitor.Collector.Fetch.{
  Live, FetchError, out_of_fuel, undefined_content, Fetched, ok, err, Web, Page, is_empty,
  read_live, push_live, read_lives, read_answer, read_doc, read_content, data_lives, fetch_loop,
  resized, after_answer, fetch_top_lives,
}

-- A live as it is recorded: its channel has an id, and no text holds a NUL.
pub record IsLive (l : Live) : Type 0 where
  pub has_id : l.channel_id ≢ []
  pub id : IsCStr l.channel_id
  pub name : IsCStr l.channel_name
  pub category : IsCStr l.category
  pub title : IsCStr l.title

push_live-IsLive :
    (l : Live) (ls : List Live)
    → (l.channel_id ≢ [] → IsLive l)
    → All IsLive ls
    → All IsLive (push_live l l.channel_id ls)
push_live-IsLive l ls h hs = ground arith

read_live-IsLive : (ms : Members) → (read_live ms).channel_id ≢ [] → IsLive (read_live ms)
unfolding read_live
read_live-IsLive ms h = record {
  has_id = h;
  id = json_str-IsCStr ms (codes "channelId");
  name = json_str-IsCStr ms (codes "channelName");
  category = json_str-IsCStr ms (codes "liveCategoryValue");
  title = json_str-IsCStr ms (codes "liveTitle");
}

read_lives-IsLive : (xs : Items) → All IsLive (read_lives xs)
unfolding read_lives
read_lives-IsLive nil = tt
read_lives-IsLive (cons (obj ms) xs) =
    push_live-IsLive (read_live ms) (read_lives xs) (read_live-IsLive ms) (read_lives-IsLive xs)
read_lives-IsLive (cons _ xs) = read_lives-IsLive xs

-- What is said of a fetch: of the value it returns, and that its fuel lasts; it may also come to the
-- access that the code does not check.
pub data Returns {ℓ} {A : Type ℓ} (P : A → Type 0) : Fetched A → Type ℓ where
  value : {a : A} → P a → Returns P (ok a)
  fault : {e : FetchError} → e ≢ out_of_fuel → e ≢ undefined_content → Returns P (err e)
  unchecked : Returns P (err undefined_content)

PageIsLive : Page → Type 0
PageIsLive p = All IsLive p.lives

data_lives-IsLive : (o : Option Json) → All IsLive (data_lives o)
data_lives-IsLive (some (arr xs)) = read_lives-IsLive xs
data_lives-IsLive _ = tt

content-Returns : (o : Option Json) → Returns PageIsLive (read_content o)
unfolding PageIsLive
content-Returns (some (obj ms)) = value (data_lives-IsLive (find_member (codes "data") ms))
content-Returns _ = unchecked

doc-Returns : (status : ℤ) (o : Option Json) → Returns PageIsLive (read_doc status o)
doc-Returns status (some (obj ms)) =
    if-elim (Returns PageIsLive) _ _ _ (λ _. fault (λ e. cc) (λ e. cc))
      (λ _. content-Returns (find_member (codes "content") ms))
doc-Returns status _ = fault (λ e. cc) (λ e. cc)

answer-Returns : (web : Web) (a : Option (ℤ × Bytes)) → Returns PageIsLive (read_answer web a)
unfolding read_answer
answer-Returns web none = fault (λ e. cc) (λ e. cc)
answer-Returns web (some (status, body)) = doc-Returns status (web.parse (c_str body))

is_empty-false : (ls : List Live) (c : Bytes) → (is_empty ls || is_empty c) ≡ false → 0 < length ls
is_empty-false [] c e = cc
is_empty-false (l ∷ ls) c e = omega arith

after_answer-Returns :
    (lives : List Live) (rest : Page → Fetched (List Live)) {r : Fetched Page}
    → All IsLive lives
    → ((p : Page) → All IsLive p.lives → 0 < length p.lives → Returns (All IsLive) (rest p))
    → Returns PageIsLive r
    → Returns (All IsLive) (after_answer lives rest r)
unfolding PageIsLive
after_answer-Returns lives rest v k (fault h n) = fault h n
after_answer-Returns lives rest v k unchecked = unchecked
after_answer-Returns lives rest v k (value {a = p} h) =
    elim (Bool-cases (is_empty p.lives || is_empty p.next)) [
      | inl e ↦ rw (e, after_answer) (value (All-append IsLive lives p.lives v h))
      | inr e ↦ rw (e, after_answer) (k p h (is_empty-false p.lives p.next e))
    ]

-- Each round but the last brings a live: one round for each live wanted, and one more, suffice.
loop-Returns :
    (fuel : ℕ) (web : Web) (n i : ℕ) (lives : List Live) (next : Bytes)
    → 0 < fuel
    → n < fuel + length lives
    → All IsLive lives
    → Returns (All IsLive) (fetch_loop fuel web n i lives next)
unfolding fetch_loop
loop-Returns zero web n i lives next f h v = absurd (omega arith)
loop-Returns (suc fuel) web n i lives next f h v = elim (Bool-cases (ltb (length lives) n)) [
  | inl e ↦
      rw (e, fetch_loop)
        (after_answer-Returns lives _ v
          (λ p hp pos.
            loop-Returns fuel web n (suc i) (lives ++ p.lives) p.next (ground arith)
              (omega (arith, length-append lives p.lives)) (All-append IsLive lives p.lives v hp))
          (answer-Returns web _))
  | inr e ↦ rw (e, fetch_loop) (value v)
]

take-All : (n : ℕ) (ls : List Live) → All IsLive ls → All IsLive (take n ls)
take-All zero ls h = tt
take-All (suc n) [] h = tt
take-All (suc n) (l ∷ ls) h = (h.0, take-All n ls h.1)

-- What a caller of `fetch_top_lives` gets.
abbrev pub AtMost : ℕ → List Live → Type 0
AtMost n ls = (length ls ≤ n) × All IsLive ls

resized-Returns :
    (n : ℕ) {r : Fetched (List Live)} → Returns (All IsLive) r → Returns (AtMost n) (resized n r)
resized-Returns n (fault h k) = fault h k
resized-Returns n unchecked = unchecked
resized-Returns n (value {a = ls} h) = value (omega (arith, length-take n ls), take-All n ls h)

-- Whatever the API answers, the loop over its pages ends: the fetch returns at most `top_n` lives,
-- each with a channel id and with four texts free of NUL; or it throws; or it stops at an answer
-- whose `content` is missing or no object, for which the code is undefined in a release build.
pub fetch_top_lives-Returns : (web : Web) (n : ℕ) → Returns (AtMost n) (fetch_top_lives web (pos n))
unfolding fetch_top_lives
fetch_top_lives-Returns web n =
    resized-Returns n (loop-Returns (suc n) web n 0 [] [] (omega arith) (omega arith) tt)
