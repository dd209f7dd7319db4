-- ===== src/Push/Request/Window.antt =====
-- The window of a samples request: what reaches the query, and the range of the 64-bit arithmetic.
use mathlib.Core.Path.{subst}
use mathlib.Core.Option.{some-injective}
use stream_monitor.Prelude.{
  ℕ, zero, suc, ◌^◌, ◌≤◌, ◌<◌, Bool, true, false, ◌||◌, ◌≡◌, ◌≢◌, refl, inl, inr, ◌⊎◌, List, ◌∷◌,
  Option, none, some, arith, if◌then◌else◌,
}
use stream_monitor.Prelude.Int.{ℤ, pos, negsuc, pos_part, neg_part, ◌-ℤ◌, ◌≤ℤ◌, ltb_ℤ}
use stream_monitor.Framing.{Bytes}
use stream_monitor.Json.{
  Json, str, int, obj, Members, c_str, IsCStr, c_str-IsCStr, codes, json_str, find_member, bytes_eq,
}
use stream_monitor.Push.Conn.{Conn, max_range}
use stream_monitor.Push.Request.{
  Queries, Env, reply, positive_or, window_to, window_from, nonempty_string, channel_arg,
  handle_samples, handle_stats, handle_object, handle_doc, handle_line, request_id, type_member,
}

-- A `long long`.
abbrev pub IsInt64 : ℤ → Type 0
IsInt64 n = (pos_part n < 2 ^ 63) × (neg_part n ≤ 2 ^ 63)

-- rapidjson's `GetInt64` gives 64-bit values only.
abbrev pub IsRead : Option Json → Type 0
IsRead o = (n : ℤ) → o ≡ some (int n) → IsInt64 n

positive_or-cases :
    (def : ℤ) (o : Option Json)
    → IsRead o
    → (positive_or def o ≡ def) ⊎ ((n : ℕ) × (positive_or def o ≡ pos n) × (0 < n) × (n < 2 ^ 63))
positive_or-cases def (some (int (pos zero))) h = inl (ground arith)
positive_or-cases def (some (int (pos (suc n)))) h =
    inr (suc n, ground arith, omega arith, (h (pos (suc n)) refl).0)
positive_or-cases def (some (int (negsuc n))) h = inl (ground arith)
positive_or-cases def _ h = inl refl

abbrev pub IsWindow : ℤ → ℤ → Type 0
IsWindow to from =
    (pos 0 ≤ℤ to) × IsInt64 to × IsInt64 (to -ℤ pos 86400) × IsInt64 from × IsInt64 (to -ℤ from)

IsWindow-given : (t n : ℕ) → t < 2 ^ 63 → n < 2 ^ 63 → IsWindow (pos t) (pos n)
unfolding ◌-ℤ◌
IsWindow-given t n ht hn = ground arith

IsWindow-default : (t : ℕ) → t < 2 ^ 63 → IsWindow (pos t) (pos t -ℤ pos 86400)
unfolding ◌-ℤ◌
IsWindow-default t ht = ground arith

IsWindow-from :
    (t : ℕ) (o : Option Json)
    → t < 2 ^ 63
    → IsRead o
    → IsWindow (pos t) (positive_or (pos t -ℤ pos 86400) o)
IsWindow-from t o ht r = elim (positive_or-cases (pos t -ℤ pos 86400) o r) [
  | inl e ↦ rw e (IsWindow-default t ht)
  | inr (n, e, _, hn) ↦ rw e (IsWindow-given t n ht hn)
]

-- The window of any request is computed without overflow: `to`, `to - 86400`, `from` and
-- `to - from` are 64-bit integers, and `to` is not negative, where the clock and the integers of
-- the request are 64-bit ones.
pub window_to-IsWindow :
    (now : ℕ) (ms : Members)
    → now < 2 ^ 63
    → IsRead (find_member (codes "to") ms)
    → IsRead (find_member (codes "from") ms)
    → IsWindow (window_to now ms) (window_from now ms)
unfolding window_to window_from
window_to-IsWindow now ms h rt rf =
    elim (positive_or-cases (pos now) (find_member (codes "to") ms) rt) [
      | inl e ↦ rw e (IsWindow-from now (find_member (codes "from") ms) h rf)
      | inr (n, e, _, hn) ↦ rw e (IsWindow-from n (find_member (codes "from") ms) hn rf)
    ]

-- Queries that throw on no window of at most 30 days.
pub record IsLimited (q : Queries) : Type 0 where
  pub channels_ok : (now : ℕ) → q.channels now ≢ none
  pub stats_ok : q.stats ≢ none
  pub samples_ok :
      (ch : Bytes) (from to : ℤ)
      → IsCStr ch
      → from ≤ℤ to
      → to -ℤ from ≤ℤ pos max_range
      → q.samples ch from to ≢ none

if-ne-none :
    (b : Bool) (x y : Option Conn)
    → (b ≡ true → x ≢ none)
    → (b ≡ false → y ≢ none)
    → (if b then x else y) ≢ none
if-ne-none true x y hx hy = hx refl
if-ne-none false x y hx hy = hy refl

reply-ne-none :
    (write : Json → Bytes) (c : Conn) (head : List (Bytes × Json))
    (rows : Option (List (Bytes × Json))) (id : Option Bytes)
    → rows ≢ none
    → reply write c head rows id ≢ none
unfolding reply
reply-ne-none write c head none id h e = h refl
reply-ne-none write c head (some rows) id h e = cc

nonempty_string-IsCStr : (o : Option Json) (ch : Bytes) → nonempty_string o ≡ some ch → IsCStr ch
nonempty_string-IsCStr (some (str (c ∷ cs))) ch e =
    subst IsCStr (some-injective _ _ e) (c_str-IsCStr (c ∷ cs))
nonempty_string-IsCStr _ ch e = cc

samples-ne-none :
    (env : Env) (now : ℕ) (c : Conn) (id : Option Bytes) (ms : Members) (ch : Option Bytes)
    → IsLimited env.queries
    → channel_arg ms ≡ ch
    → handle_samples env now c id ms ≢ none
unfolding handle_samples channel_arg
samples-ne-none env now c id ms none q e = rw (e, handle_samples) (λ p. cc)
samples-ne-none env now c id ms (some ch) q e =
    let from = window_from now ms in
    let to = window_to now ms in
    rw (e, handle_samples)
      (if-ne-none (ltb_ℤ to from || ltb_ℤ (pos max_range) (to -ℤ from)) _ _ (λ _ p. cc)
        λ h. reply-ne-none env.write c (type_member (codes "samples")) _ id (
          q.samples_ok ch from to
            (nonempty_string-IsCStr (find_member (codes "channel_id") ms) ch e) (ground arith)
            (ground arith)))

object-ne-none :
    (env : Env) (now clients : ℕ) (c : Conn) (ms : Members)
    → IsLimited env.queries
    → handle_object env now clients c ms ≢ none
unfolding handle_object handle_stats
object-ne-none env now clients c ms q =
    let type = json_str ms (codes "type") in
    let id = request_id ms in
    if-ne-none (bytes_eq type (codes "hello")) _ _ (λ _ p. cc)
      λ _.
        if-ne-none (bytes_eq type (codes "channels")) _ _
          (λ _. reply-ne-none env.write c (type_member (codes "channels")) _ id (q.channels_ok now))
          λ _.
            if-ne-none (bytes_eq type (codes "samples")) _ _
              (λ _. samples-ne-none env now c id ms (channel_arg ms) q refl)
              λ _.
                if-ne-none (bytes_eq type (codes "stats")) _ _
                  (λ _. reply-ne-none env.write c _ _ id q.stats_ok) (λ _ p. cc)

doc-ne-none :
    (env : Env) (now clients : ℕ) (c : Conn) (doc : Option Json)
    → IsLimited env.queries
    → handle_doc env now clients c doc ≢ none
doc-ne-none env now clients c (some (obj ms)) q = object-ne-none env now clients c ms q
doc-ne-none env now clients c _ q = λ p. cc

-- Where the queries throw on no window of 0 to 30 days, no request line, however it is formed, makes
-- the handler throw.
pub handle_line-ne-none :
    (env : Env) (now clients : ℕ) (c : Conn) (line : Bytes)
    → IsLimited env.queries
    → handle_line env now clients c line ≢ none
unfolding handle_line
handle_line-ne-none env now clients c line q =
    doc-ne-none env now clients c (env.parse (c_str line)) q
