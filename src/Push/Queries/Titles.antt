-- ===== src/Push/Queries/Titles.antt =====
-- The info rows of a samples reply, and the title in force at a time.
use stream_monitor.Prelude.{
  ◌≡◌, refl, ap, ◌∙◌, inl, inr, true, false, Bool-cases, List, [], ◌∷◌, ◌++◌, Option, none, some,
  arith, leb,
}
use stream_monitor.Prelude.Int.{ℤ, pos, ◌≤ℤ◌, ltb_ℤ, leb_ℤ}
use stream_monitor.Framing.{Bytes}
use stream_monitor.Json.{bytes_eq}
use stream_monitor.Db.{Info, later, info_at}
use stream_monitor.Push.Queries.{between, option_list, place_info, sort_infos, info_rows}

-- The row in force among two rows and those behind.
later-swap :
    (r s : Info) (o : Option Info)
    → leb r.ts s.ts ≡ false
    → some (later s (some (later r o))) ≡ some (later r (some (later s o)))
later-swap r s none h = ground arith
later-swap r s (some u) h = ground arith

info_at-swap :
    (ch : Bytes) (t : ℤ) (r s : Info) (ss : List Info)
    → leb r.ts s.ts ≡ false
    → info_at ch t (s ∷ r ∷ ss) ≡ info_at ch t (r ∷ s ∷ ss)
unfolding info_at
info_at-swap ch t r s ss h = ground (arith, later-swap r s (info_at ch t ss) h)

info_at-cons :
    (ch : Bytes) (t : ℤ) (s : Info) (a b : List Info)
    → info_at ch t a ≡ info_at ch t b
    → info_at ch t (s ∷ a) ≡ info_at ch t (s ∷ b)
unfolding info_at
info_at-cons ch t s a b h = rw h

info_at-place :
    (ch : Bytes) (t : ℤ) (r : Info) (ss : List Info)
    → info_at ch t (place_info r ss) ≡ info_at ch t (r ∷ ss)
unfolding place_info
info_at-place ch t r [] = refl
info_at-place ch t r (s ∷ ss) = elim (Bool-cases (leb r.ts s.ts)) [
  | inl e ↦ rw e
  | inr e ↦ rw e (info_at-cons ch t s _ _ (info_at-place ch t r ss) ∙ info_at-swap ch t r s ss e)
]

info_at-sort :
    (ch : Bytes) (t : ℤ) (ss : List Info) → info_at ch t (sort_infos ss) ≡ info_at ch t ss
unfolding sort_infos
info_at-sort ch t [] = refl
info_at-sort ch t (s ∷ ss) =
    info_at-place ch t s (sort_infos ss) ∙ info_at-cons ch t s _ _ (info_at-sort ch t ss)

-- The row in force at `t`, from the one at `from` and from the later ones.
abbrev joined : Option Info → Option Info → Option Info
joined none p = p
joined (some r) p = some (later r p)

abbrev IsOld : Bytes → ℤ → Option Info → Type 0
IsOld ch from none = Unit
IsOld ch from (some r) = (bytes_eq r.channel_id ch ≡ true) × (pos r.ts ≤ℤ from)

abbrev IsNew : ℤ → Option Info → Type 0
IsNew from none = Unit
IsNew from (some r) = ltb_ℤ from (pos r.ts) ≡ true

later-IsOld :
    (ch : Bytes) (from : ℤ) (s : Info) (o : Option Info)
    → bytes_eq s.channel_id ch ≡ true
    → pos s.ts ≤ℤ from
    → IsOld ch from o
    → IsOld ch from (some (later s o))
later-IsOld ch from s none c h k = (c, h)
later-IsOld ch from s (some r) c h k = ground arith

info_at-IsOld : (ch : Bytes) (from : ℤ) (ss : List Info) → IsOld ch from (info_at ch from ss)
unfolding info_at
info_at-IsOld ch from [] = tt
info_at-IsOld ch from (s ∷ ss) =
    ground (arith, later-IsOld ch from s (info_at ch from ss), info_at-IsOld ch from ss)

later-IsNew :
    (from : ℤ) (s : Info) (o : Option Info)
    → ltb_ℤ from (pos s.ts) ≡ true
    → IsNew from o
    → IsNew from (some (later s o))
later-IsNew from s none h k = h
later-IsNew from s (some r) h k = ground arith

info_at-between-IsNew :
    (ch : Bytes) (from to t : ℤ) (ss : List Info)
    → IsNew from (info_at ch t (between ch from to ss))
unfolding info_at between
info_at-between-IsNew ch from to t [] = tt
info_at-between-IsNew ch from to t (s ∷ ss) = ground (
  arith,
  later-IsNew from s (info_at ch t (between ch from to ss)),
  info_at-between-IsNew ch from to t ss,
)

-- A row up to `from` joins on the left, a later one on the right.
joined-old :
    (from : ℤ) (s : Info) (o p : Option Info)
    → pos s.ts ≤ℤ from
    → IsNew from p
    → joined (some (later s o)) p ≡ some (later s (joined o p))
joined-old from s none none h n = refl
joined-old from s none (some q) h n = refl
joined-old from s (some r) none h n = ground arith
joined-old from s (some r) (some q) h n = ground arith

joined-new :
    (ch : Bytes) (from : ℤ) (s : Info) (o p : Option Info)
    → ltb_ℤ from (pos s.ts) ≡ true
    → IsOld ch from o
    → joined o (some (later s p)) ≡ some (later s (joined o p))
joined-new ch from s none p h n = refl
joined-new ch from s (some r) none h n = ground arith
joined-new ch from s (some r) (some q) h n = ground arith

joined-between :
    (ch : Bytes) (from to t : ℤ) (ss : List Info)
    → from ≤ℤ t
    → t ≤ℤ to
    → joined (info_at ch from ss) (info_at ch t (between ch from to ss)) ≡ info_at ch t ss
unfolding info_at between
joined-between ch from to t [] h k = refl
joined-between ch from to t (s ∷ ss) h k =
    let ih = joined-between ch from to t ss h k in
    elim (Bool-cases (bytes_eq s.channel_id ch)) [
      | inr c ↦ rw (info_at, between, c) ih
      | inl c ↦ elim (Bool-cases (leb_ℤ (pos s.ts) from)) [
        | inl a ↦
            let t' : leb_ℤ (pos s.ts) t ≡ true = ground arith in
            let f' : ltb_ℤ from (pos s.ts) ≡ false = ground arith in
            rw (info_at, between, c, a, t', f')
              (joined-old from s _ _ (ground arith) (info_at-between-IsNew ch from to t ss)
                ∙ ap (λ o. some (later s o)) ih)
        | inr a ↦
            let f' : ltb_ℤ from (pos s.ts) ≡ true = ground arith in
            elim (Bool-cases (leb_ℤ (pos s.ts) t)) [
              | inl b ↦
                  let e' : leb_ℤ (pos s.ts) to ≡ true = ground arith in
                  rw (info_at, between, c, a, b, f', e', c, b)
                    (joined-new ch from s _ _ f' (info_at-IsOld ch from ss)
                      ∙ ap (λ o. some (later s o)) ih)
              | inr b ↦ elim (Bool-cases (leb_ℤ (pos s.ts) to)) [
                | inl e ↦ rw (info_at, between, c, a, b, f', e, c, b) ih
                | inr e ↦ rw (info_at, between, c, a, b, f', e) ih
              ]
            ]
      ]
    ]

info_at-append :
    (ch : Bytes) (from t : ℤ) (o : Option Info) (ss : List Info)
    → IsOld ch from o
    → from ≤ℤ t
    → info_at ch t (option_list o ++ ss) ≡ joined o (info_at ch t ss)
unfolding info_at
info_at-append ch from t none ss h k = refl
info_at-append ch from t (some r) ss h k = ground arith

-- At every time of the window, the row in force among the rows that are sent is the one in force
-- in the table.
pub info_at-info_rows :
    (t : List Info) (ch : Bytes) (from to ts : ℤ)
    → from ≤ℤ ts
    → ts ≤ℤ to
    → info_at ch ts (info_rows ch from to t) ≡ info_at ch ts t
unfolding info_rows
info_at-info_rows t ch from to ts h k =
    info_at-sort ch ts _
    ∙ info_at-append ch from ts (info_at ch from t) _ (info_at-IsOld ch from t) h
    ∙ joined-between ch from to ts t h k
