-- ===== src/Dialog/Rows/Shown.antt =====
-- What the list of channels shows behind `fill_channels`.
use stream_monitor.Prelude.{
  ℕ, zero, suc, ◌+◌, ◌-◌, ◌≤◌, ◌≡◌, ◌≢◌, refl, sym, ap, ◌∙◌, inl, inr, Bool, true, false,
  Bool-cases, List, [], ◌∷◌, ◌++◌, ltb, leb, arith, length, length-append, length-map, map,
  append-nil, All, All-append, if-elim, if◌then◌else◌,
}
use stream_monitor.Prelude.Int.{pos}
use stream_monitor.Json.{bytes_eq_iff}
use stream_monitor.Client.{Wide, Listed}
use stream_monitor.Dialog.{is_live}
use stream_monitor.Dialog.Rows.{
  current_column, peak_column, seen_column, Item, mark, fresh, ListControl, Laws, Formats,
  seen_text, icon_of, is_kept, trim, put_row, put_texts, show_row, show_rows, fill_rows,
}

-- The row of a channel.
abbrev pub item_of : Formats → Wide → ℕ → Listed → Item
item_of f keep_selected now c =
    let live = is_live now c in
    record {
      name = c.name;
      icon = icon_of live;
      current = f.decimal (if live then c.current else pos 0);
      peak = f.decimal c.peak;
      seen = seen_text f live c.last_seen;
      selected = is_kept keep_selected c;
    }

abbrev pub AreDistinct : List Listed → Type 0
AreDistinct [] = Unit
AreDistinct (c ∷ cs) = All (λ (e : Listed). e.id ≢ c.id) cs × AreDistinct cs

abbrev NotKept : Wide → Listed → Type 0
NotKept keep_selected c = is_kept keep_selected c ≡ false

-- A kept channel of `cs` is the first one that is kept.
abbrev Follows : Wide → List Listed → List Listed → Type 0
Follows keep_selected before [] = Unit
Follows keep_selected before (c ∷ cs) =
    (is_kept keep_selected c ≡ true → All (NotKept keep_selected) before)
    × Follows keep_selected (before ++ (c ∷ [])) cs

is_kept-id :
    (keep_selected : Wide) (c : Listed) → is_kept keep_selected c ≡ true → c.id ≡ keep_selected
unfolding is_kept
is_kept-id keep_selected c h = (bytes_eq_iff c.id keep_selected).0 (ground arith)

not_kept :
    (keep_selected : Wide) (c e : Listed)
    → e.id ≢ c.id
    → is_kept keep_selected c ≡ true
    → NotKept keep_selected e
not_kept keep_selected c e ne h = elim (Bool-cases (is_kept keep_selected e)) [
  | inl k ↦ absurd (ne (is_kept-id keep_selected e k ∙ sym (is_kept-id keep_selected c h)))
  | inr k ↦ k
]

abbrev Differs : List Listed → Listed → Type 0
Differs before c = All (λ (e : Listed). e.id ≢ c.id) before

Differs-NotKept :
    (keep_selected : Wide) (c : Listed) (before : List Listed)
    → Differs before c
    → is_kept keep_selected c ≡ true
    → All (NotKept keep_selected) before
Differs-NotKept keep_selected c [] d h = tt
Differs-NotKept keep_selected c (e ∷ es) d h =
    (not_kept keep_selected c e d.0 h, Differs-NotKept keep_selected c es d.1 h)

append-Differs :
    (c : Listed) (before cs : List Listed)
    → All (λ (e : Listed). e.id ≢ c.id) cs
    → All (Differs before) cs
    → All (Differs (before ++ (c ∷ []))) cs
append-Differs c before [] n d = tt
append-Differs c before (e ∷ es) n d = (
  All-append (λ (x : Listed). x.id ≢ e.id) before (c ∷ []) d.0 (λ p. n.0 (sym p), tt),
  append-Differs c before es n.1 d.1,
)

distinct-Follows :
    (keep_selected : Wide) (before cs : List Listed)
    → All (Differs before) cs
    → AreDistinct cs
    → Follows keep_selected before cs
distinct-Follows keep_selected before [] d n = tt
distinct-Follows keep_selected before (c ∷ cs) d n = (
  Differs-NotKept keep_selected c before d.0,
  distinct-Follows keep_selected (before ++ (c ∷ [])) cs (append-Differs c before cs n.0 d.1) n.1,
)

nothing_before : (cs : List Listed) → All (Differs []) cs
nothing_before [] = tt
nothing_before (c ∷ cs) = (tt, nothing_before cs)

mark_same : (x : Item) → x.selected ≡ false → mark false x ≡ x
mark_same x h = λ i. record x { selected = sym h i }

unmark_same :
    (xs : List Item) → All (λ (x : Item). x.selected ≡ false) xs → map (mark false) xs ≡ xs
unmark_same [] h = refl
unmark_same (x ∷ xs) h = λ i. mark_same x h.0 i ∷ unmark_same xs h.1 i

last_of : (x : Item) (xs : List Item) → (ys : List Item) × (y : Item) × (x ∷ xs ≡ ys ++ (y ∷ []))
last_of x [] = ([], x, refl)
last_of x (z ∷ zs) = let (ys, y, e) = last_of z zs in (x ∷ ys, y, ap (λ t. x ∷ t) e)

module _ {L : Type 0} (k : ListControl L) (items : L → List Item) (laws : Laws k items)
    (f : Formats) where
  -- ── the rows beyond the last ──
  deleted :
      (l : L) (x : Item) (xs : List Item)
      → items l ≡ x ∷ xs
      → length (items (k.delete_item (k.count l - 1) l)) ≡ length xs
  deleted l x xs e =
      let (ys, y, p) = last_of x xs in
      let q : items l ≡ ys ++ (y ∷ []) = e ∙ p in
      let m : length xs + 1 ≡ length ys + 1 =
        omega (arith, ap length p, length-append ys (y ∷ [])) in
      let n : k.count l - 1 ≡ length ys =
        omega (arith, laws.count_lem l, ap length q, length-append ys (y ∷ [])) in
      rw (n, laws.delete_last l ys y q) (omega (arith, m))

  trim-length :
      (fuel n : ℕ) (l : L) (xs : List Item)
      → items l ≡ xs
      → length xs ≤ fuel
      → length (items (trim k f fuel n l)) ≤ n
  unfolding trim
  trim-length zero n l xs e h = omega (arith, ap length e)
  trim-length (suc fuel) n l [] e h =
      if-elim (λ r. length (items r) ≤ n) (ltb n (k.count l)) _ l
        (λ t. ground (arith, laws.count_lem l, ap length e)) (λ _. omega (arith, ap length e))
  trim-length (suc fuel) n l (x ∷ xs) e h =
      if-elim (λ r. length (items r) ≤ n) (ltb n (k.count l)) _ l
        (λ _.
          trim-length fuel n (k.delete_item (k.count l - 1) l) _ refl
            (omega (arith, deleted l x xs e)))
        (λ t. ground (arith, laws.count_lem l))

  -- ── one row ──
  put_row-items :
      (l : L) (xs ys : List Item) (name : Wide) (icon : ℕ)
      → items l ≡ xs ++ ys
      → (x : Item) × (rest : List Item) × (items (put_row k f (length xs) name icon l)
          ≡ xs ++ (x ∷ rest))
        × (x.name ≡ name)
        × (x.icon ≡ icon)
        × (length rest ≡ length ys - 1)
  unfolding put_row
  put_row-items l xs [] name icon e =
      let q : items l ≡ xs = e ∙ append-nil xs in
      let n : leb (k.count l) (length xs) ≡ true = ground (arith, laws.count_lem l, ap length q) in
      let m : length xs ≡ length (items l) = ap length (sym q) in
      (
        fresh name icon,
        [],
        rw (put_row, n, m) (laws.insert_last l name icon ∙ ap (λ t. t ++ (fresh name icon ∷ [])) q),
        refl,
        refl,
        refl,
      )
  put_row-items l xs (y ∷ ys) name icon e =
      let n : leb (k.count l) (length xs) ≡ false =
        ground (arith, laws.count_lem l, ap length e, length-append xs (y ∷ ys)) in
      (
        record y { name = name; icon = icon },
        ys,
        rw (put_row, n) (laws.set_item_lem l xs y ys name icon e),
        refl,
        refl,
        omega arith,
      )

  put_texts-items :
      (l : L) (xs : List Item) (x : Item) (ys : List Item) (cur peak seen : Wide)
      → items l ≡ xs ++ (x ∷ ys)
      → items (put_texts k f (length xs) cur peak seen l)
        ≡ xs ++ (record x { current = cur; peak = peak; seen = seen } ∷ ys)
  unfolding put_texts
  put_texts-items l xs x ys cur peak seen e = laws.set_item_text_lem _ xs _ ys seen_column seen (
      laws.set_item_text_lem _ xs _ ys peak_column peak
        (laws.set_item_text_lem l xs x ys current_column cur e))

  set_state-items :
      (l : L) (xs : List Item) (x : Item) (ys : List Item) (b : Bool)
      → items l ≡ xs ++ (x ∷ ys)
      → (b ≡ true → All (λ (z : Item). z.selected ≡ false) xs)
      → (rest : List Item) × (items (k.set_item_state (length xs) b l) ≡ xs ++ (mark b x ∷ rest))
        × (length rest ≡ length ys)
  set_state-items l xs x ys true e h = (
    map (mark false) ys,
    laws.select_lem l xs x ys e
        ∙ ap (λ t. t ++ (mark true x ∷ map (mark false) ys)) (unmark_same xs (h refl)),
    length-map ys (mark false),
  )
  set_state-items l xs x ys false e h = (ys, laws.unselect_lem l xs x ys e, refl)

  show_row-items :
      (keep_selected : Wide) (now : ℕ) (c : Listed) (l : L) (xs ys : List Item)
      → items l ≡ xs ++ ys
      → (is_kept keep_selected c ≡ true → All (λ (z : Item). z.selected ≡ false) xs)
      → (rest : List Item) × (items (show_row k f keep_selected now (length xs) c l)
          ≡ xs ++ (item_of f keep_selected now c ∷ rest))
        × (length rest ≡ length ys - 1)
  unfolding show_row
  show_row-items keep_selected now c l xs ys e h =
      let live = is_live now c in
      let cur = f.decimal (if live then c.current else pos 0) in
      let seen = seen_text f live c.last_seen in
      let (x, r1, e1, named, with_icon, n1) = put_row-items l xs ys c.name (icon_of live) e in
      let e2 = put_texts-items _ xs x r1 cur (f.decimal c.peak) seen e1 in
      let (r2, e3, n2) = set_state-items _ xs _ r1 (is_kept keep_selected c) e2 h in
      (
        r2,
        e3 ∙ (λ i.
            xs
            ++ (record {
              name = named i;
              icon = with_icon i;
              current = cur;
              peak = f.decimal c.peak;
              seen = seen;
              selected = is_kept keep_selected c;
            }
                ∷ r2)),
        n2 ∙ n1,
      )

  map-NotKept :
      (keep_selected : Wide) (now : ℕ) (before : List Listed)
      → All (NotKept keep_selected) before
      → All (λ (z : Item). z.selected ≡ false) (map (item_of f keep_selected now) before)
  map-NotKept keep_selected now [] h = tt
  map-NotKept keep_selected now (c ∷ cs) h = (h.0, map-NotKept keep_selected now cs h.1)

  map-snoc :
      (g : Listed → Item) (before : List Listed) (c : Listed) (cs : List Item)
      → map g (before ++ (c ∷ [])) ++ cs ≡ map g before ++ (g c ∷ cs)
  map-snoc g [] c cs = refl
  map-snoc g (e ∷ es) c cs = ap (λ t. g e ∷ t) (map-snoc g es c cs)

  show_rows-items :
      (keep_selected : Wide) (now i : ℕ) (before cs : List Listed) (l : L) (ys : List Item)
      → i ≡ length before
      → items l ≡ map (item_of f keep_selected now) before ++ ys
      → Follows keep_selected before cs
      → length ys ≤ length cs
      → items (show_rows k f keep_selected now i cs l)
        ≡ map (item_of f keep_selected now) before ++ map (item_of f keep_selected now) cs
  unfolding show_rows
  show_rows-items keep_selected now i before [] l [] n e h m = e
  show_rows-items keep_selected now i before [] l (y ∷ ys) n e h m = elim m [ ]
  show_rows-items keep_selected now i before (c ∷ cs) l ys n e h m =
      let g = item_of f keep_selected now in
      let j : i ≡ length (map g before) = n ∙ sym (length-map before g) in
      let (rest, e', m') =
        show_row-items keep_selected now c l (map g before) ys e
          (λ t. map-NotKept keep_selected now before (h.0 t)) in
      show_rows-items keep_selected now (suc i) (before ++ (c ∷ [])) cs
        (show_row k f keep_selected now i c l) rest
        (omega (arith, n, length-append before (c ∷ []))) (rw j e' ∙ sym (map-snoc g before c rest))
        h.1 (omega (arith, m'))
      ∙ map-snoc g before c (map g cs)

  -- Where the ids of the view are distinct: whatever the control showed, behind `fill_channels` it
  -- shows a row for each channel of the view in its order, with its texts and icon, selected where
  -- the channel is the one to keep, and no other row.
  pub fill_rows-items :
      (keep_selected : Wide) (now : ℕ) (view : List Listed) (l : L)
      → AreDistinct view
      → items (fill_rows k f keep_selected now view l) ≡ map (item_of f keep_selected now) view
  unfolding fill_rows
  fill_rows-items keep_selected now view l h =
      show_rows-items keep_selected now 0 [] view (trim k f (k.count l) (length view) l) _ refl refl
        (distinct-Follows keep_selected [] view (nothing_before view) h)
        (trim-length (k.count l) (length view) l _ refl (omega (arith, laws.count_lem l)))
