-- ===== src/Handles/Released.antt =====
-- The objects give back what they took, whatever the libraries return and however the body ends.
use stream_monitor.Prelude.{
  ℕ, ◌≡◌, refl, sym, ap, ◌∙◌, Bool, true, false, List, [], ◌∷◌, Option, none, some, arith,
  if◌then◌else◌,
}
use stream_monitor.Handles.{
  Held, M, finalize, without, finalize_as, scoped, Opened, db_open, opened_as, db_close, close_with,
  close_connection, after_open, with_db, with_statements, checked, with_http, easy_cleanup,
  is_prepared, is_there,
}

without_self : (st : ℕ) (xs : List ℕ) → without st (st ∷ xs) ≡ some xs
without_self st xs = ground arith

close_opened :
    (h : Option ℕ) (r : Held) → r.db ≡ none → r.statements ≡ [] → db_close (record r { db = h }) ≡ r
unfolding db_close
close_opened none r d e = λ i. record r { db = sym d i }
close_opened (some h) r d e =
    ap (λ sts. close_connection sts (record r { db = some h })) e ∙ (λ i. record r { db = sym d i })

close_closed : (r : Held) → r.db ≡ none → db_close r ≡ r
unfolding db_close
close_closed r d = ap (λ o. close_with o r) d

finalize_self : (st : ℕ) (r : Held) → finalize st (record r { statements = st ∷ r.statements }) ≡ r
unfolding finalize
finalize_self st r =
    ap (λ o. finalize_as o (record r { statements = st ∷ r.statements }))
      (without_self st r.statements)

easy_given_back :
    (h : ℕ) (r : Held)
    → r.curl ≡ true
    → r.easy ≡ none
    → easy_cleanup r.curl (some h) (record r { easy = some h }) ≡ r
easy_given_back h r c e =
    ap (λ c'. easy_cleanup c' (some h) (record r { easy = some h })) c
    ∙ (λ i. record r { easy = sym e i })

module _ {S : Type 0} where
  -- The handles are behind a body what they were before it, where it ends in a way that `Q` allows.
  abbrev pub IsBalanced : (Option (Unit {0}) → Type 0) → S → M S → Held → Type 0
  IsBalanced Q s m r = Q (m (r, s)).1 → (m (r, s)).0.0 ≡ r

  abbrev pub EndsWith : S → M S → Option (Unit {0}) → Type 0
  EndsWith s m a = (r : Held) → (m (r, s)).1 ≡ a

module _ {S : Type 0} (Q : Option (Unit {0}) → Type 0) (m : M S) (s : S) where
  pub with_statements-IsBalanced :
      (ps : List (Option ℕ)) (r : Held)
      → ((r' : Held) → IsBalanced Q s m r')
      → IsBalanced Q s (with_statements ps m) r
  unfolding with_statements scoped
  with_statements-IsBalanced [] r b q = b r q
  with_statements-IsBalanced (none ∷ ps) r b q = refl
  with_statements-IsBalanced (some st ∷ ps) r b q =
      ap (finalize st)
        (with_statements-IsBalanced ps (record r { statements = st ∷ r.statements }) b q)
      ∙ finalize_self st r

  pub checked-IsBalanced :
      (ok : Bool) (r : Held) → IsBalanced Q s m r → IsBalanced Q s (checked ok m) r
  unfolding checked
  checked-IsBalanced true r b q = b q
  checked-IsBalanced false r b q = refl

  opened-IsBalanced :
      (ok : Bool) (h : Option ℕ) (r : Held)
      → r.db ≡ none
      → r.statements ≡ []
      → IsBalanced Q s m (record r { db = h })
      → let x = after_open m s (opened_as ok (record r { db = h })) in Q x.1 → x.0.0 ≡ r
  unfolding scoped
  opened-IsBalanced true h r d e b q = ap db_close (b q) ∙ close_opened h r d e
  opened-IsBalanced false h r d e b q = ap db_close (close_opened h r d e) ∙ close_closed r d

  pub with_db-IsBalanced :
      (o : Opened) (r : Held)
      → r.db ≡ none
      → r.statements ≡ []
      → ((h : Option ℕ) → IsBalanced Q s m (record r { db = h }))
      → IsBalanced Q s (with_db o m) r
  unfolding with_db db_open
  with_db-IsBalanced o r d e b = opened-IsBalanced o.is_ok o.handle r d e (b o.handle)

  pub with_http-IsBalanced :
      (h : Option ℕ) (r : Held)
      → r.curl ≡ true
      → r.easy ≡ none
      → ((k : Option ℕ) → IsBalanced Q s m (record r { easy = k }))
      → IsBalanced Q s (with_http h m) r
  unfolding with_http scoped
  with_http-IsBalanced none r c e b q = refl
  with_http-IsBalanced (some h) r c e b q =
      ap (λ x. easy_cleanup x.curl x.easy x) (b (some h) q) ∙ easy_given_back h r c e

module _ {S : Type 0} (m : M S) (s : S) where
  -- ── how a body ends ──
  pub with_statements-EndsWith :
      (ps : List (Option ℕ)) (a : Option (Unit {0}))
      → EndsWith s m a
      → EndsWith s (with_statements ps m) (if is_prepared ps then a else none)
  unfolding with_statements scoped
  with_statements-EndsWith [] a e r = e r
  with_statements-EndsWith (none ∷ ps) a e r = refl
  with_statements-EndsWith (some st ∷ ps) a e r = with_statements-EndsWith ps a e _

  pub checked-EndsWith :
      (ok : Bool) (a : Option (Unit {0}))
      → EndsWith s m a
      → EndsWith s (checked ok m) (if ok then a else none)
  unfolding checked
  checked-EndsWith true a e r = e r
  checked-EndsWith false a e r = refl

  opened-EndsWith :
      (ok : Bool) (r : Held) (a : Option (Unit {0}))
      → EndsWith s m a
      → (after_open m s (opened_as ok r)).1 ≡ (if ok then a else none)
  unfolding scoped
  opened-EndsWith true r a e = e r
  opened-EndsWith false r a e = refl

  pub with_db-EndsWith :
      (o : Opened) (a : Option (Unit {0}))
      → EndsWith s m a
      → EndsWith s (with_db o m) (if o.is_ok then a else none)
  unfolding with_db db_open
  with_db-EndsWith o a e r = opened-EndsWith o.is_ok (record r { db = o.handle }) a e

  pub with_http-EndsWith :
      (h : Option ℕ) (a : Option (Unit {0}))
      → EndsWith s m a
      → EndsWith s (with_http h m) (if is_there h then a else none)
  unfolding with_http scoped
  with_http-EndsWith none a e r = refl
  with_http-EndsWith (some h) a e r = e (record r { easy = some h })
