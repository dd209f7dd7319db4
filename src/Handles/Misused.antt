-- ===== src/Handles/Misused.antt =====
-- A forbidden call in a body stays noted behind the objects around it.
use stream_monitor.Prelude.{ℕ, ◌≡◌, refl, Bool, true, false, List, [], ◌∷◌, Option, none, some}
use stream_monitor.Handles.{
  Held, M, finalize, finalize_as, without, scoped, Opened, db_open, opened_as, db_close, close_with,
  close_connection, after_open, with_db, with_statements, checked, with_http, easy_cleanup,
}

abbrev IsNoted : Held → Type 0
IsNoted r = r.misused ≡ true

finalize_as-IsNoted : (o : Option (List ℕ)) (r : Held) → IsNoted r → IsNoted (finalize_as o r)
finalize_as-IsNoted none r h = refl
finalize_as-IsNoted (some sts) r h = h

finalize-IsNoted : (st : ℕ) (r : Held) → IsNoted r → IsNoted (finalize st r)
unfolding finalize
finalize-IsNoted st r h = finalize_as-IsNoted (without st r.statements) r h

close_connection-IsNoted : (sts : List ℕ) (r : Held) → IsNoted r → IsNoted (close_connection sts r)
close_connection-IsNoted [] r h = h
close_connection-IsNoted (st ∷ sts) r h = refl

close_with-IsNoted : (o : Option ℕ) (r : Held) → IsNoted r → IsNoted (close_with o r)
close_with-IsNoted none r h = h
close_with-IsNoted (some k) r h = close_connection-IsNoted r.statements r h

db_close-IsNoted : (r : Held) → IsNoted r → IsNoted (db_close r)
unfolding db_close
db_close-IsNoted r h = close_with-IsNoted r.db r h

easy_cleanup-IsNoted :
    (c : Bool) (o : Option ℕ) (r : Held) → IsNoted r → IsNoted (easy_cleanup c o r)
easy_cleanup-IsNoted true none r h = refl
easy_cleanup-IsNoted true (some k) r h = h
easy_cleanup-IsNoted false o r h = refl

-- Where a body returns, from `r` on.
module _ {S : Type 0} where
  abbrev pub Misuses : S → M S → Held → Type 0
  Misuses s m r = (m (r, s)).1 ≡ some tt → IsNoted (m (r, s)).0.0

module _ {S : Type 0} (m : M S) (s : S) where
  pub with_statements-Misuses :
      (ps : List (Option ℕ)) (r : Held)
      → ((r' : Held) → r'.easy ≡ r.easy → Misuses s m r')
      → Misuses s (with_statements ps m) r
  unfolding with_statements scoped
  with_statements-Misuses [] r b e = b r refl e
  with_statements-Misuses (none ∷ ps) r b e = cc
  with_statements-Misuses (some st ∷ ps) r b e =
      finalize-IsNoted st _
        (with_statements-Misuses ps (record r { statements = st ∷ r.statements }) b e)

  pub checked-Misuses : (ok : Bool) (r : Held) → Misuses s m r → Misuses s (checked ok m) r
  unfolding checked
  checked-Misuses true r b e = b e
  checked-Misuses false r b e = cc

  opened-Misuses :
      (ok : Bool) (r : Held)
      → Misuses s m r
      → let x = after_open m s (opened_as ok r) in x.1 ≡ some tt → IsNoted x.0.0
  unfolding scoped
  opened-Misuses true r b e = db_close-IsNoted _ (b e)
  opened-Misuses false r b e = cc

  pub with_db-Misuses :
      (o : Opened) (r : Held)
      → ((h : Option ℕ) → Misuses s m (record r { db = h }))
      → Misuses s (with_db o m) r
  unfolding with_db db_open
  with_db-Misuses o r b = opened-Misuses o.is_ok (record r { db = o.handle }) (b o.handle)

  pub with_http-Misuses :
      (h : Option ℕ) (r : Held)
      → ((k : ℕ) → Misuses s m (record r { easy = some k }))
      → Misuses s (with_http h m) r
  unfolding with_http scoped
  with_http-Misuses none r b e = cc
  with_http-Misuses (some k) r b e = easy_cleanup-IsNoted _ _ _ (b k e)
