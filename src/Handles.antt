-- ===== src/Handles.antt =====
-- src/cpp/common/db.h and class Http of src/cpp/collector/main.cpp: the handles of SQLite and libcurl
-- that a process holds, and the objects that own them. What the libraries return are arguments. A
-- call that their documentation forbids is noted in `misused`: to close a connection before its
-- statements, to give back what is not held, and to leave libcurl before its handle.
pub mod Released
pub mod Misused
use stream_monitor.Prelude.{
  ℕ, Bool, true, false, ◌&&◌, List, [], ◌∷◌, Option, none, some, ◌==◌, if◌then◌else◌,
}

pub record Held : Type 0 where
  pub db : Option ℕ
  pub statements : List ℕ
  pub curl : Bool
  pub easy : Option ℕ
  pub misused : Bool

abbrev pub nothing_held : Held
nothing_held = record { db = none; statements = []; curl = false; easy = none; misused = false }

abbrev pub misuse : Held → Held
misuse r = record r { misused = true }

-- ── the calls of the libraries ──
abbrev pub close_connection : List ℕ → Held → Held
close_connection [] r = record r { db = none }
close_connection (st ∷ sts) r = misuse r

-- Without the statement, `none` where it is not prepared.
abbrev pub without : ℕ → List ℕ → Option (List ℕ)
without st [] = none
without st (x ∷ xs) =
    if x == st then some xs else elim (without st xs) [ none ↦ none | some ys ↦ some (x ∷ ys) ]

abbrev pub finalize_as : Option (List ℕ) → Held → Held
finalize_as none r = misuse r
finalize_as (some sts) r = record r { statements = sts }

unfoldable pub finalize : ℕ → Held → Held
finalize st r = finalize_as (without st r.statements) r

abbrev pub easy_cleanup : Bool → Option ℕ → Held → Held
easy_cleanup true (some h) r = record r { easy = none }
easy_cleanup true none r = misuse r
easy_cleanup false h r = misuse r

abbrev pub global_cleanup_with : Option ℕ → Held → Held
global_cleanup_with none r = record r { curl = false }
global_cleanup_with (some h) r = misuse (record r { curl = false })

-- curl_global_init and curl_global_cleanup.
unfoldable pub global_init : Held → Held
global_init r = record r { curl = true }

unfoldable pub global_cleanup : Held → Held
global_cleanup r = global_cleanup_with r.easy r

-- ── what a function does to the handles and to the rest `S` of the state; `none` where it throws ──
abbrev pub M : Type 0 → Type 0
M S = Held × S → (Held × S) × Option (Unit {0})

module _ {S : Type 0} where
  abbrev pub on_held : (Held → Held) → Held × S → Held × S
  on_held f (r, s) = (f r, s)

  -- A body, then the destructor of an object, also where the body throws.
  unfoldable pub scoped : (Held → Held) → M S → M S
  scoped destroy m x = let (x', a) = m x in (on_held destroy x', a)

-- ── class Db ──
abbrev pub close_with : Option ℕ → Held → Held
close_with none r = r
close_with (some h) r = close_connection r.statements r

-- `db_` is null or what sqlite3_open_v2 left there.
unfoldable pub db_close : Held → Held
db_close r = close_with r.db r

-- The result of sqlite3_open_v2, and the handle, which may be there where the opening failed.
pub record Opened : Type 0 where
  pub is_ok : Bool
  pub handle : Option ℕ

abbrev pub opened_as : Bool → Held → Held × Option (Unit {0})
opened_as true r = (r, some tt)
opened_as false r = (db_close r, none)

unfoldable pub db_open : Opened → Held → Held × Option (Unit {0})
db_open o r = opened_as o.is_ok (record r { db = o.handle })

module _ {S : Type 0} where
  abbrev pub after_open : M S → S → Held × Option (Unit {0}) → (Held × S) × Option (Unit {0})
  after_open m s (r, none) = ((db_close r, s), none)
  after_open m s (r, some _) = scoped db_close m (r, s)

  -- A member `db_` that the constructor opens, and what it does behind that.
  unfoldable pub with_db : Opened → M S → M S
  with_db o m (r, s) = after_open m s (db_open o r)

  -- ── class Stmt ──
  -- The statements in their order, `none` where sqlite3_prepare_v2 fails. The members are destroyed
  -- in the opposite order, those that are there.
  unfoldable pub with_statements : List (Option ℕ) → M S → M S
  with_statements [] m x = m x
  with_statements (none ∷ ps) m x = (x, none)
  with_statements (some st ∷ ps) m (r, s) =
      scoped (finalize st) (with_statements ps m) (record r { statements = st ∷ r.statements }, s)

  -- A call that may throw, with no handle of its own.
  unfoldable pub checked : Bool → M S → M S
  checked is_ok m x = if is_ok then m x else (x, none)

  -- ── class Http ──
  -- What curl_easy_init gives; the header list is freed with the handle.
  unfoldable pub with_http : Option ℕ → M S → M S
  with_http none m x = (x, none)
  with_http (some h) m (r, s) =
      scoped (λ r'. easy_cleanup r'.curl r'.easy r') m (record r { easy = some h }, s)

-- ── what is asked of results ──
abbrev pub is_prepared : List (Option ℕ) → Bool
is_prepared [] = true
is_prepared (none ∷ ps) = false
is_prepared (some st ∷ ps) = is_prepared ps

abbrev pub is_there {ℓ} : {A : Type ℓ} → Option A → Bool
is_there none = false
is_there (some a) = true
