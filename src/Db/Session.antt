-- ===== src/Db/Session.antt =====
-- One connection of src/cpp/common/db.h to the database that writes: class Db and class Stmt.
-- A statement may throw DbError, by a plan that the environment makes; the state outlives that.
pub mod Transaction
use stream_monitor.Prelude.{List, [], ◌∷◌, Option, none, some}
use stream_monitor.Db.{Tables}

-- How SQLite answers one statement: it is executed; it fails; or it fails and SQLite has rolled
-- the open transaction back, as on a full disk.
pub data Answer : Type 0 where
  done failed rolled_back : Answer

-- `saved` holds the tables as they were at BEGIN while a transaction is open. An empty plan
-- answers `done`.
pub record Session : Type 0 where
  pub tables : Tables
  pub saved : Option Tables
  pub plan : List Answer

-- A call with its result, `none` if it throws.
abbrev pub M : Type 0 → Type 0
M A = Session → Session × Option A

abbrev pub pure : {A : Type 0} → A → M A
pure a s = (s, some a)

abbrev pub bind_result : {A B : Type 0} → Session × Option A → (A → M B) → Session × Option B
bind_result (s, none) f = (s, none)
bind_result (s, some a) f = f a s

infixl 5 ◌>>=◌ ◌>>◌
abbrev pub ◌>>=◌ : {A B : Type 0} → M A → (A → M B) → M B
◌>>=◌ m f s = bind_result (m s) f

abbrev pub ◌>>◌ : {A B : Type 0} → M A → M B → M B
m >> k = m >>= λ _. k

-- The tables that another connection reads, and that are left if the process dies.
abbrev pub committed_of : Tables → Option Tables → Tables
committed_of now none = now
committed_of now (some before) = before

abbrev pub committed : Session → Tables
committed s = committed_of s.tables s.saved

-- The next answer, and the plan behind it.
abbrev pub next_answer : List Answer → Answer × List Answer
next_answer [] = (done, [])
next_answer (a ∷ as') = (a, as')

abbrev pub undo : Session → Session
undo s = record s { tables = committed s; saved = none }

abbrev pub executed : {A : Type 0} → (Tables → Tables × A) → Answer → Session → Session × Option A
executed f done s = let (t, a) = f s.tables in (record s { tables = t }, some a)
executed f failed s = (s, none)
executed f rolled_back s = (undo s, none)

-- Stmt::run and Stmt::step of one statement.
unfoldable pub execute : {A : Type 0} → (Tables → Tables × A) → M A
execute f s = let (a, rest) = next_answer s.plan in executed f a (record s { plan = rest })

-- BEGIN throws inside a transaction.
abbrev pub begun : Answer → Option Tables → Session → Session × Option (Unit {0})
begun done none s = (record s { saved = some s.tables }, some tt)
begun rolled_back _ s = (undo s, none)
begun _ _ s = (s, none)

unfoldable pub begin_ : M (Unit {0})
begin_ s = let (a, rest) = next_answer s.plan in begun a s.saved (record s { plan = rest })

abbrev pub ended : Answer → Option Tables → Session → Session × Option (Unit {0})
ended done (some before) s = (record s { saved = none }, some tt)
ended rolled_back _ s = (undo s, none)
ended _ _ s = (s, none)

-- COMMIT and ROLLBACK throw outside a transaction.
unfoldable pub commit : M (Unit {0})
commit s = let (a, rest) = next_answer s.plan in ended a s.saved (record s { plan = rest })

abbrev pub reverted : Answer → Option Tables → Session → Session × Option (Unit {0})
reverted done (some before) s = (undo s, some tt)
reverted rolled_back _ s = (undo s, none)
reverted _ _ s = (s, none)

unfoldable pub rollback : M (Unit {0})
rollback s = let (a, rest) = next_answer s.plan in reverted a s.saved (record s { plan = rest })
