-- ===== src/Db/Session/Transaction.antt =====
-- What holds of calls between BEGIN and COMMIT.
use stream_monitor.Prelude.{◌≡◌, refl, ap, Option, none, some}
use stream_monitor.Db.{Tables}
use stream_monitor.Db.Session.{
  Answer, done, failed, rolled_back, Session, M, bind_result, committed, committed_of, executed,
  executed, next_answer, execute, begin_, commit, rollback, begun, ended, reverted,
}

-- A call in a transaction that began at `before`: it returns with `P`, and the transaction is
-- open; or it throws, and what is committed is `before`.
pub data InTx {A : Type 0} (before : Tables) (P : Tables → A → Type 0)
    : Session × Option A → Type 0 where
  returned :
      {s : Session} {a : A} → s.saved ≡ some before → P s.tables a → InTx before P (s, some a)
  threw : {s : Session} → committed s ≡ before → InTx before P (s, none)

committed-saved : (s : Session) {before : Tables} → s.saved ≡ some before → committed s ≡ before
committed-saved s e = ap (committed_of s.tables) e

executed-InTx :
    {A : Type 0} {before : Tables} (f : Tables → Tables × A) (a : Answer) (s : Session)
    → s.saved ≡ some before
    → InTx before (λ t x. (t, x) ≡ f s.tables) (executed f a s)
executed-InTx f done s e = returned e refl
executed-InTx f failed s e = threw (committed-saved s e)
executed-InTx f rolled_back s e = threw (committed-saved s e)

pub execute-InTx :
    {A : Type 0} {before : Tables} (f : Tables → Tables × A) (s : Session)
    → s.saved ≡ some before
    → InTx before (λ t x. (t, x) ≡ f s.tables) (execute f s)
unfolding execute
execute-InTx f s e =
    executed-InTx f (next_answer s.plan).0 (record s { plan = (next_answer s.plan).1 }) e

pub bind-InTx :
    {A B : Type 0} {before : Tables} {P : Tables → A → Type 0} {Q : Tables → B → Type 0}
    {r : Session × Option A} (f : A → M B)
    → InTx before P r
    → ((s : Session) (a : A) → s.saved ≡ some before → P s.tables a → InTx before Q (f a s))
    → InTx before Q (bind_result r f)
bind-InTx f (returned {s} {a} e p) k = k s a e p
bind-InTx f (threw e) k = threw e

-- The result of a commit: the transaction is closed over the tables as they stand, or it failed.
pub data Commits (before now : Tables) : Session × Option (Unit {0}) → Type 0 where
  committed_now : {s : Session} → s.saved ≡ none → s.tables ≡ now → Commits before now (s, some tt)
  refused : {s : Session} → committed s ≡ before → Commits before now (s, none)

ended-Commits :
    {before : Tables} (a : Answer) (o : Option Tables) (s : Session)
    → s.saved ≡ some before
    → s.saved ≡ o
    → Commits before s.tables (ended a o s)
ended-Commits done (some b) s e p = committed_now refl refl
ended-Commits done none s e p = refused (committed-saved s e)
ended-Commits failed (some b) s e p = refused (committed-saved s e)
ended-Commits failed none s e p = refused (committed-saved s e)
ended-Commits rolled_back o s e p = refused (committed-saved s e)

pub commit-Commits :
    {before : Tables} (s : Session) → s.saved ≡ some before → Commits before s.tables (commit s)
unfolding commit
commit-Commits s e =
    ended-Commits (next_answer s.plan).0 s.saved (record s { plan = (next_answer s.plan).1 }) e refl

-- ROLLBACK never changes what is committed, not even where it throws.
reverted-committed :
    (a : Answer) (o : Option Tables) (s : Session)
    → s.saved ≡ o
    → committed (reverted a o s).0 ≡ committed s
reverted-committed done none s e = refl
reverted-committed done (some b) s e = refl
reverted-committed failed o s e = refl
reverted-committed rolled_back o s e = refl

pub rollback-committed : (s : Session) → committed (rollback s).0 ≡ committed s
unfolding rollback
rollback-committed s =
    reverted-committed (next_answer s.plan).0 s.saved (record s { plan = (next_answer s.plan).1 })
      refl

-- BEGIN leaves what is committed alone; where it returns, a transaction is open over it.
pub data Begins (s : Session) : Session × Option (Unit {0}) → Type 0 where
  began :
      {t : Session}
      → s.saved ≡ none
      → t.saved ≡ some s.tables
      → t.tables ≡ s.tables
      → Begins s (t, some tt)
  not_begun : {t : Session} → committed t ≡ committed s → Begins s (t, none)

begun-Begins :
    (s : Session) (a : Answer) (o : Option Tables) (t : Session)
    → s.saved ≡ o
    → t.tables ≡ s.tables
    → t.saved ≡ s.saved
    → Begins s (begun a o t)
begun-Begins s done none t e p q = began e (ap some p) p
begun-Begins s done (some b) t e p q = not_begun (cc)
begun-Begins s failed o t e p q = not_begun (cc)
begun-Begins s rolled_back o t e p q = not_begun (cc)

pub begin-Begins : (s : Session) → Begins s (begin_ s)
unfolding begin_
begin-Begins s =
    begun-Begins s (next_answer s.plan).0 s.saved (record s { plan = (next_answer s.plan).1 }) refl
      refl refl

pub InTx-mono :
    {A : Type 0} {before : Tables} {P Q : Tables → A → Type 0} {r : Session × Option A}
    → ((t : Tables) (a : A) → P t a → Q t a)
    → InTx before P r
    → InTx before Q r
InTx-mono k (returned {s} {a} e p) = returned e (k s.tables a p)
InTx-mono k (threw e) = threw e
