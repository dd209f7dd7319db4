-- ===== src/Collector/Store/Closed.antt =====
-- The transaction that `Store::record` opens.
use stream_monitor.Prelude.{ℕ, ◌≡◌, refl, Bool, true, false, List, [], ◌∷◌, Option, none, some}
use stream_monitor.Db.{Tables}
use stream_monitor.Db.Session.{
  Answer, done, failed, rolled_back, Session, M, pure, bind_result, next_answer, executed, execute,
  begun, begin_, ended, commit, reverted, rollback, ◌>>=◌, ◌>>◌,
}
use stream_monitor.Collector.Fetch.{Live}
use stream_monitor.Collector.Store.{
  put_sample, put_channel, put_info, read_last, is_same, note_change, record_lives,
  roll_back_on_throw, guarded, record_poll,
}

abbrev pub NeverFails : List Answer → Type 0
NeverFails [] = Unit
NeverFails (failed ∷ as') = ⊥
NeverFails (done ∷ as') = NeverFails as'
NeverFails (rolled_back ∷ as') = NeverFails as'

-- One statement at most fails and leaves its transaction open.
abbrev pub FailsOnce : List Answer → Type 0
FailsOnce [] = Unit
FailsOnce (failed ∷ as') = NeverFails as'
FailsOnce (done ∷ as') = FailsOnce as'
FailsOnce (rolled_back ∷ as') = FailsOnce as'

-- A call in a transaction: it returns with the transaction open, or throws before ROLLBACK, which
-- works then, or throws out of a transaction that is closed.
data Runs {A : Type 0} : Session × Option A → Type 0 where
  open_still : {s : Session} {a : A} → FailsOnce s.plan → Runs (s, some a)
  to_undo : {s : Session} → NeverFails s.plan → Runs (s, none)
  undone : {s : Session} → s.saved ≡ none → Runs (s, none)

executed-Runs :
    {A : Type 0} (f : Tables → Tables × A) (a : Answer) (rest : List Answer) (s : Session)
    → FailsOnce (a ∷ rest)
    → s.plan ≡ rest
    → Runs (executed f a s)
executed-Runs f done rest s h e = open_still (rw e h)
executed-Runs f failed rest s h e = to_undo (rw e h)
executed-Runs f rolled_back rest s h e = undone refl

next-FailsOnce :
    (plan : List Answer) → FailsOnce plan → FailsOnce ((next_answer plan).0 ∷ (next_answer plan).1)
next-FailsOnce [] h = tt
next-FailsOnce (a ∷ rest) h = h

next-NeverFails :
    (plan : List Answer)
    → NeverFails plan
    → NeverFails ((next_answer plan).0 ∷ (next_answer plan).1)
next-NeverFails [] h = tt
next-NeverFails (a ∷ rest) h = h

execute-Runs :
    {A : Type 0} (f : Tables → Tables × A) (s : Session) → FailsOnce s.plan → Runs (execute f s)
unfolding execute
execute-Runs f s h =
    executed-Runs f (next_answer s.plan).0 (next_answer s.plan).1
      (record s { plan = (next_answer s.plan).1 }) (next-FailsOnce s.plan h) refl

bind-Runs :
    {A B : Type 0} {r : Session × Option A} (f : A → M B)
    → Runs r
    → ((s : Session) (a : A) → FailsOnce s.plan → Runs (f a s))
    → Runs (bind_result r f)
bind-Runs f (open_still {s} {a} h) k = k s a h
bind-Runs f (to_undo h) k = to_undo h
bind-Runs f (undone h) k = undone h

note_change-Runs :
    (ts : ℕ) (l : Live) (n : ℕ) (b : Bool) (s : Session)
    → FailsOnce s.plan
    → Runs (note_change ts l n b s)
note_change-Runs ts l n true s h = open_still h
note_change-Runs ts l n false s h =
    bind-Runs _ (execute-Runs (put_info ts l) s h) λ t a k. open_still k

record_lives-Runs :
    (ts : ℕ) (ls : List Live) (n : ℕ) (s : Session)
    → FailsOnce s.plan
    → Runs (record_lives ts ls n s)
unfolding record_lives
record_lives-Runs ts [] n s h = open_still h
record_lives-Runs ts (l ∷ ls) n s h = bind-Runs _ (execute-Runs (put_sample ts l) s h) λ s1 _ h1.
    bind-Runs _ (execute-Runs (put_channel ts l) s1 h1) λ s2 _ h2.
      bind-Runs _ (execute-Runs (read_last l) s2 h2) λ s3 row h3.
        bind-Runs (record_lives ts ls) (note_change-Runs ts l n (is_same l row) s3 h3)
          λ s4 n' h4. record_lives-Runs ts ls n' s4 h4

-- A call up to COMMIT: it returns with the transaction closed, or throws as above.
data Closes {A : Type 0} : Session × Option A → Type 0 where
  closed : {s : Session} {a : A} → s.saved ≡ none → Closes (s, some a)
  to_undo : {s : Session} → NeverFails s.plan → Closes (s, none)
  undone : {s : Session} → s.saved ≡ none → Closes (s, none)

ended-Closes :
    (a : Answer) (o : Option Tables) (s : Session)
    → s.saved ≡ o
    → FailsOnce (a ∷ s.plan)
    → Closes (ended a o s)
ended-Closes done (some b) s e h = closed refl
ended-Closes done none s e h = undone e
ended-Closes failed (some b) s e h = to_undo h
ended-Closes failed none s e h = undone e
ended-Closes rolled_back o s e h = undone refl

commit-Closes : (s : Session) → FailsOnce s.plan → Closes (commit s)
unfolding commit
commit-Closes s h =
    ended-Closes (next_answer s.plan).0 s.saved (record s { plan = (next_answer s.plan).1 }) refl
      (next-FailsOnce s.plan h)

pure-Closes :
    (n : ℕ) {r : Session × Option (Unit {0})} → Closes r → Closes (bind_result r (λ _. pure n))
pure-Closes n (closed e) = closed e
pure-Closes n (to_undo h) = to_undo h
pure-Closes n (undone e) = undone e

body-Closes : {r : Session × Option ℕ} → Runs r → Closes (bind_result r (λ n. commit >> pure n))
body-Closes (open_still {s} {a = n} h) = pure-Closes n (commit-Closes s h)
body-Closes (to_undo h) = to_undo h
body-Closes (undone e) = undone e

reverted-saved :
    (a : Answer) (o : Option Tables) (s : Session)
    → s.saved ≡ o
    → NeverFails (a ∷ s.plan)
    → (reverted a o s).0.saved ≡ none
reverted-saved done (some b) s e h = refl
reverted-saved done none s e h = e
reverted-saved failed o s e h = absurd h
reverted-saved rolled_back o s e h = refl

idle-saved :
    (a : Answer) (o : Option Tables) (s : Session)
    → s.saved ≡ none
    → s.saved ≡ o
    → (reverted a o s).0.saved ≡ none
idle-saved done (some b) s e f = refl
idle-saved done none s e f = e
idle-saved failed o s e f = e
idle-saved rolled_back o s e f = refl

guarded-saved :
    {A : Type 0} {r : Session × Option A} → Closes r → (roll_back_on_throw r).0.saved ≡ none
unfolding rollback
guarded-saved (closed e) = e
guarded-saved (to_undo {s} h) =
    reverted-saved (next_answer s.plan).0 s.saved (record s { plan = (next_answer s.plan).1 }) refl
      (next-NeverFails s.plan h)
guarded-saved (undone {s} e) =
    idle-saved (next_answer s.plan).0 s.saved (record s { plan = (next_answer s.plan).1 }) e refl

begun-saved :
    (ts : ℕ) (ls : List Live) (a : Answer) (s : Session)
    → s.saved ≡ none
    → FailsOnce (a ∷ s.plan)
    → (bind_result
        (begun a none s)
        (λ _. guarded (do n ← record_lives ts ls 0; commit; pure n))).0.saved
      ≡ none
begun-saved ts ls done s e h =
    guarded-saved (body-Closes (record_lives-Runs ts ls 0 (record s { saved = some s.tables }) h))
begun-saved ts ls failed s e h = e
begun-saved ts ls rolled_back s e h = refl

-- Where one statement at most fails without SQLite's own rollback, be it BEGIN, COMMIT or one
-- between, `record` leaves no transaction open: the next poll can begin its own.
pub record_poll-saved :
    (ts : ℕ) (ls : List Live) (s : Session)
    → s.saved ≡ none
    → FailsOnce s.plan
    → (record_poll ts ls s).0.saved ≡ none
unfolding record_poll begin_
record_poll-saved ts ls s e h = rw e (
    begun-saved ts ls (next_answer s.plan).0
      (record s { saved = none; plan = (next_answer s.plan).1 }) refl (next-FailsOnce s.plan h))
