-- ===== src/Collector/Store/Atomic.antt =====
-- What `Store::record` commits.
use stream_monitor.Prelude.{
  ℕ, ◌+◌, ◌≡◌, refl, sym, ap, ◌∙◌, Bool, true, false, List, [], ◌∷◌, Option, none, some,
}
use stream_monitor.Db.{Tables, last_info}
use stream_monitor.Db.Session.{
  Session, pure, bind_result, committed, committed_of, commit, ◌>>=◌, ◌>>◌,
}
use stream_monitor.Db.Session.Transaction.{
  InTx, InTx-mono, returned, threw, execute-InTx, bind-InTx, Commits, committed_now, refused,
  commit-Commits, rollback-committed, Begins, began, not_begun, begin-Begins,
}
use stream_monitor.Collector.Fetch.{Live}
use stream_monitor.Collector.Store.{
  put_sample, put_channel, put_info, read_last, is_same, note_change, record_lives,
  roll_back_on_throw, guarded, record_poll,
}

-- One live, with no error in sight: the tables, and how many channels changed.
abbrev pub noted : ℕ → Live → Tables → ℕ → Bool → Tables × ℕ
noted ts l t n true = (t, n)
noted ts l t n false = ((put_info ts l t).0, n + 1)

abbrev pub record_one : ℕ → Live → Tables → ℕ → Tables × ℕ
record_one ts l t n =
    let t' = (put_channel ts l (put_sample ts l t).0).0 in
    noted ts l t' n (is_same l (last_info l.channel_id t'.infos))

abbrev pub record_tables : ℕ → List Live → Tables → ℕ → Tables × ℕ
record_tables ts [] t n = (t, n)
record_tables ts (l ∷ ls) t n = let (t', n') = record_one ts l t n in record_tables ts ls t' n'

note_change-InTx :
    {before : Tables} (ts : ℕ) (l : Live) (n : ℕ) (b : Bool) (s : Session)
    → s.saved ≡ some before
    → InTx before (λ t m. (t, m) ≡ noted ts l s.tables n b) (note_change ts l n b s)
note_change-InTx ts l n true s e = returned e refl
note_change-InTx ts l n false s e =
    bind-InTx _ (execute-InTx (put_info ts l) s e) λ s' a e' p. returned e' (cc)

record_lives-InTx :
    {before : Tables} (ts : ℕ) (ls : List Live) (n : ℕ) (s : Session)
    → s.saved ≡ some before
    → InTx before (λ t m. (t, m) ≡ record_tables ts ls s.tables n) (record_lives ts ls n s)
unfolding record_lives
record_lives-InTx ts [] n s e = returned e refl
record_lives-InTx ts (l ∷ ls) n s e = bind-InTx _ (execute-InTx (put_sample ts l) s e) λ s1 _ e1 p1.
    bind-InTx _ (execute-InTx (put_channel ts l) s1 e1) λ s2 _ e2 p2.
      bind-InTx _ (execute-InTx (read_last l) s2 e2) λ s3 row e3 p3.
        bind-InTx (record_lives ts ls) (note_change-InTx ts l n (is_same l row) s3 e3)
          λ s4 n' e4 p4.
            InTx-mono
              (λ t m q.
                q
                ∙ ap (λ x. record_tables ts ls x.0 x.1)
                    (p4
                      ∙ ap (λ x. noted ts l x.0 n (is_same l x.1))
                          (p3 ∙ ap (read_last l) (written s1 s2 p1 p2))))
              (record_lives-InTx ts ls n' s4 e4)
  where
    written :
        (s1 s2 : Session) {a b : Unit {0}}
        → (s1.tables, a) ≡ put_sample ts l s.tables
        → (s2.tables, b) ≡ put_channel ts l s1.tables
        → s2.tables ≡ (put_channel ts l (put_sample ts l s.tables).0).0
    written s1 s2 p1 p2 = ap (λ x. x.0) p2 ∙ ap (λ t. (put_channel ts l t).0) (ap (λ x. x.0) p1)

-- What `record` did: all of it, or nothing that anyone else sees.
pub data Records (ts : ℕ) (ls : List Live) (s : Session) : Session × Option ℕ → Type 0 where
  all_recorded :
      {t : Session} {n : ℕ}
      → t.saved ≡ none
      → (t.tables, n) ≡ record_tables ts ls s.tables 0
      → Records ts ls s (t, some n)
  unchanged : {t : Session} → committed t ≡ committed s → Records ts ls s (t, none)

module _ (ts : ℕ) (ls : List Live) (s : Session) where
  commit-Records :
      {before : Tables} (t : Session) (n : ℕ) {r : Session × Option (Unit {0})}
      → committed s ≡ before
      → (t.tables, n) ≡ record_tables ts ls s.tables 0
      → Commits before t.tables r
      → Records ts ls s (roll_back_on_throw (bind_result r (λ _. pure n)))
  commit-Records t n c p (committed_now e q) = all_recorded e (ap (λ x. (x, n)) q ∙ p)
  commit-Records t n c p (refused {s = u} e) = unchanged (rollback-committed u ∙ e ∙ sym c)

  body-Records :
      {before : Tables} {r : Session × Option ℕ}
      → committed s ≡ before
      → InTx before (λ t n. (t, n) ≡ record_tables ts ls s.tables 0) r
      → Records ts ls s (roll_back_on_throw (bind_result r (λ n. commit >> pure n)))
  body-Records c (returned {s = t} {a = n} e p) = commit-Records t n c p (commit-Commits t e)
  body-Records c (threw {s = u} e) = unchanged (rollback-committed u ∙ e ∙ sym c)

  begin-Records :
      {r : Session × Option (Unit {0})}
      → Begins s r
      → Records ts ls s (bind_result r (λ _. guarded (do n ← record_lives ts ls 0; commit; pure n)))
  begin-Records (not_begun e) = unchanged e
  begin-Records (began {t} e p q) =
      body-Records (ap (committed_of s.tables) e) (
        InTx-mono (λ _ _ h. h ∙ ap (λ x. record_tables ts ls x 0) q)
          (record_lives-InTx ts ls 0 t p))

-- Whatever statement fails, BEGIN, COMMIT and ROLLBACK among them, and in whatever state the
-- connection is: where `record` returns, no transaction is open, and the tables and the number are
-- those of the same statements without a failure; where it throws, what is committed is what was.
pub record_poll-Records :
    (ts : ℕ) (ls : List Live) (s : Session) → Records ts ls s (record_poll ts ls s)
unfolding record_poll
record_poll-Records ts ls s = begin-Records ts ls s (begin-Begins s)
