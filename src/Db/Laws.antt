-- ===== src/Db/Laws.antt =====
-- The statements, by what a later SELECT finds.
use mathlib.Core.Bool.{false≢true}
use stream_monitor.Prelude.{
  ℕ, ◌≤◌, ◌<◌, ◌≡◌, refl, sym, ◌∙◌, true, false, ◌&&◌, List, [], ◌∷◌, Option, none, some, arith,
  All, ◌==◌, if◌then◌else◌, if-elim,
}
use stream_monitor.Prelude.Int.{ℤ, pos, negsuc, ltb_ℤ}
use stream_monitor.Framing.{Bytes}
use stream_monitor.Json.{bytes_eq, bytes_eq_iff, bytes_eq_refl}
use stream_monitor.Db.{
  Sample, Info, Channel, insert_sample, upsert_channel, insert_info, last_info, purge_samples,
  sample_at, channel_row, info_at,
}

-- The first write of a key stays.
abbrev pub or_else {ℓ} : {A : Type ℓ} → Option A → A → A
or_else none d = d
or_else (some a) d = a

pub sample_at-insert :
    (ch : Bytes) (ts : ℕ) (r : Sample) (ss : List Sample)
    → sample_at ch ts (insert_sample r ss) ≡ (
        if bytes_eq r.channel_id ch && r.ts == ts
        then some (or_else (sample_at ch ts ss) r.viewers)
        else sample_at ch ts ss)
unfolding sample_at insert_sample
sample_at-insert ch ts r [] = ground arith
sample_at-insert ch ts r (s ∷ ss) = ground (
  arith,
  sample_at-insert ch ts r ss,
  bytes_eq_iff s.channel_id r.channel_id,
  bytes_eq_iff s.channel_id ch,
  bytes_eq_iff r.channel_id ch,
)

-- The row of an upsert: the first sighting stays, the name and the last sighting are new.
abbrev pub upserted : Channel → Option Channel → Channel
upserted r none = r
upserted r (some c) = record c { channel_name = r.channel_name; last_seen = r.last_seen }

pub channel_row-upsert :
    (ch : Bytes) (r : Channel) (cs : List Channel)
    → channel_row ch (upsert_channel r cs) ≡ (
        if bytes_eq r.channel_id ch
        then some (upserted r (channel_row ch cs))
        else channel_row ch cs)
unfolding channel_row upsert_channel
channel_row-upsert ch r [] = ground arith
channel_row-upsert ch r (c ∷ cs) = ground (
  arith,
  channel_row-upsert ch r cs,
  bytes_eq_iff c.channel_id r.channel_id,
  bytes_eq_iff c.channel_id ch,
  bytes_eq_iff r.channel_id ch,
)

-- All rows of the channel are older than `ts`.
abbrev pub IsOlder : Bytes → ℕ → List Info → Type 0
IsOlder ch ts infos = All (λ s. bytes_eq s.channel_id ch ≡ true → s.ts < ts) infos

pub last_info-insert :
    (r : Info) (infos : List Info)
    → IsOlder r.channel_id r.ts infos
    → last_info r.channel_id (insert_info r infos) ≡ some r
unfolding last_info insert_info
last_info-insert r [] h = ground (arith, bytes_eq_refl r.channel_id)
last_info-insert r (s ∷ ss) h = ground (arith, last_info-insert r ss h.1, h.0)

pub last_info-insert_ne :
    (ch : Bytes) (r : Info) (infos : List Info)
    → bytes_eq r.channel_id ch ≡ false
    → last_info ch (insert_info r infos) ≡ last_info ch infos
unfolding last_info insert_info
last_info-insert_ne ch r [] h = ground arith
last_info-insert_ne ch r (s ∷ ss) h = ground (
  arith,
  last_info-insert_ne ch r ss h,
  bytes_eq_iff s.channel_id r.channel_id,
  bytes_eq_iff s.channel_id ch,
  bytes_eq_iff r.channel_id ch,
)

-- A purge of the samples keeps exactly those from the cutoff on.
pub sample_at-purge :
    (ch : Bytes) (ts : ℕ) (cutoff : ℤ) (ss : List Sample)
    → sample_at ch ts (purge_samples cutoff ss)
      ≡ (if ltb_ℤ (pos ts) cutoff then none else sample_at ch ts ss)
unfolding sample_at purge_samples
sample_at-purge ch ts cutoff [] = ground arith
sample_at-purge ch ts (pos n) (s ∷ ss) = ground (arith, sample_at-purge ch ts (pos n) ss)
sample_at-purge ch ts (negsuc n) (s ∷ ss) = ground (arith, sample_at-purge ch ts (negsuc n) ss)

pub IsOlder-insert :
    (ch : Bytes) (ts : ℕ) (r : Info) (infos : List Info)
    → bytes_eq r.channel_id ch ≡ false
    → IsOlder ch ts infos
    → IsOlder ch ts (insert_info r infos)
unfolding insert_info
IsOlder-insert ch ts r [] e h = (λ p. absurd (false≢true (sym e ∙ p)), tt)
IsOlder-insert ch ts r (s ∷ ss) e h =
    if-elim (IsOlder ch ts) (bytes_eq s.channel_id r.channel_id && s.ts == r.ts) _ _ (λ _. h)
      (λ _. (h.0, IsOlder-insert ch ts r ss e h.1))

pub insert_info-All :
    (P : Info → Type 0) (r : Info) (ss : List Info) → P r → All P ss → All P (insert_info r ss)
unfolding insert_info
insert_info-All P r [] p h = (p, tt)
insert_info-All P r (s ∷ ss) p h =
    if-elim (All P) (bytes_eq s.channel_id r.channel_id && s.ts == r.ts) (s ∷ ss)
      (s ∷ insert_info r ss) (λ _. h) (λ _. (h.0, insert_info-All P r ss p h.1))

-- Where no row is later than `ts`, the row in force at `ts` is the last one.
pub info_at-last_info :
    (ch : Bytes) (ts : ℕ) (ss : List Info)
    → All (λ r. r.ts ≤ ts) ss
    → info_at ch (pos ts) ss ≡ last_info ch ss
unfolding info_at last_info
info_at-last_info ch ts [] h = refl
info_at-last_info ch ts (s ∷ ss) h = ground (arith, info_at-last_info ch ts ss h.1)
