-- ===== src/Collector/Store/Effect.antt =====
-- What a poll that was recorded shows to a reader.
use stream_monitor.Prelude.{
  ℕ, ◌≡◌, refl, ap, ◌∙◌, Bool, true, false, List, [], ◌∷◌, Option, some, arith, All,
}
use stream_monitor.Prelude.Int.{ℤ}
use stream_monitor.Framing.{Bytes}
use stream_monitor.Json.{bytes_eq, bytes_eq_iff}
use stream_monitor.Db.{Tables, Info, Channel, last_info, sample_at, channel_row}
use stream_monitor.Db.Laws.{
  or_else, upserted, sample_at-insert, channel_row-upsert, IsOlder, last_info-insert_ne,
}
use stream_monitor.Collector.Fetch.{Live}
use stream_monitor.Collector.Store.{
  put_sample, put_channel, sample_of, channel_of, info_of, is_same,
}
use stream_monitor.Collector.Store.Atomic.{noted, record_one, record_tables}

-- What a reader finds of the channel `ch`: its viewers at `ts`, its row, and its last info.
pub record View : Type 0 where
  pub viewers : Option ℤ
  pub channel : Option Channel
  pub info : Option Info

abbrev pub view : Bytes → ℕ → Tables → View
view ch ts t = record {
  viewers = sample_at ch ts t.samples;
  channel = channel_row ch t.channels;
  info = last_info ch t.infos;
}

-- A live in the tables, against what the reader found of its channel before: a sample at `ts`,
-- the first one if there was one; the name and the time of this poll, with the first sighting as
-- it was; and a last info with the category and the title of the live.
pub record Shows (ts : ℕ) (l : Live) (before after : View) : Type 0 where
  pub sampled : after.viewers ≡ some (or_else before.viewers l.viewers)
  pub seen : after.channel ≡ some (upserted (channel_of ts l) before.channel)
  pub current : is_same l after.info ≡ true

noted-same :
    (ts : ℕ) (l : Live) (t : Tables) (n : ℕ) (b : Bool)
    → ((noted ts l t n b).0.samples ≡ t.samples) × ((noted ts l t n b).0.channels ≡ t.channels)
noted-same ts l t n true = (refl, refl)
noted-same ts l t n false = (refl, refl)

noted-other :
    (ts : ℕ) (l : Live) (t : Tables) (n : ℕ) (b : Bool) (ch : Bytes)
    → bytes_eq l.channel_id ch ≡ false
    → last_info ch (noted ts l t n b).0.infos ≡ last_info ch t.infos
noted-other ts l t n true ch e = refl
noted-other ts l t n false ch e = last_info-insert_ne ch (info_of ts l) t.infos e

view_eq : {u v : View} → u.viewers ≡ v.viewers → u.channel ≡ v.channel → u.info ≡ v.info → u ≡ v
view_eq p q r = λ i. record { viewers = p i; channel = q i; info = r i }

pub record_one-other :
    (ts : ℕ) (l : Live) (t : Tables) (n : ℕ) (ch : Bytes)
    → bytes_eq l.channel_id ch ≡ false
    → view ch ts (record_one ts l t n).0 ≡ view ch ts t
record_one-other ts l t n ch e =
    let t' = (put_channel ts l (put_sample ts l t).0).0 in
    let b = is_same l (last_info l.channel_id t'.infos) in
    let (samples, channels) = noted-same ts l t' n b in
    view_eq
      (ap (sample_at ch ts) samples
        ∙ ground (arith, sample_at-insert ch ts (sample_of ts l) t.samples))
      (ap (channel_row ch) channels
        ∙ ground (arith, channel_row-upsert ch (channel_of ts l) t.channels))
      (noted-other ts l t' n b ch e)

-- No other live of the list is of the channel.
abbrev pub IsOther : Bytes → List Live → Type 0
IsOther ch ls = All (λ l. bytes_eq l.channel_id ch ≡ false) ls

abbrev pub IsDistinct : List Live → Type 0
IsDistinct [] = Unit
IsDistinct (l ∷ ls) = IsOther l.channel_id ls × IsDistinct ls

pub record_tables-other :
    (ts : ℕ) (ls : List Live) (t : Tables) (n : ℕ) (ch : Bytes)
    → IsOther ch ls
    → view ch ts (record_tables ts ls t n).0 ≡ view ch ts t
record_tables-other ts [] t n ch h = refl
record_tables-other ts (l ∷ ls) t n ch h =
    record_tables-other ts ls _ _ ch h.1 ∙ record_one-other ts l t n ch h.0

-- All rows of the channels of the list are older than `ts`.
abbrev pub AreOlder : ℕ → List Live → Tables → Type 0
AreOlder ts ls t = All (λ l. IsOlder l.channel_id ts t.infos) ls

pub bytes_eq_comm : (a b : Bytes) → bytes_eq a b ≡ false → bytes_eq b a ≡ false
bytes_eq_comm a b e = ground (arith, bytes_eq_iff a b, bytes_eq_iff b a)

-- The lives of `ls` in `after`, against `before`.
abbrev pub AllShow : ℕ → List Live → Tables → Tables → Type 0
AllShow ts ls before after =
    All (λ l. Shows ts l (view l.channel_id ts before) (view l.channel_id ts after)) ls
