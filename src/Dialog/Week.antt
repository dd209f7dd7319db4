-- ===== src/Dialog/Week.antt =====
-- The weeks that the chart is cut into.
use stream_monitor.Prelude.{
  ℕ, ◌+◌, ◌-◌, ◌*◌, ◌≤◌, ◌<◌, ◌≡◌, ◌%◌, ap, arith, refl, false, true, List, [], ◌∷◌, some,
}
use stream_monitor.Prelude.Int.{pos, ◌-ℤ◌, ◌*ℤ◌, ◌+ℤ◌, ◌≤ℤ◌, ltb_ℤ}
use stream_monitor.Client.{Wide, Listed}
use stream_monitor.Dialog.Events.{Request, ask_samples, is_empty, query, refresh}
use stream_monitor.Dialog.{Dialog, week, kst_offset, kst_days, day_of_week, week_start_kst}

scaled : (k w : ℕ) → w ≤ k → (pos k -ℤ pos w) *ℤ pos 86400 ≡ pos ((k - w) * 86400)
unfolding ◌-ℤ◌ ◌*ℤ◌
scaled k w h = ground arith

-- A time lies in the week that starts at `week_start_kst`, and this start is midnight of a Sunday
-- in Korea: day d since 1970 is a Sunday where d + 4 is a multiple of 7. From 1970-01-04 on.
pub week_start_kst_lem :
    (ts : ℕ)
    → 3 * 86400 ≤ ts + kst_offset
    → (d : ℕ) × (week_start_kst ts ≡ pos (d * 86400) -ℤ pos kst_offset)
      × ((d + 4) % 7 ≡ 0)
      × (d * 86400 ≤ ts + kst_offset)
      × (ts + kst_offset < d * 86400 + week)
unfolding week_start_kst kst_days day_of_week
week_start_kst_lem ts h =
    let k = kst_days ts in
    let w = day_of_week ts in
    let le : w ≤ k = omega arith in
    (k - w, ap (λ z. z -ℤ pos kst_offset) (scaled k w le), omega arith, omega arith, omega arith)

-- One request for the samples of `id`, from the start of the first row of the chart to `now`,
-- which is in the week of the second row.
abbrev pub Covers : Wide → ℕ → Dialog × List Request → Type 0
Covers id now (d, rs) =
    (rs ≡ ask_samples (record { channel_id = id; from = d.week0; to = pos now }) ∷ [])
    × (d.week0 +ℤ pos week ≤ℤ pos now)
    × (ltb_ℤ (pos now) (d.week0 +ℤ pos (2 * week)) ≡ true)

two_weeks_lem :
    (start now : ℕ)
    → start ≤ now + kst_offset
    → now + kst_offset < start + week
    → (pos start -ℤ pos kst_offset -ℤ pos week +ℤ pos week ≤ℤ pos now)
      × (ltb_ℤ (pos now) (pos start -ℤ pos kst_offset -ℤ pos week +ℤ pos (2 * week)) ≡ true)
unfolding ◌-ℤ◌ ◌+ℤ◌
two_weeks_lem start now h k = ground arith

in_second_week :
    (now : ℕ)
    → 3 * 86400 ≤ now + kst_offset
    → (week_start_kst now -ℤ pos week +ℤ pos week ≤ℤ pos now)
      × (ltb_ℤ (pos now) (week_start_kst now -ℤ pos week +ℤ pos (2 * week)) ≡ true)
in_second_week now h =
    let (d, e, _, below, above) = week_start_kst_lem now h in
    rw e (two_weeks_lem (d * 86400) now below above)

-- The button for a channel and the timer's refresh ask for exactly what the chart then shows: from
-- the start of its first row to the present time, which lies in the week of its second row. From
-- 1970-01-04 on; the button where the request was sent, the refresh where a channel was asked for.
pub query-Covers :
    (now : ℕ) (c : Listed) (d : Dialog)
    → 3 * 86400 ≤ now + kst_offset
    → is_empty d.samples_id ≡ false
    → Covers c.id now (query true now (some c) d) × Covers d.samples_id now (refresh false now d)
unfolding query refresh
query-Covers now c d h e = let (a, b) = in_second_week now h in ((refl, a, b), rw e (refl, a, b))
