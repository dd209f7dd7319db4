-- ===== src/Dialog.antt =====
-- src/mfc/MainDlg.cpp: the state of the window behind the controls, and what its handlers do to it.
-- Drawing, texts and layout are left out, but for the numbers that the chart is drawn by.
pub mod View
pub mod Events
pub mod Multi
pub mod Week
pub mod Chart
pub mod Plot
pub mod Hover
pub mod Labels
pub mod Drawing
pub mod Screen
pub mod Compared
pub mod Rows
pub mod Layout
pub mod Mouse
pub mod Placement
use stream_monitor.Prelude.{
  ℕ, ◌+◌, ◌-◌, ◌*◌, ◌/◌, ◌%◌, Bool, true, false, ◌&&◌, ◌||◌, not, List, [], ◌∷◌, ◌++◌, Option, none,
  some, if◌then◌else◌, take,
}
use stream_monitor.Prelude.Int.{ℤ, pos, negsuc, abs, ◌-ℤ◌, ◌+ℤ◌, ◌*ℤ◌, ltb_ℤ, leb_ℤ}
use stream_monitor.Json.{bytes_eq}
use stream_monitor.Client.{Wide, Listed, SampleSet}

abbrev pub kst_offset : ℕ
kst_offset = 9 * 3600

abbrev pub week : ℕ
week = 7 * 86400

-- 2 * kPollSec
abbrev pub live_window : ℕ
live_window = 2 * 60

abbrev pub multi_count : ℕ
multi_count = 10

-- ── fill_channels ──
unfoldable pub is_live : ℕ → Listed → Bool
is_live now c = leb_ℤ (pos now -ℤ c.last_seen) (pos live_window)

unfoldable pub live_viewers : ℕ → Listed → ℤ
live_viewers now c = if is_live now c then c.current else pos 0

-- The comparison of the sort.
unfoldable pub is_before : ℕ → Listed → Listed → Bool
is_before now a b =
    let ca = live_viewers now a in
    let cb = live_viewers now b in
    if ltb_ℤ cb ca then true else if ltb_ℤ ca cb then false else ltb_ℤ b.peak a.peak

-- A stable sort puts a row in front of those that are not before it.
unfoldable pub place_row : ℕ → Listed → List Listed → List Listed
place_row now r [] = r ∷ []
place_row now r (s ∷ ss) = if is_before now s r then s ∷ place_row now r ss else r ∷ s ∷ ss

unfoldable pub is_shown : Bool → ℕ → Listed → Bool
is_shown live_only now c = not live_only || is_live now c

-- view_ holds the indexes in channels_; here it is the channels at these.
unfoldable pub view_of : Bool → ℕ → List Listed → List Listed
view_of live_only now [] = []
view_of live_only now (c ∷ cs) =
    let rest = view_of live_only now cs in
    if is_shown live_only now c then place_row now c rest else rest

-- ── the samples that the window holds ──
pub record Dialog : Type 0 where
  pub channels : List Listed
  pub view : List Listed
  pub samples : Option SampleSet
  pub samples_id : Wide
  pub week0 : ℤ
  pub multi_ids : List (Wide × Wide)
  pub multi : List (Wide × SampleSet)
  pub multi_prev : List (Wide × SampleSet)
  pub multi_from : ℤ
  pub hover_idx : Option ℕ
  pub hover_multi : Option ℕ

-- A call of request_samples.
pub record Ask : Type 0 where
  pub channel_id : Wide
  pub from : ℤ
  pub to : ℤ

unfoldable pub on_channels : Bool → ℕ → List Listed → Dialog → Dialog
on_channels live_only now cs d = record d { channels = cs; view = view_of live_only now cs }

unfoldable pub is_listed : Wide → List (Wide × Wide) → Bool
is_listed k [] = false
is_listed k ((id, name) ∷ ids) = bytes_eq id k || is_listed k ids

-- `m[id] = s` of a std::map.
unfoldable pub put : Wide → SampleSet → List (Wide × SampleSet) → List (Wide × SampleSet)
put id s [] = (id, s) ∷ []
put id s ((k, v) ∷ m) = if bytes_eq k id then (k, s) ∷ m else (k, v) ∷ put id s m

-- The entries whose channel is in the list still.
unfoldable pub keep_listed : List (Wide × Wide) → List (Wide × SampleSet) → List (Wide × SampleSet)
keep_listed ids [] = []
keep_listed ids ((k, v) ∷ m) =
    let rest = keep_listed ids m in if is_listed k ids then (k, v) ∷ rest else rest

abbrev pub names : List Listed → List (Wide × Wide)
names [] = []
names (c ∷ cs) = (c.id, c.name) ∷ names cs

unfoldable pub asks : ℤ → List (Wide × Wide) → List Ask
asks from [] = []
asks from ((id, name) ∷ ids) =
    record { channel_id = id; from = from; to = from +ℤ pos 86400 }
    ∷ record { channel_id = id; from = from -ℤ pos week; to = from -ℤ pos week +ℤ pos 86400 }
    ∷ asks from ids

-- `(now - 86400) / 60 * 60`; the clock is past the first day.
unfoldable pub multi_start : ℕ → ℕ
multi_start now = (now - 86400) / 60 * 60

unfoldable pub request_multi : Bool → ℕ → Dialog → Dialog × List Ask
request_multi connected now d =
    if connected
    then (let ids = names (take multi_count d.view) in
        let from = pos (multi_start now) in
        (
          record d {
            multi_from = from;
            multi_ids = ids;
            multi = keep_listed ids d.multi;
            multi_prev = keep_listed ids d.multi_prev;
          },
          asks from ids,
        ))
    else (d, [])

-- `std::llabs(s->from - (multi_from_ - kWeek)) < 300`
unfoldable pub is_prev : ℤ → SampleSet → Bool
is_prev multi_from s = ltb_ℤ (abs (s.from -ℤ (multi_from -ℤ pos week))) (pos 300)

abbrev pub eq_ℤ : ℤ → ℤ → Bool
eq_ℤ a b = leb_ℤ a b && leb_ℤ b a

unfoldable pub is_multi : Dialog → SampleSet → Bool
is_multi d s =
    eq_ℤ (s.to -ℤ s.from) (pos 86400)
    && (not (eq_ℤ d.multi_from (pos 0)) && is_listed s.channel_id d.multi_ids)

unfoldable pub store_multi : SampleSet → Dialog → Dialog
store_multi s d =
    if is_prev d.multi_from s
    then record d { multi_prev = put s.channel_id s d.multi_prev }
    else record d { multi = put s.channel_id s d.multi }

unfoldable pub on_samples : SampleSet → Dialog → Dialog
on_samples s d =
    if is_multi d s
    then store_multi s d
    else if bytes_eq s.channel_id d.samples_id
    then record d { samples = some s; hover_idx = none }
    else d

-- ── the weeks of the chart ──
unfoldable pub kst_days : ℕ → ℕ
kst_days ts = (ts + kst_offset) / 86400

-- 0 is a Sunday.
unfoldable pub day_of_week : ℕ → ℕ
day_of_week ts = (kst_days ts + 4) % 7

unfoldable pub week_start_kst : ℕ → ℤ
week_start_kst ts = (pos (kst_days ts) -ℤ pos (day_of_week ts)) *ℤ pos 86400 -ℤ pos kst_offset
