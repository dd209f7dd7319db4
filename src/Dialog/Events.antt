-- ===== src/Dialog/Events.antt =====
-- src/mfc/MainDlg.cpp: what reaches the window, and its handlers. A status text is left out.
-- `was_sent` is what request_samples returns, `connected` is `client_ && client_->connected()`.
use stream_monitor.Prelude.{
  ℕ, Bool, true, false, List, [], ◌∷◌, Option, none, some, if◌then◌else◌, map,
}
use stream_monitor.Prelude.Int.{pos, ◌-ℤ◌}
use stream_monitor.Client.{Wide, Listed, SampleSet}
use stream_monitor.Dialog.{
  Dialog, Ask, week, week_start_kst, on_channels, on_samples, request_multi, view_of,
}

-- The requests that a handler makes.
pub data Request : Type 0 where
  ask_channels : Request
  ask_samples : Ask → Request

abbrev pub with_asks : Dialog × List Ask → Dialog × List Request
with_asks (d, as_made) = (d, map ask_samples as_made)

abbrev pub is_empty {ℓ} : {A : Type ℓ} → List A → Bool
is_empty [] = true
is_empty (x ∷ xs) = false

abbrev pub is_some {ℓ} : {A : Type ℓ} → Option A → Bool
is_some none = false
is_some (some a) = true

abbrev pub two_weeks : ℕ → Wide → Ask
two_weeks now id = record { channel_id = id; from = week_start_kst now -ℤ pos week; to = pos now }

-- OnBnClickedQuery for one channel: the selected row of the list, `none` for no selection.
unfoldable pub query : Bool → ℕ → Option Listed → Dialog → Dialog × List Request
query was_sent now none d = (d, [])
query was_sent now (some c) d = (
  if was_sent then record d { samples_id = c.id; week0 = week_start_kst now -ℤ pos week } else d,
  ask_samples (two_weeks now c.id) ∷ [],
)

unfoldable pub on_query : Bool → Bool → Bool → ℕ → Option Listed → Dialog → Dialog × List Request
on_query multi connected was_sent now selected d =
    if multi then with_asks (request_multi connected now d) else query was_sent now selected d

unfoldable pub on_mode : Bool → Bool → Bool → ℕ → Option Listed → Dialog → Dialog × List Request
on_mode multi connected was_sent now selected d =
    let left = record d { hover_idx = none; hover_multi = none } in
    let first =
      if is_empty left.multi_ids
      then with_asks (request_multi connected now left)
      else (left, []) in
    let back =
      if is_some left.samples
      then on_query false connected was_sent now selected left
      else (left, []) in
    if multi then first else back

-- The channels of the comparison again, or the channel of the chart.
unfoldable pub refresh : Bool → ℕ → Dialog → Dialog × List Request
refresh multi now d =
    let again = if is_empty d.multi_ids then (d, []) else with_asks (request_multi true now d) in
    let shown = if is_empty d.samples_id then (d, []) else (
      record d { week0 = week_start_kst now -ℤ pos week },
      ask_samples (two_weeks now d.samples_id) ∷ [],
    ) in
    if multi then again else shown

unfoldable pub on_timer : Bool → Bool → ℕ → Dialog → Dialog × List Request
on_timer multi connected now d =
    let (d', rs) = refresh multi now d in if connected then (d', ask_channels ∷ rs) else (d, [])

-- The channels, an answer, the button, the choice of the mode and the timer.
pub data Event : Type 0 where
  listed : Bool → ℕ → List Listed → Event
  filtered : Bool → ℕ → Event
  answered : SampleSet → Event
  clicked : Bool → Bool → Bool → ℕ → Option Listed → Event
  mode_changed : Bool → Bool → Bool → ℕ → Option Listed → Event
  ticked : Bool → Bool → ℕ → Event

unfoldable pub handle_event : Event → Dialog → Dialog
handle_event (listed live_only now cs) d = on_channels live_only now cs d
handle_event (filtered live_only now) d = record d { view = view_of live_only now d.channels }
handle_event (answered s) d = on_samples s d
handle_event (clicked multi connected was_sent now selected) d =
    (on_query multi connected was_sent now selected d).0
handle_event (mode_changed multi connected was_sent now selected) d =
    (on_mode multi connected was_sent now selected d).0
handle_event (ticked multi connected now) d = (on_timer multi connected now d).0

unfoldable pub handle_events : List Event → Dialog → Dialog
handle_events [] d = d
handle_events (e ∷ es) d = handle_events es (handle_event e d)
