-- ===== src/Dialog/Mouse/Quiet.antt =====
-- The highlighted sample and the requests for WM_MOUSELEAVE.
use stream_monitor.Prelude.{
  ℕ, ◌-◌, ◌≡◌, refl, sym, ap, ◌∙◌, Bool, true, false, List, [], ◌∷◌, Option, none, some,
  if◌then◌else◌, if-elim, arith,
}
use stream_monitor.Prelude.Int.{ℤ}
use stream_monitor.Client.{Listed, SampleSet}
use stream_monitor.Dialog.Events.{
  Request, Event, listed, filtered, answered, clicked, mode_changed, ticked, handle_event, query,
  on_query, on_mode, refresh, on_timer, is_empty, is_some,
}
use stream_monitor.Dialog.Plot.{Rect}
use stream_monitor.Dialog.Mouse.{
  Mouse, Window, Places, moved, left, other, set_compared, set_row, track, leave, update_hover,
  pre_translate, Step, message, event, take_step, take_steps,
}
use stream_monitor.Dialog.{Dialog, on_samples, on_channels, request_multi, store_multi}

abbrev IsUnlit : Dialog → Type 0
IsUnlit d = d.hover_idx ≡ none

request_multi-IsUnlit :
    (connected : Bool) (now : ℕ) (d : Dialog)
    → IsUnlit d
    → IsUnlit (request_multi connected now d).0
unfolding request_multi
request_multi-IsUnlit connected now d h = ground arith

on_samples-IsUnlit : (s : SampleSet) (d : Dialog) → IsUnlit d → IsUnlit (on_samples s d)
unfolding on_samples store_multi
on_samples-IsUnlit s d h = ground arith

on_query-IsUnlit :
    (multi connected was_sent : Bool) (now : ℕ) (selected : Option Listed) (d : Dialog)
    → IsUnlit d
    → IsUnlit (on_query multi connected was_sent now selected d).0
unfolding on_query query
on_query-IsUnlit multi connected was_sent now selected d h =
    ground (arith, request_multi-IsUnlit connected now d h)

abbrev LeavesUnlit : Dialog × List Request → Type 0
LeavesUnlit r = IsUnlit r.0

on_mode-IsUnlit :
    (multi connected was_sent : Bool) (now : ℕ) (selected : Option Listed) (d : Dialog)
    → IsUnlit (on_mode multi connected was_sent now selected d).0
unfolding on_mode
on_mode-IsUnlit true connected was_sent now selected d =
    if-elim LeavesUnlit (is_empty d.multi_ids) _ _ (λ _. request_multi-IsUnlit connected now _ refl)
      (λ _. refl)
on_mode-IsUnlit false connected was_sent now selected d =
    if-elim LeavesUnlit (is_some d.samples) _ _
      (λ _. on_query-IsUnlit false connected was_sent now selected _ refl) (λ _. refl)

handle_event-IsUnlit : (e : Event) (d : Dialog) → IsUnlit d → IsUnlit (handle_event e d)
unfolding handle_event on_channels on_timer refresh on_mode on_query query
handle_event-IsUnlit (listed live_only now cs) d h = h
handle_event-IsUnlit (filtered live_only now) d h = h
handle_event-IsUnlit (answered s) d h = on_samples-IsUnlit s d h
handle_event-IsUnlit (clicked multi connected was_sent now selected) d h =
    on_query-IsUnlit multi connected was_sent now selected d h
handle_event-IsUnlit (mode_changed multi connected was_sent now selected) d h =
    on_mode-IsUnlit multi connected was_sent now selected d
handle_event-IsUnlit (ticked multi connected now) d h =
    ground (arith, request_multi-IsUnlit true now d h)

-- A sample is highlighted only while the mouse is over the chart, and for as long as it is there
-- Windows owes exactly one WM_MOUSELEAVE.
pub record Inv (w : Window) : Type 0 where
  pub unlit : w.1.tracking ≡ false → w.0.hover_idx ≡ none
  pub owed : w.1.pending ≡ (if w.1.tracking then 1 else 0)

paid : (b : Bool) (n : ℕ) → n ≡ (if b then 1 else 0) → n - 1 ≡ 0
paid b n h = ground arith

not_there : (o : Option ℕ) → is_some o ≡ false → o ≡ none
not_there none h = refl
not_there (some i) h = cc

leave-Inv : (d : Dialog) (m : Mouse) → Inv (d, m) → Inv (leave (d, m)).0
leave-Inv d m i =
    if-elim (λ (r : Window × Bool). Inv r.0) (is_some d.hover_idx) _ _
      (λ _. record { unlit = λ _. refl; owed = paid m.tracking m.pending i.owed })
      (λ n. record {
        unlit = λ _. not_there d.hover_idx n;
        owed = paid m.tracking m.pending i.owed;
      })

abbrev Tracked : Mouse → Type 0
Tracked m = (m.tracking ≡ true) × (m.pending ≡ 1)

track-Tracked : (m : Mouse) → m.pending ≡ (if m.tracking then 1 else 0) → Tracked (track m)
track-Tracked m h = ground arith

Tracked-Inv : (d : Dialog) (m : Mouse) → Tracked m → Inv (d, m)
Tracked-Inv d m h = record { unlit = λ n. cc; owed = h.1 ∙ ap (λ b. if b then 1 else 0) (sym h.0) }

set_compared-Tracked :
    (t : Option ℕ × Option ℕ) (w : Window) → Tracked w.1 → Tracked (set_compared t w).0.1
set_compared-Tracked (i, j) (d, m) h = ground arith

set_row-Tracked : (t : Option ℕ × ℕ) (w : Window) → Tracked w.1 → Tracked (set_row t w).0.1
set_row-Tracked (i, j) (d, m) h = ground arith

module _ (pt_in_rect : Rect → ℤ → ℤ → Bool) where
  update_hover-Tracked :
      (multi : Bool) (p : Places) (x y : ℤ) (d : Dialog) (m : Mouse)
      → Tracked m
      → Tracked (update_hover pt_in_rect multi p x y (d, m)).0.1
  unfolding update_hover
  update_hover-Tracked true p x y d m h = set_compared-Tracked _ (d, m) h
  update_hover-Tracked false p x y d m h = set_row-Tracked _ (d, m) h

  take_step-Inv : (s : Step) (w : Window) → Inv w → Inv (take_step pt_in_rect s w)
  unfolding take_step pre_translate
  take_step-Inv (message multi p (moved x y)) (d, m) i =
      Tracked-Inv _ _ (update_hover-Tracked multi p x y d (track m) (track-Tracked m i.owed))
  take_step-Inv (message multi p left) (d, m) i = leave-Inv d m i
  take_step-Inv (message multi p other) (d, m) i = i
  take_step-Inv (event e) (d, m) i = record {
    unlit = λ n. handle_event-IsUnlit e d (i.unlit n);
    owed = i.owed;
  }

  -- From a state where it holds, over any messages to the chart and any events of the window: while
  -- the mouse is not over the chart no sample is highlighted, and one WM_MOUSELEAVE is asked for
  -- exactly while the mouse is over it.
  pub take_steps-Inv : (ss : List Step) (w : Window) → Inv w → Inv (take_steps pt_in_rect ss w)
  unfolding take_steps
  take_steps-Inv [] w i = i
  take_steps-Inv (s ∷ ss) w i = take_steps-Inv ss (take_step pt_in_rect s w) (take_step-Inv s w i)
