-- ===== src/Dialog/Multi.antt =====
-- The answers that the window keeps for the channels it compares.
use stream_monitor.Prelude.{
  ℕ, ◌≡◌, refl, sym, inl, inr, Bool, true, false, Bool-cases, Option, none, some, if-elim, List, [],
  ◌∷◌, arith, All,
}
use stream_monitor.Json.{bytes_eq, bytes_eq_iff}
use stream_monitor.Client.{Wide, Listed, SampleSet}
use stream_monitor.Dialog.Events.{
  Request, is_empty, is_some, Event, listed, filtered, answered, clicked, mode_changed, ticked,
  handle_event, handle_events, query, on_query, on_mode, refresh, on_timer,
}
use stream_monitor.Dialog.{
  Dialog, is_listed, put, keep_listed, is_multi, is_prev, store_multi, on_samples, on_channels,
  request_multi,
}

-- An answer stands under its own channel, which is one of the listed.
abbrev pub IsKept : List (Wide × Wide) → Wide × SampleSet → Type 0
IsKept ids e = (e.1.channel_id ≡ e.0) × (is_listed e.0 ids ≡ true)

pub record Inv (d : Dialog) : Type 0 where
  pub multi_kept : All (IsKept d.multi_ids) d.multi
  pub prev_kept : All (IsKept d.multi_ids) d.multi_prev

put-IsKept :
    (ids : List (Wide × Wide)) (s : SampleSet) (m : List (Wide × SampleSet))
    → is_listed s.channel_id ids ≡ true
    → All (IsKept ids) m
    → All (IsKept ids) (put s.channel_id s m)
unfolding put
put-IsKept ids s [] h k = ((refl, h), tt)
put-IsKept ids s ((j, v) ∷ m) h k = elim (Bool-cases (bytes_eq j s.channel_id)) [
  | inl e ↦ rw (put, e) ((sym ((bytes_eq_iff j s.channel_id).0 e), k.0.1), k.1)
  | inr e ↦ rw (put, e) (k.0, put-IsKept ids s m h k.1)
]

keep_listed-IsKept :
    (old ids : List (Wide × Wide)) (m : List (Wide × SampleSet))
    → All (IsKept old) m
    → All (IsKept ids) (keep_listed ids m)
unfolding keep_listed
keep_listed-IsKept old ids [] h = tt
keep_listed-IsKept old ids ((k, v) ∷ m) h = elim (Bool-cases (is_listed k ids)) [
  | inl e ↦ rw (keep_listed, e) ((h.0.0, e), keep_listed-IsKept old ids m h.1)
  | inr e ↦ rw (keep_listed, e) (keep_listed-IsKept old ids m h.1)
]

is_multi-listed :
    (d : Dialog) (s : SampleSet) → is_multi d s ≡ true → is_listed s.channel_id d.multi_ids ≡ true
unfolding is_multi
is_multi-listed d s h = ground arith

store_multi-Inv :
    (d : Dialog) (s : SampleSet)
    → is_listed s.channel_id d.multi_ids ≡ true
    → Inv d
    → Inv (store_multi s d)
unfolding store_multi
store_multi-Inv d s h i = elim (Bool-cases (is_prev d.multi_from s)) [
  | inl e ↦
      rw (store_multi, e)
        (record {
          multi_kept = i.multi_kept;
          prev_kept = put-IsKept d.multi_ids s d.multi_prev h i.prev_kept;
        })
  | inr e ↦
      rw (store_multi, e)
        (record {
          multi_kept = put-IsKept d.multi_ids s d.multi h i.multi_kept;
          prev_kept = i.prev_kept;
        })
]

on_samples-Inv : (d : Dialog) (s : SampleSet) → Inv d → Inv (on_samples s d)
unfolding on_samples
on_samples-Inv d s i = elim (Bool-cases (is_multi d s)) [
  | inl e ↦ rw (on_samples, e) (store_multi-Inv d s (is_multi-listed d s e) i)
  | inr e ↦ elim (Bool-cases (bytes_eq s.channel_id d.samples_id)) [
    | inl f ↦ rw (on_samples, e, f) (record { multi_kept = i.multi_kept; prev_kept = i.prev_kept })
    | inr f ↦ rw (on_samples, e, f) i
  ]
]

request_multi-Inv :
    (connected : Bool) (now : ℕ) (d : Dialog) → Inv d → Inv (request_multi connected now d).0
unfolding request_multi
request_multi-Inv false now d i = i
request_multi-Inv true now d i = record {
  multi_kept = keep_listed-IsKept d.multi_ids _ d.multi i.multi_kept;
  prev_kept = keep_listed-IsKept d.multi_ids _ d.multi_prev i.prev_kept;
}

-- Only these fields count.
same-Inv :
    (d e : Dialog)
    → d.multi_ids ≡ e.multi_ids
    → d.multi ≡ e.multi
    → d.multi_prev ≡ e.multi_prev
    → Inv d
    → Inv e
same-Inv d e p q r i = record {
  multi_kept = rw (sym p, sym q) i.multi_kept;
  prev_kept = rw (sym p, sym r) i.prev_kept;
}

on_query-Inv :
    (multi connected was_sent : Bool) (now : ℕ) (selected : Option Listed) (d : Dialog)
    → Inv d
    → Inv (on_query multi connected was_sent now selected d).0
unfolding on_query query
on_query-Inv true connected was_sent now selected d i = request_multi-Inv connected now d i
on_query-Inv false connected was_sent now none d i = i
on_query-Inv false connected true now (some c) d i = same-Inv d _ refl refl refl i
on_query-Inv false connected false now (some c) d i = i

abbrev Keeps : Dialog × List Request → Type 0
Keeps r = Inv r.0

on_mode-Inv :
    (multi connected was_sent : Bool) (now : ℕ) (selected : Option Listed) (d : Dialog)
    → Inv d
    → Inv (on_mode multi connected was_sent now selected d).0
unfolding on_mode
on_mode-Inv true connected was_sent now selected d i =
    if-elim Keeps (is_empty d.multi_ids) _ _
      (λ _. request_multi-Inv connected now _ (same-Inv d _ refl refl refl i))
      (λ _. same-Inv d _ refl refl refl i)
on_mode-Inv false connected was_sent now selected d i =
    if-elim Keeps (is_some d.samples) _ _
      (λ _. on_query-Inv false connected was_sent now selected _ (same-Inv d _ refl refl refl i))
      (λ _. same-Inv d _ refl refl refl i)

refresh-Inv : (multi : Bool) (now : ℕ) (d : Dialog) → Inv d → Inv (refresh multi now d).0
unfolding refresh
refresh-Inv true now d i =
    if-elim Keeps (is_empty d.multi_ids) _ _ (λ _. i) (λ _. request_multi-Inv true now d i)
refresh-Inv false now d i =
    if-elim Keeps (is_empty d.samples_id) _ _ (λ _. i) (λ _. same-Inv d _ refl refl refl i)

handle_event-Inv : (e : Event) (d : Dialog) → Inv d → Inv (handle_event e d)
unfolding handle_event on_channels on_timer
handle_event-Inv (listed live_only now cs) d i = same-Inv d _ refl refl refl i
handle_event-Inv (filtered live_only now) d i = same-Inv d _ refl refl refl i
handle_event-Inv (answered s) d i = on_samples-Inv d s i
handle_event-Inv (clicked multi connected was_sent now selected) d i =
    on_query-Inv multi connected was_sent now selected d i
handle_event-Inv (mode_changed multi connected was_sent now selected) d i =
    on_mode-Inv multi connected was_sent now selected d i
handle_event-Inv (ticked multi true now) d i = refresh-Inv multi now d i
handle_event-Inv (ticked multi false now) d i = i

-- In every order of the answers and of what the user does, each answer that is kept for the
-- comparison stands under its own channel, and no channel that left the comparison has one.
pub handle_events-Inv : (es : List Event) (d : Dialog) → Inv d → Inv (handle_events es d)
unfolding handle_events
handle_events-Inv [] d i = i
handle_events-Inv (e ∷ es) d i = handle_events-Inv es (handle_event e d) (handle_event-Inv e d i)
