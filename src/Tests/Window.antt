-- ===== src/Tests/Window.antt =====
-- The window on concrete data: a list control that is a list of rows, a layout, and the mouse.
use stream_monitor.Prelude.{
  ℕ, zero, suc, ◌≡◌, refl, Bool, true, false, ◌&&◌, ◌-◌, List, [], ◌∷◌, none, length, map, arith,
}
use stream_monitor.Prelude.Int.{ℤ, pos, ◌-ℤ◌, ltb_ℤ, leb_ℤ}
use stream_monitor.Json.{codes, bytes_eq}
use stream_monitor.Client.{Wide, Listed, SampleSet}
use stream_monitor.Dialog.{
  Dialog, view_of, is_before, place_row, is_shown, is_live, live_viewers, on_channels,
}
use stream_monitor.Dialog.Plot.{Rect}
use stream_monitor.Dialog.Layout.{layout, IsLaidOut, layout-least_size}
use stream_monitor.Dialog.Events.{ticked}
use stream_monitor.Dialog.Mouse.{Window, Places, moved, left, Step, message, event, take_steps}
use stream_monitor.Dialog.Mouse.Quiet.{Inv, take_steps-Inv}
use stream_monitor.Dialog.Rows.{
  Item, set_column, mark, ListControl, first_selected, fresh, Formats, selected, selected_id,
  on_sm_channels, fill_rows, trim, show_rows, show_row, put_row, put_texts, seen_text, is_kept,
}

-- ── a list control ──
abbrev modify : ℕ → (Item → Item) → List Item → List Item
modify i g [] = []
modify zero g (x ∷ xs) = g x ∷ xs
modify (suc i) g (x ∷ xs) = x ∷ modify i g xs

abbrev remove : ℕ → List Item → List Item
remove i [] = []
remove zero (x ∷ xs) = xs
remove (suc i) (x ∷ xs) = x ∷ remove i xs

abbrev insert_at : ℕ → Item → List Item → List Item
insert_at i y [] = y ∷ []
insert_at zero y (x ∷ xs) = y ∷ x ∷ xs
insert_at (suc i) y (x ∷ xs) = x ∷ insert_at i y xs

abbrev select : ℕ → List Item → List Item
select i [] = []
select zero (x ∷ xs) = mark true x ∷ map (mark false) xs
select (suc i) (x ∷ xs) = mark false x ∷ select i xs

abbrev set_state : ℕ → Bool → List Item → List Item
set_state i true l = select i l
set_state i false l = modify i (mark false) l

abbrev rows_control : ListControl (List Item)
rows_control = record {
  count = length;
  delete_item = remove;
  insert_item = λ i name icon l. insert_at i (fresh name icon) l;
  set_item = λ i name icon. modify i (λ x. record x { name = name; icon = icon });
  set_item_text = λ i c t. modify i (set_column c t);
  set_item_state = set_state;
  next_selected = first_selected;
}

abbrev formats : Formats
formats = record { decimal = λ n. codes "n"; strftime = λ ts fmt. fmt }

abbrev channel : Wide → ℕ → Listed
channel id viewers = record {
  id = id;
  name = id;
  first_seen = pos 0;
  last_seen = pos 1000;
  samples = pos 1;
  peak = pos viewers;
  current = pos viewers;
}

abbrev before : List Listed
before = channel (codes "a") 5 ∷ channel (codes "b") 3 ∷ []

-- `b` overtakes `a`, and `c` is new.
abbrev after : List Listed
after = channel (codes "a") 5 ∷ channel (codes "b") 9 ∷ channel (codes "c") 7 ∷ []

abbrev window : Dialog
window = record {
  channels = before;
  view = before;
  samples = none;
  samples_id = [];
  week0 = pos 0;
  multi_ids = [];
  multi = [];
  multi_prev = [];
  multi_from = pos 0;
  hover_idx = none;
  hover_multi = none;
}

abbrev shown_before : List Item
shown_before = fresh (codes "a") 1 ∷ mark true (fresh (codes "b") 1) ∷ []

-- The row of `b` comes first, and it is the selected one.
refreshed :
    (on_sm_channels rows_control formats true 1030 after (window, shown_before)).1
    ≡ record {
      name = codes "b";
      icon = 1;
      current = codes "n";
      peak = codes "n";
      seen = codes "LIVE";
      selected = true;
    }
      ∷ record {
        name = codes "c";
        icon = 1;
        current = codes "n";
        peak = codes "n";
        seen = codes "LIVE";
        selected = false;
      }
      ∷ record {
        name = codes "a";
        icon = 1;
        current = codes "n";
        peak = codes "n";
        seen = codes "LIVE";
        selected = false;
      }
      ∷ []
unfolding on_sm_channels on_channels fill_rows trim show_rows show_row put_row put_texts seen_text
    is_kept selected_id selected view_of place_row is_before is_shown is_live live_viewers ◌-ℤ◌
    bytes_eq
refreshed = refl

-- ── the layout ──
layout-least_size_example :
    IsLaidOut (pos (700 - 16)) (pos (420 - 39)) (layout (pos (700 - 16)) (pos (420 - 39)))
layout-least_size_example =
    layout-least_size 700 420 16 39 (omega arith) (omega arith) (omega arith) (omega arith)

-- ── the mouse ──
abbrev pt_in_rect : Rect → ℤ → ℤ → Bool
pt_in_rect r x y = (leb_ℤ r.left x && ltb_ℤ x r.right) && (leb_ℤ r.top y && ltb_ℤ y r.bottom)

abbrev frame : Rect
frame = record { left = pos 0; top = pos 0; right = pos 40; bottom = pos 40 }

abbrev places : Places
places = record { first = frame; second = frame; multi_rows = [] }

abbrev still : Window
still = (window, record { tracking = false; hover_row = 0; pending = 0 })

abbrev visit : List Step
visit =
    message false places (moved (pos 3) (pos 4))
    ∷ event (ticked false true 1030)
    ∷ message false places left
    ∷ []

take_steps-Inv_example : Inv (take_steps pt_in_rect visit still)
take_steps-Inv_example =
    take_steps-Inv pt_in_rect visit still (record { unlit = λ _. refl; owed = refl })

-- ── the mouse over the row of a compared channel ──
abbrev day : SampleSet
day = record {
  channel_id = codes "a";
  from = pos 0;
  to = pos 86400;
  points =
      record { ts = pos 600; viewers = pos 5 } ∷ record { ts = pos 44000; viewers = pos 6 } ∷ [];
  info = [];
}

abbrev comparing : Dialog
comparing = record window {
  multi_ids = (codes "a", codes "a") ∷ [];
  multi = (codes "a", day) ∷ [];
  multi_from = pos 0;
}

abbrev rows_drawn : Places
rows_drawn = record { first = frame; second = frame; multi_rows = frame ∷ [] }
