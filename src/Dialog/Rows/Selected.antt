-- ===== src/Dialog/Rows/Selected.antt =====
-- The selection of the list over a refresh and over the filter.
use stream_monitor.Prelude.{ℕ, ◌≡◌, ◌≢◌, List, [], ◌∷◌, Option, none, some, map, if◌then◌else◌}
use stream_monitor.Client.{Wide, Listed}
use stream_monitor.Dialog.{Dialog}
use stream_monitor.Dialog.Rows.{Item, ListControl, Laws, Formats, is_kept, selected}
use stream_monitor.Dialog.Rows.Shown.{item_of}

-- The first channel of the view that is to keep the selection.
abbrev pub find_kept : Wide → List Listed → Option Listed
find_kept keep_selected [] = none
find_kept keep_selected (c ∷ cs) =
    if is_kept keep_selected c then some c else find_kept keep_selected cs

abbrev IdIsNot : Listed → Listed → Type 0
IdIsNot c e = e.id ≢ c.id

module _ {L : Type 0} (k : ListControl L) (items : L → List Item) (laws : Laws k items)
    (f : Formats) where
  -- The rows are those of the view, and the selected one is that of the channel `keep_selected`.
  abbrev pub Keeps : Wide → ℕ → Dialog × L → Type 0
  Keeps keep_selected now (d, l) =
      (items l ≡ map (item_of f keep_selected now) d.view)
      × (selected k f d.view l ≡ find_kept keep_selected d.view)
