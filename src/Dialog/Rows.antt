-- ===== src/Dialog/Rows.antt =====
-- src/mfc/MainDlg.cpp: the list of channels on the screen, `fill_channels` and the handlers that call
-- it. CListCtrl is a parameter, a record of the operations that the code calls; its laws, which are
-- those of a list view with LVS_SINGLESEL as in StreamMonitor.rc, are a record of their own.
-- gmtime_s with wcsftime, and the `%d` of CString::Format, are parameters too.
pub mod Shown
pub mod Selected
use stream_monitor.Prelude.{
  ℕ, zero, suc, ◌-◌, ◌≡◌, Bool, true, false, not, ◌&&◌, List, [], ◌∷◌, ◌++◌, Option, none, some,
  ltb, leb, length, map, get_elem?, if◌then◌else◌,
}
use stream_monitor.Prelude.Int.{ℤ, pos, ◌+ℤ◌}
use stream_monitor.Json.{bytes_eq, codes}
use stream_monitor.Client.{Wide, Listed}
use stream_monitor.Dialog.{Dialog, kst_offset, is_live, view_of, on_channels}

-- The columns behind the name.
pub data Column : Type 0 where
  current_column peak_column seen_column : Column

-- A row on the screen.
pub record Item : Type 0 where
  pub name : Wide
  pub icon : ℕ
  pub current : Wide
  pub peak : Wide
  pub seen : Wide
  pub selected : Bool

abbrev pub set_column : Column → Wide → Item → Item
set_column current_column t x = record x { current = t }
set_column peak_column t x = record x { peak = t }
set_column seen_column t x = record x { seen = t }

abbrev pub mark : Bool → Item → Item
mark b x = record x { selected = b }

-- GetItemCount, DeleteItem, InsertItem, SetItem, SetItemText, SetItemState with LVIS_SELECTED, and
-- GetNextItem(-1, LVNI_SELECTED).
pub record ListControl (L : Type 0) : Type 0 where
  pub count : L → ℕ
  pub delete_item : ℕ → L → L
  pub insert_item : ℕ → Wide → ℕ → L → L
  pub set_item : ℕ → Wide → ℕ → L → L
  pub set_item_text : ℕ → Column → Wide → L → L
  pub set_item_state : ℕ → Bool → L → L
  pub next_selected : L → Option ℕ

abbrev pub later : Option ℕ → Option ℕ
later none = none
later (some i) = some (suc i)

abbrev pub first_selected : List Item → Option ℕ
first_selected [] = none
first_selected (x ∷ xs) = if x.selected then some 0 else later (first_selected xs)

-- A row that InsertItem has made.
abbrev pub fresh : Wide → ℕ → Item
fresh name icon = record {
  name = name;
  icon = icon;
  current = [];
  peak = [];
  seen = [];
  selected = false;
}

-- `items` are the rows that the control shows. To select a row takes the selection from the others.
pub record Laws {L : Type 0} (k : ListControl L) (items : L → List Item) : Type 0 where
  pub count_lem : (l : L) → k.count l ≡ length (items l)
  pub delete_last :
      (l : L) (xs : List Item) (x : Item)
      → items l ≡ xs ++ (x ∷ [])
      → items (k.delete_item (length xs) l) ≡ xs
  pub insert_last :
      (l : L) (name : Wide) (icon : ℕ)
      → items (k.insert_item (length (items l)) name icon l) ≡ items l ++ (fresh name icon ∷ [])
  pub set_item_lem :
      (l : L) (xs : List Item) (x : Item) (ys : List Item) (name : Wide) (icon : ℕ)
      → items l ≡ xs ++ (x ∷ ys)
      → items (k.set_item (length xs) name icon l)
        ≡ xs ++ (record x { name = name; icon = icon } ∷ ys)
  pub set_item_text_lem :
      (l : L) (xs : List Item) (x : Item) (ys : List Item) (c : Column) (t : Wide)
      → items l ≡ xs ++ (x ∷ ys)
      → items (k.set_item_text (length xs) c t l) ≡ xs ++ (set_column c t x ∷ ys)
  pub select_lem :
      (l : L) (xs : List Item) (x : Item) (ys : List Item)
      → items l ≡ xs ++ (x ∷ ys)
      → items (k.set_item_state (length xs) true l)
        ≡ map (mark false) xs ++ (mark true x ∷ map (mark false) ys)
  pub unselect_lem :
      (l : L) (xs : List Item) (x : Item) (ys : List Item)
      → items l ≡ xs ++ (x ∷ ys)
      → items (k.set_item_state (length xs) false l) ≡ xs ++ (mark false x ∷ ys)
  pub next_selected_lem : (l : L) → k.next_selected l ≡ first_selected (items l)

-- `decimal` is Format's `%d`, `strftime` is gmtime_s with wcsftime.
pub record Formats : Type 0 where
  pub decimal : ℤ → Wide
  pub strftime : ℤ → Wide → Wide

unfoldable pub fmt_kst : Formats → ℤ → Wide → Wide
fmt_kst f ts fmt = f.strftime (ts +ℤ pos kst_offset) fmt

unfoldable pub seen_text : Formats → Bool → ℤ → Wide
seen_text f live last_seen =
    if live then codes "LIVE" else fmt_kst f last_seen (codes "%m-%d %H:%M")

abbrev pub icon_of : Bool → ℕ
icon_of live = if live then 1 else 0

abbrev pub is_empty_text : Wide → Bool
is_empty_text [] = true
is_empty_text (c ∷ cs) = false

unfoldable pub is_kept : Wide → Listed → Bool
is_kept keep_selected c = not (is_empty_text keep_selected) && bytes_eq c.id keep_selected

-- `cur >= 0 && cur < view_.size()`, and the channel there.
abbrev pub row_at : List Listed → Option ℕ → Option Listed
row_at view none = none
row_at view (some cur) = get_elem? view cur

abbrev pub id_or_empty : Option Listed → Wide
id_or_empty none = []
id_or_empty (some c) = c.id

module _ {L : Type 0} (k : ListControl L) (f : Formats) where
  -- The `while` that deletes the last rows.
  unfoldable pub trim : ℕ → ℕ → L → L
  trim zero n l = l
  trim (suc fuel) n l =
      let rest = trim fuel n (k.delete_item (k.count l - 1) l) in
      if ltb n (k.count l) then rest else l

  unfoldable pub put_row : ℕ → Wide → ℕ → L → L
  put_row i name icon l =
      if leb (k.count l) i then k.insert_item i name icon l else k.set_item i name icon l

  unfoldable pub put_texts : ℕ → Wide → Wide → Wide → L → L
  put_texts i cur peak seen l =
      let l1 = k.set_item_text i current_column cur l in
      let l2 = k.set_item_text i peak_column peak l1 in k.set_item_text i seen_column seen l2

  -- The body of the loop over the rows.
  unfoldable pub show_row : Wide → ℕ → ℕ → Listed → L → L
  show_row keep_selected now i c l =
      let live = is_live now c in
      let l1 = put_row i c.name (icon_of live) l in
      let l2 =
        put_texts i (f.decimal (if live then c.current else pos 0)) (f.decimal c.peak)
          (seen_text f live c.last_seen) l1 in
      k.set_item_state i (is_kept keep_selected c) l2

  unfoldable pub show_rows : Wide → ℕ → ℕ → List Listed → L → L
  show_rows keep_selected now i [] l = l
  show_rows keep_selected now i (c ∷ cs) l =
      show_rows keep_selected now (suc i) cs (show_row keep_selected now i c l)

  -- From the sorted view on.
  unfoldable pub fill_rows : Wide → ℕ → List Listed → L → L
  fill_rows keep_selected now view l =
      show_rows keep_selected now 0 view (trim (k.count l) (length view) l)

  -- The channel of the selected row.
  unfoldable pub selected : List Listed → L → Option Listed
  selected view l = row_at view (k.next_selected l)

  unfoldable pub selected_id : List Listed → L → Wide
  selected_id view l = id_or_empty (selected view l)

  unfoldable pub on_sm_channels : Bool → ℕ → List Listed → Dialog × L → Dialog × L
  on_sm_channels live_only now cs (d, l) =
      let keep_selected = selected_id d.view l in
      let d' = on_channels live_only now cs d in (d', fill_rows keep_selected now d'.view l)

  unfoldable pub on_live_only : Bool → ℕ → Dialog × L → Dialog × L
  on_live_only live_only now (d, l) =
      let keep_selected = selected_id d.view l in
      let view = view_of live_only now d.channels in
      (record d { view = view }, fill_rows keep_selected now view l)

-- `live` of the status text.
unfoldable pub live_count : ℕ → List Listed → ℕ
live_count now [] = 0
live_count now (c ∷ cs) = let rest = live_count now cs in if is_live now c then suc rest else rest
