-- ===== src/Dialog/Placement.antt =====
-- src/mfc/MainDlg.cpp: the place of the window in the registry, `save_placement` and
-- `restore_placement`. The memory of a WINDOWPLACEMENT, the registry's value and the monitors are
-- parameters.
use stream_monitor.Prelude.{ℕ, Bool, Option, none, some, length, ◌==◌, if◌then◌else◌}
use stream_monitor.Framing.{Bytes}
use stream_monitor.Dialog.Plot.{Rect}

-- WINDOWPLACEMENT; `others` is the bytes of the members that the code does not name.
pub record Placement : Type 0 where
  pub length : ℕ
  pub show_cmd : ℕ
  pub normal : Rect
  pub others : Bytes

-- SW_SHOWNORMAL and SW_SHOWMINIMIZED.
abbrev pub show_normal : ℕ
show_normal = 1

abbrev pub show_minimized : ℕ
show_minimized = 2

-- sizeof(WINDOWPLACEMENT), its bytes, and memcpy from bytes of that number.
pub record Memory : Type 0 where
  pub size : ℕ
  pub to_bytes : Placement → Bytes
  pub from_bytes : Bytes → Placement

module _ (m : Memory) where
  -- What GetWindowPlacement fills in, if it does, and the registry's value.
  unfoldable pub save_placement : Option Placement → Option Bytes → Option Bytes
  save_placement none value = value
  save_placement (some p) value = some (m.to_bytes p)

  abbrev pub usable : Placement → Placement
  usable p = record p {
    length = m.size;
    show_cmd = if p.show_cmd == show_minimized then show_normal else p.show_cmd;
  }

  abbrev pub if_on_monitor : (Rect → Bool) → Placement → Option Placement
  if_on_monitor on_monitor p = if on_monitor p.normal then some p else none

  -- What SetWindowPlacement is called with.
  unfoldable pub restore_placement : (Rect → Bool) → Option Bytes → Option Placement
  restore_placement on_monitor none = none
  restore_placement on_monitor (some bytes) =
      if length bytes == m.size
      then if_on_monitor on_monitor (usable (m.from_bytes bytes))
      else none
