-- ===== src/Manager/Tests.antt =====
-- The manager on a few windows, and its theorems at concrete states.
use volum.Base.{
  ◌-ℤ◌, ◌+ℤ◌, All, Text, codes, text_eq, includes, starts_with, min_ℤ, max_ℤ, round_half, pos,
  print, ℕ, ◌≡◌, refl, Bool, true, false, none, [], ◌∷◌, arith,
}
use volum.Manager.{
  toggle_existing, toggle_new, update_size, update_position, toggle_maximize, toggle_minimize,
  close_window, open_window, clamp_window, update_window, window_id, count_of, cascade_rect, next_z,
  initial, open_rect, render, Manager, WindowOptions, clamp_windows, focus_window, toggle_window,
}
use volum.Window.{Viewport, get_work_area, clamp_window_rect, get_centered_window_pos}
use volum.Window.Clamp.{IsInside}
use volum.Manager.Consistent.{Action, Reach, IsConsistent, run_action, Reach-IsConsistent}
use volum.Manager.Stacking.{IsStacked, IsOnTop, Reach-IsStacked, focus_window-IsOnTop}
use volum.Manager.Placement.{IsPlaced, clamp_windows-IsPlaced, new_window-IsInside}

program : Unit {0}
unfolding get_work_area clamp_window_rect get_centered_window_pos min_ℤ max_ℤ ◌+ℤ◌ ◌-ℤ◌ round_half
    text_eq starts_with includes print next_z count_of window_id update_window render clamp_window
    clamp_windows open_rect open_window close_window focus_window toggle_minimize toggle_maximize
    update_position update_size cascade_rect toggle_new toggle_existing toggle_window run_action
program = tt

abbrev screen : Viewport
screen = record { inner_width = 1280; inner_height = 800 }

abbrev options : WindowOptions ℕ
options = record {
  title = codes "Files";
  icon = [];
  win_type = codes "files";
  params = 0;
  x = none;
  y = none;
  width = none;
  height = none;
}

abbrev start : Manager ℕ
start = initial

abbrev types : Text → Bool
types t = true

abbrev toggled : Manager ℕ
toggled = run_action (Action.toggle screen (codes "files") options) start

toggled_id : (toggle_window screen (codes "files") options start).1 ≡ codes "files-1"
unfolding program
toggled_id = refl

toggled_windows :
    toggled.windows
    ≡ record {
      id = codes "files-1";
      title = codes "Files";
      icon = [];
      win_type = codes "files";
      params = 0;
      x = pos 210;
      y = pos 74;
      width = pos 860;
      height = pos 580;
      minimized = false;
      maximized = false;
      z_index = 100;
    }
      ∷ []
unfolding program
toggled_windows = refl

toggled-Reach : Reach types toggled
toggled-Reach = Reach.next (Action.toggle screen (codes "files") options) refl Reach.here

Reach-IsConsistent_example : IsConsistent types toggled
Reach-IsConsistent_example = Reach-IsConsistent types toggled-Reach

Reach-IsStacked_example : IsStacked toggled
Reach-IsStacked_example = Reach-IsStacked toggled-Reach

focus_window-IsOnTop_example :
    All
      (IsOnTop (codes "files-1") toggled.next_z_index)
      (focus_window (codes "files-1") toggled).windows
unfolding program
focus_window-IsOnTop_example = focus_window-IsOnTop (codes "files-1") toggled-Reach (omega arith)

clamp_windows-IsPlaced_example :
    All (IsPlaced (get_work_area screen)) (clamp_windows screen toggled).windows
clamp_windows-IsPlaced_example = clamp_windows-IsPlaced screen toggled (omega arith)

new_window-IsInside_example :
    IsInside (open_rect screen options) (get_work_area screen)
    × IsInside (cascade_rect screen options 7) (get_work_area screen)
new_window-IsInside_example = new_window-IsInside screen options 7
