-- ===== src/Frame/Tests.antt =====
-- A window of a desktop of 1280 by 720 that is resized and dragged.
use volum.Base.{
  ◌≤ℤ◌, Text, codes, text_eq, pos, ℕ, ◌≡◌, refl, inl, Bool, true, false, none, [], ◌∷◌, arith,
}
use volum.Frame.{ResizeDir, FrameState, resize_rect, maximize_click}
use volum.Frame.Restored.{maximize_click_twice}
use volum.Manager.{WindowState, initial}
use volum.Frame.Held.{IsHeld, resize_rect-IsHeld}
use volum.Window.{Viewport, WindowRect, min_window_w, min_window_h}

abbrev window_rect : WindowRect
window_rect = record { x = pos 100; y = pos 80; width = pos 900; height = pos 600 }

resize_rect-IsHeld_example :
    let r = resize_rect ResizeDir.nw window_rect (pos 700) (pos 30) in
    IsHeld false true min_window_w (pos 100) (pos 900) (pos 700) (r.x, r.width)
    × IsHeld false true min_window_h (pos 80) (pos 600) (pos 30) (r.y, r.height)
    × (pos min_window_w ≤ℤ r.width)
    × (pos min_window_h ≤ℤ r.height)
resize_rect-IsHeld_example =
    resize_rect-IsHeld ResizeDir.nw window_rect (pos 700) (pos 30) (omega arith) (omega arith)

abbrev desktop : Viewport
desktop = record { inner_width = 1280; inner_height = 720 }

abbrev window_of : Text → ℕ → WindowState Bool
window_of id z = record {
  id = id;
  title = codes "Jobs";
  icon = codes "⚙";
  win_type = codes "jobs";
  params = true;
  x = pos 100;
  y = pos 80;
  width = pos 900;
  height = pos 500;
  minimized = false;
  maximized = false;
  z_index = z;
}

abbrev jobs_window : WindowState Bool
jobs_window = window_of (codes "jobs-1") 11

abbrev frame : FrameState Bool
frame = record {
  manager = record initial { windows = window_of (codes "trash-1") 10 ∷ jobs_window ∷ [] };
  prev_rect = none;
  snap_preview = none;
}

maximize_click_twice_example :
    (maximize_click false desktop
      (record jobs_window { maximized = true })
      (maximize_click false desktop jobs_window frame)).manager
    ≡ frame.manager
unfolding text_eq volum.Window.get_work_area volum.Base.◌+ℤ◌
maximize_click_twice_example =
    maximize_click_twice desktop jobs_window frame refl ((λ h. cc), ((λ _. refl), tt))
      (record {
        from_left = omega arith;
        from_top = omega arith;
        to_right = omega arith;
        to_bottom = omega arith;
      })
      (inl (omega arith)) (inl (omega arith))
