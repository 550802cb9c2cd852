-- ===== src/Window/Tests.antt =====
-- The geometry at concrete sizes of the browser's window.
use volum.Base.{◌≡◌, inl, refl, arith, some, pos, negsuc, min_ℤ, max_ℤ, ◌+ℤ◌, ◌-ℤ◌, round_half}
use volum.Window.{
  WindowRect, Viewport, top_right, bottom_right, get_work_area, clamp_window_rect, get_snap_rect,
  get_snap_target, get_centered_window_pos,
}
use volum.Window.Clamp.{IsInside, clamp_window_rect_of_IsInside}

geometry : Unit {0}
unfolding get_work_area clamp_window_rect get_snap_rect get_snap_target get_centered_window_pos
    min_ℤ max_ℤ ◌+ℤ◌ ◌-ℤ◌ round_half
geometry = tt

abbrev screen : Viewport
screen = record { inner_width = 1281; inner_height = 800 }

abbrev area : WindowRect
area = record { x = pos 0; y = pos 44; width = pos 1281; height = pos 700 }

-- Dragged off the left edge, and too small.
abbrev astray : WindowRect
astray = record { x = negsuc 49; y = pos 900; width = pos 100; height = pos 400 }

abbrev inside : WindowRect
inside = record { x = pos 0; y = pos 344; width = pos 300; height = pos 400 }

tests :
    (get_work_area screen ≡ area)
    × (clamp_window_rect astray area ≡ inside)
    × (get_snap_rect area bottom_right
        ≡ record { x = pos 641; y = pos 394; width = pos 640; height = pos 350 })
    × (get_snap_target area (pos 1270) (pos 50) ≡ some top_right)
    × (get_centered_window_pos screen (pos 860) (pos 580) ≡ record { x = pos 211; y = pos 74 })
unfolding geometry
tests = (refl, refl, refl, refl, refl)

inside-IsInside : IsInside inside area
unfolding geometry
inside-IsInside = omega arith

clamp_window_rect_of_IsInside_example : clamp_window_rect inside area ≡ inside
clamp_window_rect_of_IsInside_example =
    clamp_window_rect_of_IsInside inside area inside-IsInside (inl (omega arith))
      (inl (omega arith))
