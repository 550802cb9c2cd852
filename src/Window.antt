-- ===== src/Window.antt =====
-- Window geometry: frontend/src/utils/window.ts. Coordinates are integers; the size of the
-- browser's window is a parameter (`window.innerWidth` and `window.innerHeight`).
pub mod Clamp
pub mod Snap
mod Tests
use volum.Base.{
  ℕ, Bool, true, false, ◌&&◌, Option, none, some, ℤ, pos, negsuc, ◌+ℤ◌, ◌-ℤ◌, min_ℤ, max_ℤ,
  round_half, round_quarter, leb_ℤ, if◌then◌else◌,
}

pub data SnapTarget : Type 0 where
  maximize left right top_left top_right bottom_left bottom_right : SnapTarget

pub record WindowRect : Type 0 where
  pub x : ℤ
  pub y : ℤ
  pub width : ℤ
  pub height : ℤ

abbrev pub topbar_h : ℕ
topbar_h = 44

abbrev pub taskbar_h : ℕ
taskbar_h = 56

abbrev pub snap_threshold : ℕ
snap_threshold = 24

abbrev pub min_window_w : ℕ
min_window_w = 300

abbrev pub min_window_h : ℕ
min_window_h = 200

abbrev pub standard_window_w : ℕ
standard_window_w = 860

abbrev pub standard_window_h : ℕ
standard_window_h = 580

-- `window.innerWidth` and `window.innerHeight`.
pub record Viewport : Type 0 where
  pub inner_width : ℕ
  pub inner_height : ℕ

pub record WindowPos : Type 0 where
  pub x : ℤ
  pub y : ℤ

unfoldable pub get_centered_window_pos : Viewport → ℤ → ℤ → WindowPos
unfolding ◌+ℤ◌ ◌-ℤ◌ round_half round_quarter
get_centered_window_pos v width height =
    let work_h = pos v.inner_height -ℤ pos topbar_h -ℤ pos taskbar_h in
    record {
      x = round_half (pos v.inner_width -ℤ width);
      y = pos topbar_h +ℤ round_quarter (work_h -ℤ height);
    }

unfoldable pub get_work_area : Viewport → WindowRect
unfolding ◌-ℤ◌ max_ℤ
get_work_area v = record {
  x = pos 0;
  y = pos topbar_h;
  width = pos v.inner_width;
  height = max_ℤ (pos 0) (pos v.inner_height -ℤ pos topbar_h -ℤ pos taskbar_h);
}

unfoldable pub clamp_window_rect : WindowRect → WindowRect → WindowRect
clamp_window_rect rect area =
    let width = min_ℤ (max_ℤ (pos min_window_w) rect.width) area.width in
    let height = min_ℤ (max_ℤ (pos min_window_h) rect.height) area.height in
    record {
      x = min_ℤ (max_ℤ rect.x area.x) (area.x +ℤ area.width -ℤ width);
      y = min_ℤ (max_ℤ rect.y area.y) (area.y +ℤ area.height -ℤ height);
      width = width;
      height = height;
    }

pub near_left : ℤ → Bool
near_left x = leb_ℤ x (pos snap_threshold)

pub near_right : WindowRect → ℤ → Bool
near_right area x = leb_ℤ (area.width -ℤ pos snap_threshold) x

pub near_top : WindowRect → ℤ → Bool
near_top area y = leb_ℤ y (area.y +ℤ pos snap_threshold)

pub near_bottom : WindowRect → ℤ → Bool
near_bottom area y = leb_ℤ (area.y +ℤ area.height -ℤ pos snap_threshold) y

-- `getSnapTarget` in the work area that it reads.
unfoldable pub get_snap_target : WindowRect → ℤ → ℤ → Option SnapTarget
unfolding near_left near_right near_top near_bottom
get_snap_target area x y =
    if near_left x && near_top area y
    then some top_left
    else if near_right area x && near_top area y
    then some top_right
    else if near_left x && near_bottom area y
    then some bottom_left
    else if near_right area x && near_bottom area y
    then some bottom_right
    else if near_top area y
    then some maximize
    else if near_left x
    then some left
    else if near_right area x
    then some right
    else none

-- `getSnapRect` in the work area that it reads.
unfoldable pub get_snap_rect : WindowRect → SnapTarget → WindowRect
get_snap_rect area maximize = area
get_snap_rect area left = record {
  x = area.x;
  y = area.y;
  width = round_half area.width;
  height = area.height;
}
get_snap_rect area right =
    let half_w = round_half area.width in
    record { x = half_w; y = area.y; width = area.width -ℤ half_w; height = area.height }
get_snap_rect area top_left = record {
  x = area.x;
  y = area.y;
  width = round_half area.width;
  height = round_half area.height;
}
get_snap_rect area top_right =
    let half_w = round_half area.width in
    record { x = half_w; y = area.y; width = area.width -ℤ half_w; height = round_half area.height }
get_snap_rect area bottom_left =
    let half_h = round_half area.height in
    record {
      x = area.x;
      y = area.y +ℤ half_h;
      width = round_half area.width;
      height = area.height -ℤ half_h;
    }
get_snap_rect area bottom_right =
    let half_w = round_half area.width in
    let half_h = round_half area.height in
    record {
      x = half_w;
      y = area.y +ℤ half_h;
      width = area.width -ℤ half_w;
      height = area.height -ℤ half_h;
    }
