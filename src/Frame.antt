-- ===== src/Frame.antt =====
-- The frame of a window: frontend/src/components/window/WindowFrame.tsx. It calls Manager and Window.
-- Coordinates are integers; a handler runs on the window of the last rendering.
pub mod Held
pub mod Restored
mod Tests
use volum.Base.{
  ltb, if◌then◌else◌, filter, Text, includes, ◌+ℤ◌, ◌-ℤ◌, min_ℤ, max_ℤ, ℤ, pos, ℕ, min, Bool, true,
  false, ◌||◌, not, Option, none, some, List, [], ◌∷◌,
}
use volum.Manager.{
  Manager, WindowState, focus_window, toggle_maximize, update_position, update_size,
}
use volum.Window.{
  Viewport, WindowRect, SnapTarget, get_snap_target, get_snap_rect, get_work_area,
  clamp_window_rect, min_window_w, min_window_h, taskbar_h,
}

abbrev pub min_edge_distance : ℕ
min_edge_distance = 80

pub data ResizeDir : Type 0 where
  n s e w ne nw se sw : ResizeDir

-- `dir.includes(...)`
abbrev pub has_east : ResizeDir → Bool
has_east ResizeDir.e = true
has_east ResizeDir.ne = true
has_east ResizeDir.se = true
has_east dir = false

abbrev pub has_west : ResizeDir → Bool
has_west ResizeDir.w = true
has_west ResizeDir.nw = true
has_west ResizeDir.sw = true
has_west dir = false

-- `se` and `sw` have the `s`, too.
abbrev pub has_south : ResizeDir → Bool
has_south ResizeDir.s = true
has_south ResizeDir.se = true
has_south ResizeDir.sw = true
has_south dir = false

abbrev pub has_north : ResizeDir → Bool
has_north ResizeDir.n = true
has_north ResizeDir.ne = true
has_north ResizeDir.nw = true
has_north dir = false

-- The part of a side: the place and the size after a move by `d`.
unfoldable pub resized : Bool → Bool → ℕ → ℤ → ℤ → ℤ → ℤ × ℤ
resized grows shrinks least start size d =
    let larger = max_ℤ (pos least) (size +ℤ d) in
    let smaller = max_ℤ (pos least) (size -ℤ d) in
    if shrinks then (start +ℤ size -ℤ smaller, smaller) else (start, if grows then larger else size)

-- The rectangle of `handleResizeStart` after a move by `dx` and `dy`.
unfoldable pub resize_rect : ResizeDir → WindowRect → ℤ → ℤ → WindowRect
unfolding resized
resize_rect dir start dx dy =
    let across = resized (has_east dir) (has_west dir) min_window_w start.x start.width dx in
    let down = resized (has_south dir) (has_north dir) min_window_h start.y start.height dy in
    record { x = across.0; y = down.0; width = across.1; height = down.1 }

-- The position of `handleMouseDown` after a move by `dx` and `dy`.
unfoldable pub drag_position : Viewport → WindowRect → ℤ → ℤ → ℤ × ℤ
drag_position v start dx dy = (
  max_ℤ (pos min_edge_distance -ℤ start.width)
      (min_ℤ (pos v.inner_width -ℤ pos min_edge_distance) (start.x +ℤ dx)),
  max_ℤ (pos 80 -ℤ start.height)
      (min_ℤ (pos v.inner_height -ℤ pos taskbar_h -ℤ pos 40) (start.y +ℤ dy)),
)

pub record FrameState (P : Type 0) : Type 0 where
  pub manager : Manager P
  pub prev_rect : Option WindowRect
  pub snap_preview : Option WindowRect

module _ {P : Type 0} where
  abbrev pub rect_of_window : WindowState P → WindowRect
  rect_of_window win = record { x = win.x; y = win.y; width = win.width; height = win.height }

  abbrev place_at : Text → WindowRect → Manager P → Manager P
  place_at id r m = update_size id r.width r.height (update_position id r.x r.y m)

  -- `handleMouseDown`, and the start of `handleResizeStart`
  pub grab : Bool → WindowState P → FrameState P → FrameState P
  grab is_mobile win f =
      if is_mobile || win.maximized then f else record f { manager = focus_window win.id f.manager }

  -- `handleMouseMove` of a drag; the pointer was at `x0` and `y0`.
  pub drag_move : Viewport → WindowState P → ℤ → ℤ → ℤ → ℤ → FrameState P → FrameState P
  drag_move v win x0 y0 x y f =
      let place = drag_position v (rect_of_window win) (x -ℤ x0) (y -ℤ y0) in
      let area = get_work_area v in
      record f {
        manager = update_position win.id place.0 place.1 f.manager;
        snap_preview = elim (get_snap_target area x y) [
          | none ↦ none
          | some target ↦ some (get_snap_rect area target)
        ];
      }

  -- `handleMouseUp` of a drag
  abbrev drop_at : WindowRect → WindowState P → Option SnapTarget → FrameState P → FrameState P
  drop_at area win none f = f
  drop_at area win (some SnapTarget.maximize) f = record f {
    prev_rect = some (rect_of_window win);
    manager = toggle_maximize win.id f.manager;
  }
  drop_at area win (some target) f = record f {
    manager = place_at win.id (get_snap_rect area target) f.manager;
  }

  pub drag_end : Viewport → WindowState P → ℤ → ℤ → FrameState P → FrameState P
  drag_end v win x y f =
      drop_at (get_work_area v) win (get_snap_target (get_work_area v) x y)
        (record f { snap_preview = none })

  -- `handleMouseMove` of a resize
  pub resize_move : ResizeDir → WindowState P → ℤ → ℤ → FrameState P → FrameState P
  resize_move dir win dx dy f = record f {
    manager = place_at win.id (resize_rect dir (rect_of_window win) dx dy) f.manager;
  }

  -- `handleTitleDoubleClick` and `handleMaximizeClick`, which do the same.
  abbrev restore : Viewport → Text → Option WindowRect → Manager P → Manager P
  restore v id none m = m
  restore v id (some r) m = place_at id (clamp_window_rect r (get_work_area v)) m

  pub maximize_click : Bool → Viewport → WindowState P → FrameState P → FrameState P
  maximize_click is_mobile v win f =
      let restored = toggle_maximize win.id (restore v win.id f.prev_rect f.manager) in
      if is_mobile then f else if win.maximized then record f { manager = restored } else record f {
        prev_rect = some (rect_of_window win);
        manager = toggle_maximize win.id f.manager;
      }

  -- `focusedWindowId`: the highest of the visible windows, the later one of two that are level.
  abbrev higher : WindowState P → WindowState P → WindowState P
  higher a b = if ltb b.z_index a.z_index then a else b

  abbrev highest : WindowState P → List (WindowState P) → WindowState P
  highest a [] = a
  highest a (b ∷ bs) = highest (higher a b) bs

  abbrev highest_id : List (WindowState P) → Option Text
  highest_id [] = none
  highest_id (a ∷ bs) = some (WindowState.id (highest a bs))

  pub focused_window_id : List (WindowState P) → Option Text
  focused_window_id windows = highest_id (filter (λ win. not win.minimized) windows)

  -- `displayZIndex`
  pub display_z_index : WindowState P → ℕ
  display_z_index win = if win.maximized then min win.z_index 20 else win.z_index
