-- ===== src/Manager.antt =====
-- The window manager: frontend/src/contexts/WindowManagerProvider.tsx, with the types of
-- frontend/src/contexts/WindowManager.tsx. A window's parameters are of an arbitrary type `P`.
-- An updater given to `setWindows` runs at once, in order; `rendered` is what `windowsRef.current`
-- holds since the last rendering, and `render` is the body of the provider.
pub mod Names
pub mod Consistent
pub mod Stacking
pub mod Placement
mod Tests
use volum.Base.{
  ltb, leb, ◌==◌, if◌then◌else◌, or_else, length, filter, find, any, Text, text_eq, starts_with,
  ◌+ℤ◌, eqb_ℤ, ℤ, pos, print, ℕ, suc, ◌+◌, ◌*◌, ◌%◌, Bool, true, false, ◌&&◌, not, Option, none,
  some, List, [], ◌∷◌, ◌++◌, map, ◌<◌,
}
use volum.Window.{
  WindowRect, Viewport, standard_window_w, standard_window_h, get_work_area, clamp_window_rect,
  get_centered_window_pos,
}

pub record WindowState (P : Type 0) : Type 0 where
  pub id : Text
  pub title : Text
  pub icon : Text
  pub win_type : Text
  pub params : P
  pub x : ℤ
  pub y : ℤ
  pub width : ℤ
  pub height : ℤ
  pub minimized : Bool
  pub maximized : Bool
  pub z_index : ℕ

-- The options of `openWindow` and `toggleWindow`, without the identifier.
pub record WindowOptions (P : Type 0) : Type 0 where
  pub title : Text
  pub icon : Text
  pub win_type : Text
  pub params : P
  pub x : Option ℤ
  pub y : Option ℤ
  pub width : Option ℤ
  pub height : Option ℤ

abbrev pub first_z_index : ℕ
first_z_index = 100

abbrev pub max_z_index : ℕ
max_z_index = 9990

abbrev pub window_offset : ℕ
window_offset = 24

-- The state and the references of the provider; `window_counts` has the newest count first.
pub record Manager (P : Type 0) : Type 0 where
  pub windows : List (WindowState P)
  pub rendered : List (WindowState P)
  pub next_z_index : ℕ
  pub window_counts : List (Text × ℕ)
  pub cascade_index : ℕ
  pub prev_len : ℕ

abbrev pub initial : {P : Type 0} → Manager P
initial = record {
  windows = [];
  rendered = [];
  next_z_index = first_z_index;
  window_counts = [];
  cascade_index = 0;
  prev_len = 0;
}

-- `nextZ`: the number that it returns is `next_z_index` before the call.
pub next_z : ℕ → ℕ
next_z z = if ltb z max_z_index then z + 1 else z

-- `windowCounts.current[windowType] ?? 0`
pub count_of : Text → List (Text × ℕ) → ℕ
count_of t [] = 0
count_of t ((u, n) ∷ counts) = if text_eq u t then n else count_of t counts

-- `${windowType}-${count}`
pub window_id : Text → ℕ → Text
window_id t n = t ++ b'-' ∷ print n

module _ {P : Type 0} where
  abbrev pub has_id : Text → WindowState P → Bool
  has_id i w = text_eq w.id i

  -- `prev.map((w) => (w.id === id ? f(w) : w))`
  unfoldable pub update_window :
      Text → (WindowState P → WindowState P) → List (WindowState P) → List (WindowState P)
  update_window i f ws = map (λ w. if has_id i w then f w else w) ws

  abbrev pub raise : ℕ → WindowState P → WindowState P
  raise z w = record w { minimized = false; z_index = z }

  abbrev pub rect_of : WindowState P → WindowRect
  rect_of w = record { x = w.x; y = w.y; width = w.width; height = w.height }

  abbrev pub place : WindowRect → WindowState P → WindowState P
  place r w = record w { x = r.x; y = r.y; width = r.width; height = r.height }

  abbrev pub new_window : Text → WindowOptions P → WindowRect → ℕ → WindowState P
  new_window i opts r z = record {
    id = i;
    title = opts.title;
    icon = opts.icon;
    win_type = opts.win_type;
    params = opts.params;
    x = r.x;
    y = r.y;
    width = r.width;
    height = r.height;
    minimized = false;
    maximized = false;
    z_index = z;
  }

  -- A rendering: the cascade starts again when the last window has gone.
  pub render : Manager P → Manager P
  render m =
      let restart = length m.windows == 0 && ltb 0 m.prev_len in
      record m {
        rendered = m.windows;
        cascade_index = if restart then 0 else m.cascade_index;
        prev_len = length m.windows;
      }

  -- One window in the resize handler.
  pub clamp_window : WindowRect → WindowState P → WindowState P
  clamp_window area w =
      let r = clamp_window_rect (rect_of w) area in
      if w.maximized
      then w
      else if eqb_ℤ r.x w.x && eqb_ℤ r.y w.y && eqb_ℤ r.width w.width && eqb_ℤ r.height w.height
      then w
      else place r w

  -- `clampWindows`, the resize handler.
  pub clamp_windows : Viewport → Manager P → Manager P
  clamp_windows v m =
      if leb v.inner_width 760
      then m
      else record m { windows = map (clamp_window (get_work_area v)) m.windows }

  -- The rectangle of a window that `openWindow` adds.
  pub open_rect : Viewport → WindowOptions P → WindowRect
  open_rect v opts =
      clamp_window_rect
        (record {
          x = or_else opts.x (pos 100);
          y = or_else opts.y (pos 80);
          width = or_else opts.width (pos standard_window_w);
          height = or_else opts.height (pos standard_window_h);
        })
        (get_work_area v)

  pub open_window : Viewport → Text → WindowOptions P → Manager P → Manager P
  open_window v i opts m =
      let z = m.next_z_index in
      record m {
        windows =
            if any (has_id i) m.windows
            then update_window i (raise z) m.windows
            else m.windows ++ new_window i opts (open_rect v opts) z ∷ [];
        next_z_index = next_z z;
      }

  pub close_window : Text → Manager P → Manager P
  close_window i m = record m { windows = filter (λ w. not (has_id i w)) m.windows }

  pub focus_window : Text → Manager P → Manager P
  focus_window i m =
      let z = m.next_z_index in
      record m { windows = update_window i (raise z) m.windows; next_z_index = next_z z }

  unfoldable pub toggle_minimize : Text → Manager P → Manager P
  toggle_minimize i m = record m {
    windows = update_window i (λ w. record w { minimized = not w.minimized }) m.windows;
  }

  unfoldable pub toggle_maximize : Text → Manager P → Manager P
  toggle_maximize i m = record m {
    windows = update_window i (λ w. record w { maximized = not w.maximized }) m.windows;
  }

  unfoldable pub update_position : Text → ℤ → ℤ → Manager P → Manager P
  update_position i x y m = record m {
    windows = update_window i (λ w. record w { x = x; y = y }) m.windows;
  }

  unfoldable pub update_size : Text → ℤ → ℤ → Manager P → Manager P
  update_size i width height m = record m {
    windows = update_window i (λ w. record w { width = width; height = height }) m.windows;
  }

  -- What `toggleWindow` does to a window that it finds.
  abbrev pub refresh : WindowOptions P → ℕ → WindowState P → WindowState P
  refresh opts z w = record w {
    title = opts.title;
    icon = opts.icon;
    win_type = opts.win_type;
    params = opts.params;
    minimized = false;
    z_index = z;
  }

  -- The rectangle of a new window: centred, each one further down and to the right.
  pub cascade_rect : Viewport → WindowOptions P → ℕ → WindowRect
  cascade_rect v opts ci =
      let width = or_else opts.width (pos standard_window_w) in
      let height = or_else opts.height (pos standard_window_h) in
      let center = get_centered_window_pos v width height in
      let shift = pos (ci % 6 * window_offset) in
      clamp_window_rect
        (record {
          x = or_else opts.x (center.x +ℤ shift);
          y = or_else opts.y (center.y +ℤ shift);
          width = width;
          height = height;
        })
        (get_work_area v)

  -- The branch of `toggleWindow` that finds no window.
  pub toggle_new : Viewport → Text → WindowOptions P → Manager P → Manager P × Text
  toggle_new v t opts m =
      let count = count_of t m.window_counts + 1 in
      let z = m.next_z_index in
      let w = new_window (window_id t count) opts (cascade_rect v opts m.cascade_index) z in
      (
        record m {
          windows = m.windows ++ w ∷ [];
          next_z_index = next_z z;
          window_counts = (t, count) ∷ m.window_counts;
          cascade_index = m.cascade_index + 1;
        },
        window_id t count,
      )

  -- The branch of `toggleWindow` that finds one.
  pub toggle_existing : Text → WindowOptions P → Manager P → Manager P × Text
  toggle_existing i opts m =
      let z = m.next_z_index in
      (
        record m { windows = update_window i (refresh opts z) m.windows; next_z_index = next_z z },
        i,
      )

  abbrev pub of_type : Text → WindowState P → Bool
  of_type t w = starts_with w.id (t ++ b'-' ∷ [])

  pub toggle_window : Viewport → Text → WindowOptions P → Manager P → Manager P × Text
  toggle_window v t opts m = elim (find (of_type t) m.rendered) [
    | some w ↦ toggle_existing w.id opts m
    | none ↦ toggle_new v t opts m
  ]
