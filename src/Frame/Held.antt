-- ===== src/Frame/Held.antt =====
-- What dragging and resizing keep.
use volum.Base.{
  ◌+ℤ◌, ◌-ℤ◌, ◌≤ℤ◌, min_ℤ, max_ℤ, ℤ, pos, +ℤ_parts, -ℤ_parts, eq_of_parts, min_ℤ_lem, max_ℤ_lem, ℕ,
  ◌≤◌, ◌≡◌, refl, ◌⊎◌, inl, inr, Bool, true, false, arith,
}
use volum.Frame.{
  ResizeDir, resized, resize_rect, drag_position, min_edge_distance, has_east, has_west, has_north,
  has_south,
}
use volum.Window.{Viewport, WindowRect, min_window_w, min_window_h}

-- A side with its edges at `start` and `start + size`, after a move by `d`: if the first edge is held
-- by the pointer, the second stays; if the second one is, the first stays; if neither is, both stay.
-- The edge that is held follows the pointer, unless the side has its least size.
abbrev pub IsHeld : Bool → Bool → ℕ → ℤ → ℤ → ℤ → ℤ × ℤ → Type 0
IsHeld far true least start size d r =
    (r.0 +ℤ r.1 ≡ start +ℤ size) × ((r.0 ≡ start +ℤ d) ⊎ (r.1 ≡ pos least))
IsHeld true false least start size d r =
    (r.0 ≡ start) × ((r.0 +ℤ r.1 ≡ start +ℤ size +ℤ d) ⊎ (r.1 ≡ pos least))
IsHeld false false least start size d r = (r.0 ≡ start) × (r.1 ≡ size)

resized-IsHeld :
    (far near : Bool) (least : ℕ) (start size d : ℤ)
    → IsHeld far near least start size d (resized far near least start size d)
unfolding resized
resized-IsHeld far true least start size d =
    let m = max_ℤ (pos least) (size -ℤ d) in
    let (above, over, least_of) = max_ℤ_lem (pos least) (size -ℤ d) in
    let moved = -ℤ_parts (start +ℤ size) m in
    let end = +ℤ_parts start size in
    (
      eq_of_parts _ _ (omega (arith, +ℤ_parts (start +ℤ size -ℤ m) m, moved)),
      elim least_of [
        | inl le ↦ inr (eq_of_parts _ _ (omega (arith, above, le)))
        | inr le ↦ inl (
            eq_of_parts _ _
              (omega (arith, over, le, moved, end, -ℤ_parts size d, +ℤ_parts start d)))
      ],
    )
resized-IsHeld true false least start size d =
    let m = max_ℤ (pos least) (size +ℤ d) in
    let (above, over, least_of) = max_ℤ_lem (pos least) (size +ℤ d) in
    let end = +ℤ_parts start size in
    let follow = +ℤ_parts (start +ℤ size) d in
    (
      refl,
      elim least_of [
        | inl le ↦ inr (eq_of_parts _ _ (omega (arith, above, le)))
        | inr le ↦ inl (
            eq_of_parts _ _
              (omega (arith, over, le, +ℤ_parts start m, end, follow, +ℤ_parts size d)))
      ],
    )
resized-IsHeld false false least start size d = (refl, refl)

resized-least :
    (far near : Bool) (least : ℕ) (start size d : ℤ)
    → pos least ≤ℤ size
    → pos least ≤ℤ (resized far near least start size d).1
unfolding resized
resized-least far true least start size d h = (max_ℤ_lem (pos least) (size -ℤ d)).0
resized-least true false least start size d h = (max_ℤ_lem (pos least) (size +ℤ d)).0
resized-least false false least start size d h = h

-- Resizing a window that is large enough by some of its edges: in each direction, the edge that is
-- held follows the pointer unless the window has its least size there, the other one stays, and both
-- stay where none is held; the window stays large enough.
pub resize_rect-IsHeld :
    (dir : ResizeDir) (start : WindowRect) (dx dy : ℤ)
    → pos min_window_w ≤ℤ start.width
    → pos min_window_h ≤ℤ start.height
    → let r = resize_rect dir start dx dy in
      IsHeld (has_east dir) (has_west dir) min_window_w start.x start.width dx (r.x, r.width)
      × IsHeld (has_south dir) (has_north dir) min_window_h start.y start.height dy (r.y, r.height)
      × (pos min_window_w ≤ℤ r.width)
      × (pos min_window_h ≤ℤ r.height)
unfolding resize_rect
resize_rect-IsHeld dir start dx dy h k = (
  resized-IsHeld (has_east dir) (has_west dir) min_window_w start.x start.width dx,
  resized-IsHeld (has_south dir) (has_north dir) min_window_h start.y start.height dy,
  resized-least (has_east dir) (has_west dir) min_window_w start.x start.width dx h,
  resized-least (has_south dir) (has_north dir) min_window_h start.y start.height dy k,
)

-- A window that is dragged reaches at least 80 pixels into the browser's window from its left and
-- from its right side, where both are that wide.
pub drag_position-IsReachable :
    (v : Viewport) (start : WindowRect) (dx dy : ℤ)
    → 80 ≤ v.inner_width
    → pos min_edge_distance ≤ℤ start.width
    → let place = drag_position v start dx dy in
      (pos min_edge_distance ≤ℤ place.0 +ℤ start.width)
      × (place.0 +ℤ pos min_edge_distance ≤ℤ pos v.inner_width)
unfolding drag_position
drag_position-IsReachable v start dx dy h k =
    let reach = pos min_edge_distance -ℤ start.width in
    let edge = pos v.inner_width -ℤ pos min_edge_distance in
    let x = min_ℤ edge (start.x +ℤ dx) in
    let place = max_ℤ reach x in
    (
      omega (
        arith,
        max_ℤ_lem reach x,
        -ℤ_parts (pos min_edge_distance) start.width,
        +ℤ_parts place start.width,
      ),
      omega (
        arith,
        h,
        k,
        max_ℤ_lem reach x,
        min_ℤ_lem edge (start.x +ℤ dx),
        -ℤ_parts (pos min_edge_distance) start.width,
        -ℤ_parts (pos v.inner_width) (pos min_edge_distance),
        +ℤ_parts place (pos min_edge_distance),
      ),
    )
