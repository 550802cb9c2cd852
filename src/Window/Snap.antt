-- ===== src/Window/Snap.antt =====
-- `getSnapTarget` and `getSnapRect`: the targets cover the work area.
use volum.Base.{
  ◌≡◌, ◌↔◌, refl, false, none, ℤ, pos, ◌+ℤ◌, ◌-ℤ◌, ◌≤ℤ◌, arith, int_laws, round_half,
  round_half_lem, eq_of_parts,
}
use volum.Window.{
  SnapTarget, maximize, left, right, top_left, top_right, bottom_left, bottom_right, WindowRect,
  Viewport, get_work_area, near_left, near_right, near_top, get_snap_target, get_snap_rect,
}
use volum.Window.Clamp.{IsInside}

-- The work area begins at the left edge, and is no smaller than nothing.
pub record IsWorkArea (area : WindowRect) : Type 0 where
  pub from_left : pos 0 ≤ℤ area.x
  pub at_left : area.x ≤ℤ pos 0
  pub wide : pos 0 ≤ℤ area.width
  pub high : pos 0 ≤ℤ area.height

pub get_work_area-IsWorkArea : (v : Viewport) → IsWorkArea (get_work_area v)
unfolding get_work_area
get_work_area-IsWorkArea v = ground arith

module _ (area : WindowRect) (w : IsWorkArea area) where
  snap-IsInside : (t : SnapTarget) → IsInside (get_snap_rect area t) area
  unfolding get_snap_rect
  snap-IsInside maximize = omega int_laws
  snap-IsInside left = omega (int_laws, round_half_lem area.width)
  snap-IsInside right = omega (int_laws, round_half_lem area.width)
  snap-IsInside top_left = omega (int_laws, round_half_lem area.width, round_half_lem area.height)
  snap-IsInside top_right = omega (int_laws, round_half_lem area.width, round_half_lem area.height)
  snap-IsInside bottom_left =
      omega (int_laws, round_half_lem area.width, round_half_lem area.height)
  snap-IsInside bottom_right =
      omega (int_laws, round_half_lem area.width, round_half_lem area.height)

-- Every snapped window lies in the work area, whatever the size of the browser's window.
get_snap_rect-IsInside :
    (v : Viewport) (t : SnapTarget) → IsInside (get_snap_rect (get_work_area v) t) (get_work_area v)
get_snap_rect-IsInside v = snap-IsInside (get_work_area v) (get_work_area-IsWorkArea v)

-- The second rectangle begins where the first one ends, at the same height.
abbrev pub IsBeside : WindowRect → WindowRect → Type 0
IsBeside r s = (r.x +ℤ r.width ≡ s.x) × (r.y ≡ s.y) × (r.height ≡ s.height)

abbrev pub IsBelow : WindowRect → WindowRect → Type 0
IsBelow r s = (r.y +ℤ r.height ≡ s.y) × (r.x ≡ s.x) × (r.width ≡ s.width)

-- Two rectangles fill an area from its left to its right edge, and so do four of them in rows.
pub record IsTiling (area l r tl tr bl br : WindowRect) : Type 0 where
  pub halves : IsBeside l r
  pub upper : IsBeside tl tr
  pub lower : IsBeside bl br
  pub left_column : IsBelow tl bl
  pub right_column : IsBelow tr br
  pub starts : (l.x ≡ area.x) × (tl.x ≡ area.x) × (tl.y ≡ area.y) × (l.y ≡ area.y)
  pub ends_right :
      (r.x +ℤ r.width ≡ area.x +ℤ area.width) × (tr.x +ℤ tr.width ≡ area.x +ℤ area.width)
  pub ends_below : bl.y +ℤ bl.height ≡ area.y +ℤ area.height
  pub full_height : l.height ≡ area.height

beside : (x h : ℤ) → x ≤ℤ pos 0 → pos 0 ≤ℤ x → x +ℤ h ≡ h
beside x h p q = eq_of_parts _ _ (omega int_laws)

rest : (x w h : ℤ) → x ≤ℤ pos 0 → pos 0 ≤ℤ x → h +ℤ (w -ℤ h) ≡ x +ℤ w
rest x w h p q = eq_of_parts _ _ (omega int_laws)

below : (y w h : ℤ) → y +ℤ h +ℤ (w -ℤ h) ≡ y +ℤ w
below y w h = eq_of_parts _ _ (omega int_laws)

snap-IsTiling :
    (area : WindowRect)
    → IsWorkArea area
    → IsTiling area
        (get_snap_rect area left)
        (get_snap_rect area right)
        (get_snap_rect area top_left)
        (get_snap_rect area top_right)
        (get_snap_rect area bottom_left)
        (get_snap_rect area bottom_right)
unfolding get_snap_rect
snap-IsTiling area w =
    let next = beside area.x (round_half area.width) w.at_left w.from_left in
    let whole = rest area.x area.width (round_half area.width) w.at_left w.from_left in
    record {
      halves = (next, refl, refl);
      upper = (next, refl, refl);
      lower = (next, refl, refl);
      left_column = (refl, refl, refl);
      right_column = (refl, refl, refl);
      starts = (refl, refl, refl, refl);
      ends_right = (whole, whole);
      ends_below = below area.y area.height (round_half area.height);
      full_height = refl;
    }

-- The left and right halves fill the work area side by side, with no gap and no overlap, and so do
-- the four quarters.
get_snap_rect-IsTiling :
    (v : Viewport)
    → IsTiling
        (get_work_area v)
        (get_snap_rect (get_work_area v) left)
        (get_snap_rect (get_work_area v) right)
        (get_snap_rect (get_work_area v) top_left)
        (get_snap_rect (get_work_area v) top_right)
        (get_snap_rect (get_work_area v) bottom_left)
        (get_snap_rect (get_work_area v) bottom_right)
get_snap_rect-IsTiling v = snap-IsTiling (get_work_area v) (get_work_area-IsWorkArea v)

-- A pointer snaps to nothing exactly when it is near neither side nor the top; the bottom edge by
-- itself snaps to nothing.
get_snap_target-eq-none_iff :
    (area : WindowRect) (x y : ℤ)
    → (get_snap_target area x y ≡ none)
      ↔ ((near_left x ≡ false) × (near_right area x ≡ false) × (near_top area y ≡ false))
unfolding get_snap_target
get_snap_target-eq-none_iff area x y = ground arith
