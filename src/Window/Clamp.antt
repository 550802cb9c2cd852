-- ===== src/Window/Clamp.antt =====
-- `clampWindowRect`: where a window ends up.
use volum.Base.{◌≡◌, ◌⊎◌, ℤ, pos, ◌+ℤ◌, ◌≤ℤ◌, min_ℤ, max_ℤ, int_laws, eq_of_parts}
use volum.Window.{WindowRect, min_window_w, min_window_h, clamp_window_rect}

-- A rectangle lies in an area.
pub record IsInside (rect area : WindowRect) : Type 0 where
  pub from_left : area.x ≤ℤ rect.x
  pub from_top : area.y ≤ℤ rect.y
  pub to_right : rect.x +ℤ rect.width ≤ℤ area.x +ℤ area.width
  pub to_bottom : rect.y +ℤ rect.height ≤ℤ area.y +ℤ area.height

-- A clamped window lies in the area, whatever the rectangle and the area are.
pub clamp_window_rect-IsInside :
    (rect area : WindowRect) → IsInside (clamp_window_rect rect area) area
unfolding clamp_window_rect
clamp_window_rect-IsInside rect area = record {
  from_left = omega int_laws;
  from_top = omega int_laws;
  to_right = omega int_laws;
  to_bottom = omega int_laws;
}

clamped_size :
    (least length area : ℤ)
    → (least ≤ℤ min_ℤ (max_ℤ least length) area) ⊎ (area ≤ℤ min_ℤ (max_ℤ least length) area)
clamped_size least length area = omega int_laws

WindowRect-path :
    (r s : WindowRect) → r.x ≡ s.x → r.y ≡ s.y → r.width ≡ s.width → r.height ≡ s.height → r ≡ s
WindowRect-path r s p q u v = λ i. record { x = p i; y = q i; width = u i; height = v i }

-- One dimension: a length that is at least the least size, or fills the area, is kept.
min_ℤ-max_ℤ_fits :
    (least length area : ℤ)
    → length ≤ℤ area
    → (least ≤ℤ length) ⊎ (area ≤ℤ length)
    → min_ℤ (max_ℤ least length) area ≡ length
min_ℤ-max_ℤ_fits least length area h k = eq_of_parts _ _ (omega int_laws)

-- One dimension: a position inside is kept.
min_ℤ-max_ℤ_within : (x from to : ℤ) → from ≤ℤ x → x ≤ℤ to → min_ℤ (max_ℤ x from) to ≡ x
min_ℤ-max_ℤ_within x from to h k = eq_of_parts _ _ (omega int_laws)

-- A window that lies in the area, and is of the least size or fills the area in each direction,
-- is left as it is.
pub clamp_window_rect_of_IsInside :
    (rect area : WindowRect)
    → IsInside rect area
    → (pos min_window_w ≤ℤ rect.width) ⊎ (area.width ≤ℤ rect.width)
    → (pos min_window_h ≤ℤ rect.height) ⊎ (area.height ≤ℤ rect.height)
    → clamp_window_rect rect area ≡ rect
unfolding clamp_window_rect
clamp_window_rect_of_IsInside rect area i w h =
    let same_w = min_ℤ-max_ℤ_fits (pos min_window_w) rect.width area.width (omega int_laws) w in
    let same_h = min_ℤ-max_ℤ_fits (pos min_window_h) rect.height area.height (omega int_laws) h in
    WindowRect-path _ _
      (rw same_w (min_ℤ-max_ℤ_within rect.x area.x _ i.from_left (omega int_laws)))
      (rw same_h (min_ℤ-max_ℤ_within rect.y area.y _ i.from_top (omega int_laws))) same_w same_h

clamped_sizes :
    (rect area : WindowRect)
    → ((pos min_window_w ≤ℤ (clamp_window_rect rect area).width)
        ⊎ (area.width ≤ℤ (clamp_window_rect rect area).width))
      × ((pos min_window_h ≤ℤ (clamp_window_rect rect area).height)
          ⊎ (area.height ≤ℤ (clamp_window_rect rect area).height))
unfolding clamp_window_rect
clamped_sizes rect area = (
  clamped_size (pos min_window_w) rect.width area.width,
  clamped_size (pos min_window_h) rect.height area.height,
)

-- Clamping twice is clamping once: a window that was moved into the area stays where it is.
clamp_window_rect_idempotent :
    (rect area : WindowRect)
    → clamp_window_rect (clamp_window_rect rect area) area ≡ clamp_window_rect rect area
clamp_window_rect_idempotent rect area =
    clamp_window_rect_of_IsInside (clamp_window_rect rect area) area
      (clamp_window_rect-IsInside rect area) (clamped_sizes rect area).0 (clamped_sizes rect area).1
