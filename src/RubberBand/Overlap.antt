-- ===== src/RubberBand/Overlap.antt =====
-- Which files a rectangle selects.
use volum.Base.{◌+ℤ◌, ◌-ℤ◌, min_ℤ, ℤ, ◌≡◌, refl, List, arith}
use volum.RubberBand.{FileEntry, abs_ℤ, Point, Tile, band_rect, selected_by}

right_comm : (a b : ℤ) → min_ℤ a b +ℤ abs_ℤ (b -ℤ a) ≡ min_ℤ b a +ℤ abs_ℤ (a -ℤ b)
unfolding min_ℤ ◌+ℤ◌ ◌-ℤ◌
right_comm a b = ground arith

min_comm : (a b : ℤ) → min_ℤ a b ≡ min_ℤ b a
unfolding min_ℤ
min_comm a b = ground arith

-- Dragging from one point to another selects the same files as dragging back.
selected_by-band_rect :
    (entries : List FileEntry) (tiles : List Tile) (p q : Point)
    → selected_by (band_rect p q) entries tiles ≡ selected_by (band_rect q p) entries tiles
unfolding band_rect
selected_by-band_rect entries tiles p q =
    rw (right_comm p.x q.x, right_comm p.y q.y, min_comm p.x q.x, min_comm p.y q.y) refl
