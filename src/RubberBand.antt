-- ===== src/RubberBand.antt =====
-- Selecting with a rectangle: frontend/src/hooks/useRubberBand.ts. Coordinates are integers; the
-- rectangles of the tiles, which the browser measures, are arguments.
pub mod Overlap
use volum.Base.{
  if◌then◌else◌, get_elem?, get_last?, Text, ◌+ℤ◌, ◌-ℤ◌, leb_ℤ, min_ℤ, ℤ, pos, negsuc, ℕ, suc, Bool,
  true, false, ◌&&◌, not, Option, none, some, List, [], ◌∷◌, ◌++◌,
}
use volum.Entries.{FileEntry}

pub record Point : Type 0 where
  pub x : ℤ
  pub y : ℤ

pub record Rect : Type 0 where
  pub left : ℤ
  pub top : ℤ
  pub right : ℤ
  pub bottom : ℤ

-- A tile: its index, and its rectangle in the coordinates of the file area.
pub record Tile : Type 0 where
  pub index : ℕ
  pub rect : Rect

pub record Band : Type 0 where
  pub start : Point
  pub end : Point
  pub active : Bool
  pub style : Option Rect
  pub selected_paths : List Text
  pub last_selected_path : Option Text

-- `Math.abs`
abbrev abs_ℤ : ℤ → ℤ
abs_ℤ (pos n) = pos n
abs_ℤ (negsuc n) = pos (suc n)

-- `bandRect`
unfoldable pub band_rect : Point → Point → Rect
band_rect start end =
    let left = min_ℤ start.x end.x in
    let top = min_ℤ start.y end.y in
    record {
      left = left;
      top = top;
      right = left +ℤ abs_ℤ (end.x -ℤ start.x);
      bottom = top +ℤ abs_ℤ (end.y -ℤ start.y);
    }

abbrev ltb_ℤ : ℤ → ℤ → Bool
ltb_ℤ a b = not (leb_ℤ b a)

unfoldable pub overlaps : Rect → Rect → Bool
overlaps el band =
    ltb_ℤ el.left band.right
    && ltb_ℤ band.left el.right
    && ltb_ℤ el.top band.bottom
    && ltb_ℤ band.top el.bottom

-- The loop over the tiles.
abbrev path_at : List FileEntry → ℕ → List Text
path_at entries i = elim (get_elem? entries i) [ none ↦ [] | some e ↦ e.path ∷ [] ]

unfoldable pub selected_by : Rect → List FileEntry → List Tile → List Text
unfolding overlaps
selected_by band entries [] = []
selected_by band entries (t ∷ ts) =
    (if overlaps t.rect band then path_at entries t.index else []) ++ selected_by band entries ts

-- `handleFileAreaMouseDown`; the test is that of the target, the button and the keys.
pub mouse_down : Bool → Point → Band → Band
unfolding band_rect
mouse_down starts p b = if not starts then b else record b {
  start = p;
  end = p;
  active = true;
  style = some (band_rect p p);
  selected_paths = [];
  last_selected_path = none;
}

-- `setLastSelectedPath` of the last path, where there is one.
abbrev last_or : List Text → Option Text → Option Text
last_or [] last = last
last_or (p ∷ ps) last = get_last? (p ∷ ps)

-- `handleMouseMove`
unfoldable pub mouse_move : List FileEntry → List Tile → Point → Band → Band
unfolding band_rect selected_by
mouse_move entries tiles p b =
    let selected = selected_by (band_rect b.start p) entries tiles in
    if not b.active then b else record b {
      end = p;
      style = some (band_rect b.start p);
      selected_paths = selected;
      last_selected_path = last_or selected b.last_selected_path;
    }

-- `handleMouseUp`
pub mouse_up : Band → Band
mouse_up b = record b { active = false; style = none }
