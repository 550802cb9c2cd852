-- ===== src/Desktop/Tests.antt =====
-- The theorems on the icons of the desktop at concrete icons.
use volum.Base.{Text, codes, includes, IsDistinct, pos, ◌≡◌, refl, none, List, [], ◌∷◌}
use volum.Desktop.{
  Desktop, DesktopIconItem, initial, items, ids_of, icon_items, touch_start, touch_move,
}
use volum.Desktop.Drag.{Reach, NoPress, Reach-icon_items}

abbrev one_favorite : List DesktopIconItem
one_favorite = items 2 0 (codes "/media" ∷ []) []

abbrev dragged : Desktop
dragged =
    touch_move (pos 30) (pos 5) none (touch_start (codes "trash") (pos 5) (pos 5) (initial []))

dragged-Reach : Reach dragged
dragged-Reach =
    Reach.touch_moves (pos 30) (pos 5) none
      (Reach.touched (codes "trash") (pos 5) (pos 5) (Reach.loaded [] tt))

Reach-icon_items_example :
    IsDistinct (ids_of (icon_items dragged.icon_order one_favorite))
    × ((id : Text)
        → includes (ids_of (icon_items dragged.icon_order one_favorite)) id
          ≡ includes (ids_of one_favorite) id)
    × NoPress dragged.long_press_item dragged.touch_drag
unfolding includes
Reach-icon_items_example = Reach-icon_items 2 0 (codes "/media" ∷ []) [] dragged-Reach (refl, tt) tt
