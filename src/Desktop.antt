-- ===== src/Desktop.antt =====
-- The icons of the desktop: frontend/src/hooks/useDesktopIcons.tsx. The pictures are left out; what
-- a click calls is a value. Coordinates are integers.
pub mod Order
pub mod Drag
pub mod Shown
mod Tests
use volum.Base.{
  ltb, if◌then◌else◌, or_else, length, take, drop, get_last?, filter, find, Text, codes, text_eq,
  includes, is_empty, split, ◌-ℤ◌, leb_ℤ, ℤ, pos, print, ℕ, suc, Bool, true, false, ◌||◌, not,
  Option, none, some, List, [], ◌∷◌, ◌++◌, map, index_of,
}
use volum.Paths.{slash}
use volum.Services.{ServiceShortcut}

pub data IconType : Type 0 where
  drives trash settings jobs files storage_analyzer folder_shortcut service_shortcut : IconType

pub data Click : Type 0 where
  show_my_pc navigate_to_trash open_settings open_jobs open_files open_storage_analyzer : Click
  navigate_to : Text → Click
  open_service : ServiceShortcut → Click

pub record DesktopIconItem : Type 0 where
  pub id : Text
  pub type : IconType
  pub label : Text
  pub aria_label : Text
  pub on_click : Click
  pub badge : Option ℕ

-- `n > 0 ? n : undefined`
abbrev badge_of : ℕ → Option ℕ
badge_of n = if ltb 0 n then some n else none

abbrev item : Text → IconType → Text → Text → Click → Option ℕ → DesktopIconItem
item id type label aria_label on_click badge = record {
  id = id;
  type = type;
  label = label;
  aria_label = aria_label;
  on_click = on_click;
  badge = badge;
}

abbrev pub fixed_items : ℕ → ℕ → List DesktopIconItem
fixed_items trash_count active_transfer_count =
    item (codes "drives") IconType.drives (codes "Drives") (codes "Show Drives") Click.show_my_pc
      none
    ∷ item (codes "trash") IconType.trash (codes "Trash")
        (codes "Open Trash"
          ++ (if ltb 0 trash_count
              then codes ", " ++ print trash_count ++ codes " items"
              else codes ", empty"))
        Click.navigate_to_trash (badge_of trash_count)
    ∷ item (codes "settings") IconType.settings (codes "Settings") (codes "Open Settings")
        Click.open_settings none
    ∷ item (codes "jobs") IconType.jobs (codes "Jobs")
        (codes "Open Jobs"
          ++ (if ltb 0 active_transfer_count
              then codes ", " ++ print active_transfer_count ++ codes " active"
              else codes ", no active jobs"))
        Click.open_jobs (badge_of active_transfer_count)
    ∷ item (codes "files") IconType.files (codes "Files") (codes "Open Files") Click.open_files none
    ∷ item (codes "storage-analyzer") IconType.storage_analyzer (codes "Space")
        (codes "Open Storage Analyzer") Click.open_storage_analyzer none
    ∷ []

-- `path.split('/').filter(Boolean).pop() || path`
abbrev pub shortcut_name : Text → Text
shortcut_name path = or_else (get_last? (filter (λ p. not (is_empty p)) (split slash path))) path

abbrev pub favorite_item : Text → DesktopIconItem
favorite_item path =
    item (codes "fav-" ++ path) IconType.folder_shortcut (shortcut_name path)
      (codes "Open folder " ++ shortcut_name path) (Click.navigate_to path) none

abbrev pub service_item : ServiceShortcut → DesktopIconItem
service_item svc =
    item (codes "svc-" ++ svc.id) IconType.service_shortcut svc.name (codes "Open " ++ svc.name)
      (Click.open_service svc) none

-- The items before they are ordered.
abbrev pub items : ℕ → ℕ → List Text → List ServiceShortcut → List DesktopIconItem
items trash_count active_transfer_count favorites services =
    fixed_items trash_count active_transfer_count
    ++ map favorite_item favorites
    ++ map service_item services

abbrev pub ids_of : List DesktopIconItem → List Text
ids_of items = map DesktopIconItem.id items

-- `items.find((i) => i.id === id)`
abbrev pub find_item : Text → List DesktopIconItem → Option DesktopIconItem
find_item id [] = none
find_item id (i ∷ is) = if text_eq i.id id then some i else find_item id is

abbrev pub cons_item : Option DesktopIconItem → List DesktopIconItem → List DesktopIconItem
cons_item none is = is
cons_item (some i) is = i ∷ is

-- The loop over `order`.
abbrev pub ordered_items : List DesktopIconItem → List Text → List DesktopIconItem
ordered_items items [] = []
ordered_items items (id ∷ order) = cons_item (find_item id items) (ordered_items items order)

-- `iconItems`
unfoldable pub icon_items : List Text → List DesktopIconItem → List DesktopIconItem
icon_items icon_order items =
    let order = filter (λ id. includes (ids_of items) id) icon_order in
    ordered_items items order
    ++ filter (λ i. not (includes (ids_of (ordered_items items order)) i.id)) items

-- `next.splice(i, 1)` and `next.splice(i, 0, id)`
abbrev pub remove_at : ℕ → List Text → List Text
remove_at i ids = take i ids ++ drop (suc i) ids

abbrev pub insert_at : ℕ → Text → List Text → List Text
insert_at i id ids = take i ids ++ id ∷ drop i ids

-- The new order of the icons; missing where the source is not among them.
unfoldable pub moved : Text → Option ℕ → Option ℕ → List Text → Option (List Text)
moved source_id none target ids = none
moved source_id (some src) target ids =
    let next = remove_at src ids in some (insert_at (or_else target (length next)) source_id next)

-- The state of the hook.
pub record TouchDrag : Type 0 where
  pub start_x : ℤ
  pub start_y : ℤ
  pub dragging : Bool
  pub drag_id : Text

pub record Desktop : Type 0 where
  pub icon_order : List Text
  pub drag_id : Option Text
  pub drop_target : Option Text
  pub long_press_item : Option Text
  pub touch_drag : Option TouchDrag

abbrev pub initial : List Text → Desktop
initial order = record {
  icon_order = order;
  drag_id = none;
  drop_target = none;
  long_press_item = none;
  touch_drag = none;
}

abbrev pub end_drag : Desktop → Desktop
end_drag d = record d { drag_id = none; drop_target = none }

abbrev pub set_icon_order : Option (List Text) → Desktop → Desktop
set_icon_order none d = d
set_icon_order (some order) d = record d { icon_order = order }

pub drag_start : Text → Desktop → Desktop
drag_start id d = record d { drag_id = some id }

pub drag_over : Text → Desktop → Desktop
drag_over id d = record d { drop_target = some id }

pub drag_leave : Desktop → Desktop
drag_leave d = record d { drop_target = none }

pub drag_end : Desktop → Desktop
drag_end d = end_drag d

-- `handleDrop`, with the identifier that the event carries.
unfoldable pub handle_drop : List Text → Text → Text → Desktop → Desktop
unfolding moved
handle_drop ids source_id target_id d =
    if is_empty source_id || text_eq source_id target_id
    then end_drag d
    else end_drag
        (set_icon_order (moved source_id (index_of source_id ids) (index_of target_id ids) ids) d)

-- `handleItemTouchStart`
pub touch_start : Text → ℤ → ℤ → Desktop → Desktop
touch_start id x y d = record d {
  long_press_item = some id;
  touch_drag = some (record { start_x = x; start_y = y; dragging = false; drag_id = id });
}

abbrev far : ℤ → ℤ → Bool
far a b = not (leb_ℤ (a -ℤ b) (pos 10)) || not (leb_ℤ (b -ℤ a) (pos 10))

abbrev other_than : Text → Option Text → Option Text
other_than id none = none
other_than id (some target) = if is_empty target || text_eq target id then none else some target

-- `handleItemTouchMove`, with the icon under the finger.
unfoldable pub touch_moved : ℤ → ℤ → Option Text → Option TouchDrag → Desktop → Desktop
touch_moved x y target none d = d
touch_moved x y target (some t) d =
    if t.dragging
    then record d { drop_target = other_than t.drag_id target }
    else if far x t.start_x || far y t.start_y
    then record d {
      touch_drag = some (record t { dragging = true });
      long_press_item = none;
      drag_id = some t.drag_id;
      drop_target = none;
    }
    else d

unfoldable pub touch_move : ℤ → ℤ → Option Text → Desktop → Desktop
unfolding touch_moved
touch_move x y target d = touch_moved x y target d.touch_drag d

abbrev pub dropped_on : List Text → Text → Option Text → Option (List Text)
dropped_on ids drag_id none = none
dropped_on ids drag_id (some target) =
    if is_empty drag_id || is_empty target || text_eq drag_id target
    then none
    else moved drag_id (index_of drag_id ids) (index_of target ids) ids

-- `handleItemTouchEnd`, with the icon under the finger.
unfoldable pub touch_ended : List Text → Option Text → Option TouchDrag → Desktop → Desktop
unfolding moved
touch_ended ids target none d = d
touch_ended ids target (some t) d =
    if t.dragging
    then end_drag
        (set_icon_order (dropped_on ids t.drag_id target) (record d { touch_drag = none }))
    else record d { touch_drag = none }

unfoldable pub touch_end : List Text → Option Text → Desktop → Desktop
unfolding touch_ended
touch_end ids target d = touch_ended ids target d.touch_drag d

-- `onLongPress`: the item whose menu is opened.
unfoldable pub long_press : Desktop → Option Text × Desktop
long_press d = (d.long_press_item, record d { long_press_item = none })
