-- ===== src/Desktop/Drag.antt =====
-- Dragging icons with the mouse and with a finger, in any order of events.
use volum.Base.{
  map, if_cases, Text, text_eq, includes, IsDistinct, is_empty, ℤ, text_eq_iff, text_eq_comm, ℕ,
  zero, suc, ◌≡◌, refl, sym, ap, ◌∙◌, true, false, ◌||◌, Option, none, some, List, [], ◌∷◌, arith,
  next_index, index_of,
}
use volum.Services.{ServiceShortcut}
use volum.Desktop.{
  items, far, end_drag, touch_ended, touch_moved, long_press, touch_start, icon_items, ids_of,
  DesktopIconItem, drag_end, drag_leave, drag_over, drag_start, initial, set_icon_order, touch_end,
  touch_move, Desktop, TouchDrag, dropped_on, handle_drop, insert_at, moved, remove_at,
}
use volum.Desktop.Shown.{icon_items-items, icon_items-IsDistinct}

includes-insert_at :
    (a : Text) (xs : List Text) (i : ℕ) (x : Text)
    → includes xs x ≡ false
    → text_eq a x ≡ false
    → includes (insert_at i a xs) x ≡ false
unfolding includes
includes-insert_at a [] zero x h k = ground (arith, k)
includes-insert_at a [] (suc i) x h k = ground (arith, k)
includes-insert_at a (y ∷ xs) zero x h k = ground (arith, h, k)
includes-insert_at a (y ∷ xs) (suc i) x h k =
    ground (arith, h, includes-insert_at a xs i x (ground (arith, h)) k)

IsDistinct-insert_at :
    (a : Text) (xs : List Text) (i : ℕ)
    → IsDistinct xs
    → includes xs a ≡ false
    → IsDistinct (insert_at i a xs)
unfolding includes
IsDistinct-insert_at a [] zero d h = (refl, tt)
IsDistinct-insert_at a [] (suc i) d h = (refl, tt)
IsDistinct-insert_at a (x ∷ xs) zero d h = (h, d)
IsDistinct-insert_at a (x ∷ xs) (suc i) d h = (
  includes-insert_at a xs i x d.0 (text_eq_comm a x ∙ ground (arith, h)),
  IsDistinct-insert_at a xs i d.1 (ground (arith, h)),
)

includes-remove_at :
    (xs : List Text) (i : ℕ) (x : Text)
    → includes xs x ≡ false
    → includes (remove_at i xs) x ≡ false
unfolding includes
includes-remove_at [] zero x h = refl
includes-remove_at [] (suc i) x h = refl
includes-remove_at (y ∷ xs) zero x h = ground (arith, h)
includes-remove_at (y ∷ xs) (suc i) x h =
    ground (arith, h, includes-remove_at xs i x (ground (arith, h)))

IsDistinct-remove_at : (xs : List Text) (i : ℕ) → IsDistinct xs → IsDistinct (remove_at i xs)
IsDistinct-remove_at [] zero d = tt
IsDistinct-remove_at [] (suc i) d = tt
IsDistinct-remove_at (x ∷ xs) zero d = d.1
IsDistinct-remove_at (x ∷ xs) (suc i) d =
    (includes-remove_at xs i x d.0, IsDistinct-remove_at xs i d.1)

-- Without the element at the index, the text is not in the list.
abbrev Gone : Text → List Text → Option ℕ → Type 0
Gone a xs none = Unit
Gone a xs (some i) = includes (remove_at i xs) a ≡ false

next_index-Gone :
    (a x : Text) (xs : List Text) (o : Option ℕ)
    → text_eq x a ≡ false
    → Gone a xs o
    → Gone a (x ∷ xs) (next_index o)
unfolding includes
next_index-Gone a x xs none h g = tt
next_index-Gone a x xs (some i) h g = rw h g

index_of-Gone : (a : Text) (xs : List Text) → IsDistinct xs → Gone a xs (index_of a xs)
index_of-Gone a [] d = tt
index_of-Gone a (x ∷ xs) d =
    if_cases (Gone a (x ∷ xs)) (text_eq x a)
      (λ e. ap (λ t. includes xs t) (sym ((text_eq_iff x a).0 e)) ∙ d.0)
      (λ e. next_index-Gone a x xs (index_of a xs) e (index_of-Gone a xs d.1))

abbrev IsSaved : Option (List Text) → Type 0
IsSaved none = Unit
IsSaved (some order) = IsDistinct order

moved-IsSaved :
    (a : Text) (source target : Option ℕ) (ids : List Text)
    → IsDistinct ids
    → Gone a ids source
    → IsSaved (moved a source target ids)
unfolding moved
moved-IsSaved a none target ids d g = tt
moved-IsSaved a (some i) target ids d g =
    IsDistinct-insert_at a (remove_at i ids) _ (IsDistinct-remove_at ids i d) g

dropped_on-IsSaved :
    (ids : List Text) (drag_id : Text) (target : Option Text)
    → IsDistinct ids
    → IsSaved (dropped_on ids drag_id target)
dropped_on-IsSaved ids drag_id none d = tt
dropped_on-IsSaved ids drag_id (some t) d =
    if_cases IsSaved (is_empty drag_id || is_empty t || text_eq drag_id t) (λ e. tt)
      (λ e.
        moved-IsSaved drag_id (index_of drag_id ids) (index_of t ids) ids d
          (index_of-Gone drag_id ids d))

-- The events; the items may be others at each of them, as services and favourites change.
pub data Reach : Desktop → Type 0 where
  loaded : (order : List Text) → IsDistinct order → Reach (initial order)
  started : {d : Desktop} → (id : Text) → Reach d → Reach (drag_start id d)
  over : {d : Desktop} → (id : Text) → Reach d → Reach (drag_over id d)
  left : {d : Desktop} → Reach d → Reach (drag_leave d)
  ended : {d : Desktop} → Reach d → Reach (drag_end d)
  dropped :
      {d : Desktop}
      → (items : List DesktopIconItem) (source target : Text) → IsDistinct (ids_of items)
      → Reach d
      → Reach (handle_drop (ids_of (icon_items d.icon_order items)) source target d)
  touched : {d : Desktop} → (id : Text) (x y : ℤ) → Reach d → Reach (touch_start id x y d)
  touch_moves :
      {d : Desktop} → (x y : ℤ) (target : Option Text) → Reach d → Reach (touch_move x y target d)
  touch_ends :
      {d : Desktop}
      → (items : List DesktopIconItem) (target : Option Text) → IsDistinct (ids_of items)
      → Reach d
      → Reach (touch_end (ids_of (icon_items d.icon_order items)) target d)
  pressed : {d : Desktop} → Reach d → Reach (long_press d).1

-- No repetition in the saved order, and no long press once an icon is dragged with a finger.
abbrev pub NoPress : Option Text → Option TouchDrag → Type 0
NoPress press none = Unit
NoPress press (some t) = t.dragging ≡ true → press ≡ none

record IsSound (d : Desktop) : Type 0 where
  order : IsDistinct d.icon_order
  no_press : NoPress d.long_press_item d.touch_drag

end_drag-IsSound :
    (o : Option (List Text)) (d : Desktop)
    → IsSaved o
    → IsSound d
    → IsSound (end_drag (set_icon_order o d))
end_drag-IsSound none d h s = record { order = s.order; no_press = s.no_press }
end_drag-IsSound (some order) d h s = record { order = h; no_press = s.no_press }

NoPress-none : (o : Option TouchDrag) → NoPress none o
NoPress-none none = tt
NoPress-none (some t) = λ _. refl

handle_drop-IsSound :
    (ids : List Text) (source target : Text) (d : Desktop)
    → IsDistinct ids
    → IsSound d
    → IsSound (handle_drop ids source target d)
unfolding handle_drop
handle_drop-IsSound ids source target d e s =
    let saved =
      moved-IsSaved source (index_of source ids) (index_of target ids) ids e
        (index_of-Gone source ids e) in
    if_cases IsSound (is_empty source || text_eq source target)
      (λ _. record { order = s.order; no_press = s.no_press })
      (λ _.
        end_drag-IsSound (moved source (index_of source ids) (index_of target ids) ids) d saved s)

touch_moved-IsSound :
    (x y : ℤ) (target : Option Text) (o : Option TouchDrag) (d : Desktop)
    → IsSound d
    → IsSound (touch_moved x y target o d)
unfolding touch_moved
touch_moved-IsSound x y target none d s = s
touch_moved-IsSound x y target (some t) d s =
    if_cases IsSound t.dragging (λ _. record { order = s.order; no_press = s.no_press })
      (λ _.
        if_cases IsSound (far x t.start_x || far y t.start_y)
          (λ _. record { order = s.order; no_press = λ _. refl }) (λ _. s))

touch_ended-IsSound :
    (ids : List Text) (target : Option Text) (o : Option TouchDrag) (d : Desktop)
    → IsDistinct ids
    → IsSound d
    → IsSound (touch_ended ids target o d)
unfolding touch_ended
touch_ended-IsSound ids target none d e s = s
touch_ended-IsSound ids target (some t) d e s =
    if_cases IsSound t.dragging
      (λ _.
        end_drag-IsSound (dropped_on ids t.drag_id target) (record d { touch_drag = none })
          (dropped_on-IsSaved ids t.drag_id target e) (record { order = s.order; no_press = tt }))
      (λ _. record { order = s.order; no_press = tt })

long_press-IsSound : (d : Desktop) → IsSound d → IsSound (long_press d).1
unfolding long_press
long_press-IsSound d s = record { order = s.order; no_press = NoPress-none d.touch_drag }

Reach-IsSound : {d : Desktop} → Reach d → IsSound d
unfolding touch_move touch_end drag_start drag_over drag_leave drag_end touch_start
Reach-IsSound (Reach.loaded order h) = record { order = h; no_press = tt }
Reach-IsSound (Reach.started id r) =
    let s = Reach-IsSound r in record { order = s.order; no_press = s.no_press }
Reach-IsSound (Reach.over id r) =
    let s = Reach-IsSound r in record { order = s.order; no_press = s.no_press }
Reach-IsSound (Reach.left r) =
    let s = Reach-IsSound r in record { order = s.order; no_press = s.no_press }
Reach-IsSound (Reach.ended r) =
    let s = Reach-IsSound r in record { order = s.order; no_press = s.no_press }
Reach-IsSound (Reach.dropped {d} items source target h r) =
    let s = Reach-IsSound r in
    handle_drop-IsSound (ids_of (icon_items d.icon_order items)) source target d
      (icon_items-IsDistinct d.icon_order items s.order h).0 s
Reach-IsSound (Reach.touched id x y r) =
    let s = Reach-IsSound r in
    record { order = s.order; no_press = λ dragging. absurd (ground (arith, dragging)) }
Reach-IsSound (Reach.touch_moves {d} x y target r) =
    touch_moved-IsSound x y target d.touch_drag d (Reach-IsSound r)
Reach-IsSound (Reach.touch_ends {d} items target h r) =
    let s = Reach-IsSound r in
    touch_ended-IsSound (ids_of (icon_items d.icon_order items)) target d.touch_drag d
      (icon_items-IsDistinct d.icon_order items s.order h).0 s
Reach-IsSound (Reach.pressed {d} r) = long_press-IsSound d (Reach-IsSound r)

-- In every state that is reached, where the favourites are distinct and the services have distinct
-- identifiers, each icon is shown exactly once, and no long press opens a menu once an icon is
-- dragged with a finger.
pub Reach-icon_items :
    {d : Desktop} (trash_count active_count : ℕ) (favorites : List Text)
    → (services : List ServiceShortcut) → Reach d
    → IsDistinct favorites
    → IsDistinct (map ServiceShortcut.id services)
    → let all_items = items trash_count active_count favorites services in
      IsDistinct (ids_of (icon_items d.icon_order all_items))
      × ((id : Text)
          → includes (ids_of (icon_items d.icon_order all_items)) id
            ≡ includes (ids_of all_items) id)
      × NoPress d.long_press_item d.touch_drag
Reach-icon_items {d} trash_count active_count favorites services r e h =
    let s = Reach-IsSound r in
    let shown =
      icon_items-items trash_count active_count favorites services d.icon_order e h s.order in
    (shown.0, shown.1, s.no_press)
