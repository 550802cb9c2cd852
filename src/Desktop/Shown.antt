-- ===== src/Desktop/Shown.antt =====
-- Which icons are shown.
use volum.Base.{
  Bool-cases, filter, All, filter-All, Text, codes, text_eq, includes, IsDistinct, text_eq_iff,
  includes-append, ℕ, ◌≡◌, refl, sym, ap, ap₂, ◌∙◌, inl, inr, true, false, ◌||◌, not, some, List,
  [], ◌∷◌, ◌++◌, map, arith, includes-filter_text, All-of_includes, IsDistinct-append,
  IsDistinct-filter_text,
}
use volum.Desktop.{
  items, service_item, ServiceShortcut, favorite_item, find_item, ordered_items, ids_of,
  DesktopIconItem, icon_items,
}

abbrev rest_of : List DesktopIconItem → List Text → List DesktopIconItem
rest_of items order = filter (λ i. not (includes order i.id)) items

ids_of-append : (xs ys : List DesktopIconItem) → ids_of (xs ++ ys) ≡ ids_of xs ++ ids_of ys
ids_of-append [] ys = refl
ids_of-append (x ∷ xs) ys = ap (λ l. x.id ∷ l) (ids_of-append xs ys)

find_item_of_includes :
    (items : List DesktopIconItem) (id : Text)
    → includes (ids_of items) id ≡ true
    → (i : DesktopIconItem) × (find_item id items ≡ some i) × (i.id ≡ id)
unfolding includes
find_item_of_includes [] id h = absurd (ground (arith, h))
find_item_of_includes (i ∷ items) id h = elim (Bool-cases (text_eq i.id id)) [
  | inl e ↦ (i, rw e refl, (text_eq_iff i.id id).0 e)
  | inr e ↦ rw e (find_item_of_includes items id (ground (arith, h, e)))
]

ids_of-ordered_items :
    (items : List DesktopIconItem) (order : List Text)
    → All (λ id. includes (ids_of items) id ≡ true) order
    → ids_of (ordered_items items order) ≡ order
ids_of-ordered_items items [] h = refl
ids_of-ordered_items items (id ∷ order) h =
    let (i, at, e) = find_item_of_includes items id h.0 in
    rw at (ap₂ (λ a rest. a ∷ rest) e (ids_of-ordered_items items order h.1))

ids_of-rest_of :
    (items : List DesktopIconItem) (order : List Text)
    → ids_of (rest_of items order) ≡ filter (λ id. not (includes order id)) (ids_of items)
ids_of-rest_of [] order = refl
ids_of-rest_of (i ∷ items) order = elim (Bool-cases (includes order i.id)) [
  | inl e ↦ rw e (ids_of-rest_of items order)
  | inr e ↦ rw e (ap (λ l. i.id ∷ l) (ids_of-rest_of items order))
]

-- The icons of the saved order that exist come first, then all others in their own order.
pub ids_of-icon_items :
    (order : List Text) (items : List DesktopIconItem)
    → let known = filter (λ id. includes (ids_of items) id) order in
      ids_of (icon_items order items)
      ≡ known ++ filter (λ id. not (includes known id)) (ids_of items)
unfolding icon_items
ids_of-icon_items order items =
    let known = filter (λ id. includes (ids_of items) id) order in
    let same =
      ids_of-ordered_items items known (filter-All (λ id. includes (ids_of items) id) order) in
    ids_of-append (ordered_items items known) _
    ∙ rw same (ap (λ l. known ++ l) (ids_of-rest_of items known))

includes-known :
    (known ids : List Text) (a : Text)
    → All (λ id. includes ids id ≡ true) known
    → includes known a ≡ true
    → includes ids a ≡ true
unfolding includes
includes-known [] ids a h k = absurd (ground (arith, k))
includes-known (x ∷ known) ids a h k = elim (Bool-cases (text_eq x a)) [
  | inl e ↦ ap (λ t. includes ids t) (sym ((text_eq_iff x a).0 e)) ∙ h.0
  | inr e ↦ includes-known known ids a h.1 (ground (arith, k, e))
]

-- Where the saved order has no repetition and the items are distinct, each of them is shown once.
pub icon_items-IsDistinct :
    (order : List Text) (items : List DesktopIconItem)
    → IsDistinct order
    → IsDistinct (ids_of items)
    → IsDistinct (ids_of (icon_items order items))
      × ((id : Text) → includes (ids_of (icon_items order items)) id ≡ includes (ids_of items) id)
icon_items-IsDistinct order items d e =
    let ids = ids_of items in
    let known = filter (λ id. includes ids id) order in
    let others = filter (λ id. not (includes known id)) ids in
    let in_others = includes-filter_text (λ id. not (includes known id)) ids in
    let all_known = filter-All (λ id. includes ids id) order in
    rw (ids_of-icon_items order items) (
      IsDistinct-append known others (IsDistinct-filter_text (λ id. includes ids id) order d)
          (IsDistinct-filter_text (λ id. not (includes known id)) ids e)
          (All-of_includes (λ x. includes others x ≡ false) known
            (λ a k. in_others a ∙ rw k (ground arith))),
      λ id.
          includes-append known others id
          ∙ rw (in_others id) (elim (Bool-cases (includes known id)) [
            | inl k ↦ rw (k, includes-known known ids id all_known k) refl
            | inr k ↦ rw k (ground arith)
          ]),
    )

includes-favorites :
    (paths : List Text) (path : Text)
    → includes (ids_of (map favorite_item paths)) (codes "fav-" ++ path) ≡ includes paths path
unfolding includes text_eq
includes-favorites [] path = refl
includes-favorites (p ∷ paths) path = ap (λ b. text_eq p path || b) (includes-favorites paths path)

favorites-IsDistinct :
    (paths : List Text) → IsDistinct paths → IsDistinct (ids_of (map favorite_item paths))
favorites-IsDistinct [] d = tt
favorites-IsDistinct (p ∷ paths) d =
    (includes-favorites paths p ∙ d.0, favorites-IsDistinct paths d.1)

includes-services :
    (services : List ServiceShortcut) (id : Text)
    → includes (ids_of (map service_item services)) (codes "svc-" ++ id)
      ≡ includes (map ServiceShortcut.id services) id
unfolding includes text_eq
includes-services [] id = refl
includes-services (s ∷ services) id = ap (λ b. text_eq s.id id || b) (includes-services services id)

services-IsDistinct :
    (services : List ServiceShortcut)
    → IsDistinct (map ServiceShortcut.id services)
    → IsDistinct (ids_of (map service_item services))
services-IsDistinct [] d = tt
services-IsDistinct (s ∷ services) d =
    (includes-services services s.id ∙ d.0, services-IsDistinct services d.1)

not_favorite :
    (c : Text) (paths : List Text)
    → ((p : Text) → text_eq (codes "fav-" ++ p) c ≡ false)
    → includes (ids_of (map favorite_item paths)) c ≡ false
unfolding includes
not_favorite c [] h = refl
not_favorite c (p ∷ paths) h = rw (h p) (not_favorite c paths h)

not_service :
    (c : Text) (services : List ServiceShortcut)
    → ((id : Text) → text_eq (codes "svc-" ++ id) c ≡ false)
    → includes (ids_of (map service_item services)) c ≡ false
unfolding includes
not_service c [] h = refl
not_service c (s ∷ services) h = rw (h s.id) (not_service c services h)

favorites_are_not_services :
    (paths : List Text) (services : List ServiceShortcut)
    → All
        (λ x. includes (ids_of (map service_item services)) x ≡ false)
        (ids_of (map favorite_item paths))
unfolding text_eq
favorites_are_not_services [] services = tt
favorites_are_not_services (p ∷ paths) services = (
  not_service (codes "fav-" ++ p) services (λ id. refl),
  favorites_are_not_services paths services,
)

not_shortcut :
    (c : Text) (paths : List Text) (services : List ServiceShortcut)
    → ((p : Text) → text_eq (codes "fav-" ++ p) c ≡ false)
    → ((id : Text) → text_eq (codes "svc-" ++ id) c ≡ false)
    → includes (ids_of (map favorite_item paths ++ map service_item services)) c ≡ false
not_shortcut c paths services h k =
    rw (ids_of-append (map favorite_item paths) (map service_item services)) (
      includes-append (ids_of (map favorite_item paths)) (ids_of (map service_item services)) c
      ∙ rw (not_favorite c paths h, not_service c services k) refl)

items-IsDistinct :
    (trash_count active_count : ℕ) (favorites : List Text) (services : List ServiceShortcut)
    → IsDistinct favorites
    → IsDistinct (map ServiceShortcut.id services)
    → IsDistinct (ids_of (items trash_count active_count favorites services))
unfolding text_eq includes
items-IsDistinct trash_count active_count favorites services d e =
    let not_among : (c : Text)
        → ((p : Text) → text_eq (codes "fav-" ++ p) c ≡ false)
        → ((id : Text) → text_eq (codes "svc-" ++ id) c ≡ false)
        → includes (ids_of (map favorite_item favorites ++ map service_item services)) c ≡ false =
      λ c. not_shortcut c favorites services in
    let shortcuts : IsDistinct (ids_of (map favorite_item favorites ++ map service_item services)) =
      rw (ids_of-append (map favorite_item favorites) (map service_item services)) (
        IsDistinct-append _ _ (favorites-IsDistinct favorites d) (services-IsDistinct services e)
          (favorites_are_not_services favorites services)) in
    let among = ids_of (map favorite_item favorites ++ map service_item services) in
    let files : IsDistinct (codes "files" ∷ codes "storage-analyzer" ∷ among) = (
      not_among (codes "files") (λ p. refl) (λ id. refl),
      (not_among (codes "storage-analyzer") (λ p. refl) (λ id. refl), shortcuts),
    ) in
    let settings : IsDistinct
        (codes "settings" ∷ codes "jobs" ∷ codes "files" ∷ codes "storage-analyzer" ∷ among) =
      (
        not_among (codes "settings") (λ p. refl) (λ id. refl),
        (not_among (codes "jobs") (λ p. refl) (λ id. refl), files),
      ) in
    (
      not_among (codes "drives") (λ p. refl) (λ id. refl),
      (not_among (codes "trash") (λ p. refl) (λ id. refl), settings),
    )

-- Where the favourites are distinct, the services have distinct identifiers and the saved order
-- has no repetition, each icon is shown exactly once.
pub icon_items-items :
    (trash_count active_count : ℕ) (favorites : List Text) (services : List ServiceShortcut)
    → (order : List Text) → IsDistinct favorites
    → IsDistinct (map ServiceShortcut.id services)
    → IsDistinct order
    → let all_items = items trash_count active_count favorites services in
      IsDistinct (ids_of (icon_items order all_items))
      × ((id : Text)
          → includes (ids_of (icon_items order all_items)) id ≡ includes (ids_of all_items) id)
icon_items-items trash_count active_count favorites services order d e o =
    icon_items-IsDistinct order (items trash_count active_count favorites services) o
      (items-IsDistinct trash_count active_count favorites services d e)
