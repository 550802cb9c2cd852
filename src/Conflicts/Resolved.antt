-- ===== src/Conflicts/Resolved.antt =====
-- What is submitted.
use volum.Base.{
  if◌then◌else◌, Option-cases, is_some, all, All, All-imp, Text, text_eq, includes, text_eq_iff,
  text_eq_refl, ◌≡◌, refl, ap, ◌∙◌, inl, inr, Bool, true, some, List, [], ◌∷◌, map, arith,
}
use volum.Conflicts.{
  ConflictResolution, ConflictItem, Conflicts, resolution_of, with_resolution, set_item_resolution,
  all_with, apply, all_resolved, can_submit, resolved_items, handle_submit,
}

names-resolved_items :
    (resolutions : List (Text × ConflictResolution)) (items : List ConflictItem)
    → all (λ (item : ConflictItem). is_some (resolution_of resolutions item.id)) items ≡ true
    → map (λ (r : Text × ConflictResolution). r.0) (resolved_items resolutions items)
      ≡ map (λ (item : ConflictItem). item.id) items
unfolding resolved_items
names-resolved_items resolutions [] h = refl
names-resolved_items resolutions (item ∷ items) h =
    elim (Option-cases (resolution_of resolutions item.id)) [
      | inl e ↦ ground (arith, h, e)
      | inr (r, e) ↦ rw e (
          ap (λ ids. item.id ∷ ids) (names-resolved_items resolutions items (ground (arith, h, e))))
    ]

-- The resolutions that are submitted name each conflict once, in the order of the list.
handle_submit-can_submit :
    (c : Conflicts)
    → can_submit c ≡ true
    → map (λ (r : Text × ConflictResolution). r.0) (handle_submit c).0
      ≡ map (λ (item : ConflictItem). item.id) c.conflicts
unfolding can_submit all_resolved handle_submit
handle_submit-can_submit c h = names-resolved_items c.resolutions c.conflicts (ground (arith, h))

resolution_of-with_resolution :
    (id other : Text) (r : ConflictResolution) (rest : List (Text × ConflictResolution))
    → resolution_of (with_resolution id r rest) other
      ≡ (if text_eq id other then some r else resolution_of rest other)
unfolding resolution_of with_resolution
resolution_of-with_resolution id other r [] = refl
resolution_of-with_resolution id other r ((key, s) ∷ rest) = ground (
  arith,
  text_eq_iff key id,
  text_eq_iff key other,
  text_eq_iff id other,
  resolution_of-with_resolution id other r rest,
)

resolution_of-all_with :
    (r : ConflictResolution) (items : List ConflictItem) (rest : List (Text × ConflictResolution))
    (id : Text)
    → resolution_of (all_with r items rest) id ≡ (
        if includes (map (λ (item : ConflictItem). item.id) items) id
        then some r
        else resolution_of rest id)
unfolding all_with includes
resolution_of-all_with r [] rest id = refl
resolution_of-all_with r (item ∷ items) rest id =
    resolution_of-all_with r items (with_resolution item.id r rest) id
    ∙ rw (resolution_of-with_resolution item.id id r rest) (ground arith)

All-included :
    (items : List ConflictItem)
    → All
        (λ (item : ConflictItem).
          includes (map (λ (other : ConflictItem). other.id) items) item.id ≡ true)
        items
unfolding includes
All-included [] = tt
All-included (item ∷ items) = (
  rw (text_eq_refl item.id) refl,
  All-imp _ _ (λ other h. ground (arith, h)) items (All-included items),
)

resolved_items_of :
    (resolutions : List (Text × ConflictResolution)) (g : Text → ConflictResolution)
    (items : List ConflictItem)
    → All (λ (item : ConflictItem). resolution_of resolutions item.id ≡ some (g item.id)) items
    → resolved_items resolutions items ≡ map (λ (item : ConflictItem). (item.id, g item.id)) items
unfolding resolved_items
resolved_items_of resolutions g [] h = refl
resolved_items_of resolutions g (item ∷ items) h =
    rw (h.0) (ap (λ rest. (item.id, g item.id) ∷ rest) (resolved_items_of resolutions g items h.1))

all_of_All :
    (p : ConflictItem → Bool) (items : List ConflictItem)
    → All (λ (item : ConflictItem). p item ≡ true) items
    → all p items ≡ true
all_of_All p [] h = refl
all_of_All p (item ∷ items) h = rw (h.0) (all_of_All p items h.1)

if_some :
    (id : Text) (s r : ConflictResolution) (item : ConflictItem)
    → (if text_eq id item.id then some s else some r) ≡ some (if text_eq id item.id then s else r)
if_some id s r item = ground arith

-- "Apply" resolves each conflict by the chosen default, so that the dialog can be submitted; a
-- conflict that is resolved by hand afterwards gets that resolution, and no other one changes.
pub handle_submit-apply :
    (c : Conflicts) (r s : ConflictResolution) (id : Text)
    → c.default_resolution ≡ some r
    → (all_resolved (apply c) ≡ true)
      × ((handle_submit (set_item_resolution id s (apply c))).0
          ≡ map
              (λ (item : ConflictItem). (item.id, if text_eq id item.id then s else r))
              c.conflicts)
unfolding all_resolved apply handle_submit set_item_resolution
handle_submit-apply c r s id e =
    let applied_to = all_with r c.conflicts [] in
    let applied_all : All (λ (item : ConflictItem). resolution_of applied_to item.id ≡ some r)
        c.conflicts =
      All-imp _ _ (λ item h. resolution_of-all_with r c.conflicts [] item.id ∙ rw h refl)
        c.conflicts (All-included c.conflicts) in
    rw e (
      all_of_All _ c.conflicts (All-imp _ _ (λ item h. rw h refl) c.conflicts applied_all),
      resolved_items_of (with_resolution id s applied_to)
          (λ other. if text_eq id other then s else r) c.conflicts
          (All-imp _ _
            (λ item h.
              resolution_of-with_resolution id item.id s applied_to ∙ rw h (if_some id s r item))
            c.conflicts applied_all),
    )
