-- ===== src/Selection/Toggle.antt =====
-- A click with the control or the meta key on an item of the trash.
use volum.Base.{
  if◌then◌else◌, Bool-cases, filter, Text, text_eq, includes, text_eq_iff, includes-append,
  and_of_text_eq, text_eq_comm, ◌≡◌, refl, ap, inl, inr, true, false, ◌&&◌, ◌||◌, not, List, [],
  ◌∷◌, arith,
}
use volum.Entries.{TrashEntry}
use volum.Selection.{Selection, Keys, toggle, plain_click, after_shift, select_trash_item}

includes-filter_ne :
    (id : Text) (ids : List Text) (a : Text)
    → includes (filter (λ i. not (text_eq i id)) ids) a ≡ (includes ids a && not (text_eq a id))
unfolding includes
includes-filter_ne id [] a = refl
includes-filter_ne id (i ∷ ids) a =
    ground (arith, includes-filter_ne id ids a, and_of_text_eq (λ x. not (text_eq x id)) i a)

includes_of_text_eq :
    (ids : List Text) (x a : Text) → text_eq x a ≡ true → includes ids x ≡ includes ids a
includes_of_text_eq ids x a h = ap (λ t. includes ids t) ((text_eq_iff x a).0 h)

includes-toggle :
    (id : Text) (ids : List Text) (a : Text)
    → includes (toggle id ids) a ≡ (if text_eq a id then not (includes ids a) else includes ids a)
unfolding toggle includes
includes-toggle id ids a = elim (Bool-cases (text_eq a id)) [
  | inl e ↦ ground (
    arith,
    e,
    includes-filter_ne id ids a,
    includes-append ids (id ∷ []) a,
    text_eq_comm a id,
    includes_of_text_eq ids a id e,
  )
  | inr e ↦
      ground
        (arith, e, includes-filter_ne id ids a, includes-append ids (id ∷ []) a, text_eq_comm a id)
]

-- A click without the shift key but with another modifier key changes whether the item that
-- is clicked is selected, and no other item.
includes-select_trash_item :
    (es : List TrashEntry) (entry : TrashEntry) (keys : Keys) (s : Selection) (a : Text)
    → keys.shift ≡ false
    → (keys.meta || keys.ctrl) ≡ true
    → includes (Selection.selected_trash_ids (select_trash_item es entry keys s)) a ≡ (
        if text_eq a entry.id
        then not (includes s.selected_trash_ids a)
        else includes s.selected_trash_ids a)
unfolding select_trash_item after_shift plain_click
includes-select_trash_item es entry keys s a h k =
    rw (h, k) (includes-toggle entry.id s.selected_trash_ids a)
