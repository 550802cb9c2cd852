-- ===== src/Trash/Range.antt =====
-- What a click on an item of the trash selects.
use volum.Base.{
  Bool, leb, get_elem?, get_last?, filter, Text, includes, IsDistinct, ℕ, min, max, ◌≡◌, ap, ◌∙◌,
  true, false, ◌&&◌, ◌||◌, not, some, [], map, arith, between, index_of-get_elem?, includes-between,
  includes-filter_text, add_texts, includes-add_texts,
}
use volum.Trash.{select_item, TrashView, add_between, shift_select, invert_selection_trash}
use volum.Selection.{Keys}
use volum.Entries.{TrashEntry}

-- A click with the shift key, when the item that was selected last is listed, keeps the selection
-- and adds exactly the items from that one to the clicked one in the order of the server's list.
includes-select_item_shift :
    (i j k : ℕ) (a e : Text) (b : TrashEntry) (keys : Keys) (v : TrashView)
    → IsDistinct (map TrashEntry.id v.trash_entries)
    → get_last? v.selected_trash_ids ≡ some a
    → get_elem? (map TrashEntry.id v.trash_entries) i ≡ some a
    → get_elem? (map TrashEntry.id v.trash_entries) j ≡ some b.id
    → get_elem? (map TrashEntry.id v.trash_entries) k ≡ some e
    → keys.shift ≡ true
    → (keys.ctrl || keys.meta) ≡ false
    → includes (TrashView.selected_trash_ids (select_item keys b v)) e
      ≡ (includes v.selected_trash_ids e || (leb (min i j) k && leb k (max i j)))
unfolding select_item shift_select add_between
includes-select_item_shift i j k a e b keys v d last p q r shift plain =
    let ids = map TrashEntry.id v.trash_entries in
    rw (plain, shift, last, index_of-get_elem? ids i a d p, index_of-get_elem? ids j b.id d q)
      (includes-add_texts (between ids i j) v.selected_trash_ids e
        ∙ ap (λ t. includes v.selected_trash_ids e || t) (includes-between ids i j k e d r))

-- Inverting the selection twice gives the selected items that are still listed.
includes-invert_selection_trash_twice :
    (v : TrashView) (id : Text)
    → includes (TrashView.selected_trash_ids (invert_selection_trash (invert_selection_trash v))) id
      ≡ (includes (map TrashEntry.id v.trash_entries) id && includes v.selected_trash_ids id)
unfolding invert_selection_trash includes
includes-invert_selection_trash_twice v id =
    let ids = map TrashEntry.id v.trash_entries in
    let listed = add_texts ids [] in
    let q : Text → Bool = λ i. not (includes v.selected_trash_ids i) in
    includes-filter_text (λ i. not (includes (filter q listed) i)) listed id
    ∙ rw (includes-filter_text q listed id, includes-add_texts ids [] id) (ground arith)
