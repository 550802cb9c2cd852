-- ===== src/Selection/Range.antt =====
-- A click with the shift key on an item of the trash.
use volum.Base.{
  includes-between, between, index_of, index_of-get_elem?, leb, or_else, get_elem?, take, drop,
  Text, includes, IsDistinct, is_empty, ℕ, zero, suc, ◌+◌, ◌-◌, min, max, ◌≡◌, refl, ap, true,
  false, ◌&&◌, some, List, [], ◌∷◌, map,
}
use volum.Entries.{TrashEntry}
use volum.Selection.{
  Selection, Keys, find_index, trash_range, range_between, shift_range, after_shift,
  select_trash_item,
}

abbrev ids : List TrashEntry → List Text
ids es = map TrashEntry.id es

map-take-drop :
    (es : List TrashEntry) (m n : ℕ) → ids (take n (drop m es)) ≡ take n (drop m (ids es))
map-take-drop [] zero zero = refl
map-take-drop [] zero (suc n) = refl
map-take-drop [] (suc m) zero = refl
map-take-drop [] (suc m) (suc n) = refl
map-take-drop (e ∷ es) zero zero = refl
map-take-drop (e ∷ es) zero (suc n) = ap (λ l. e.id ∷ l) (map-take-drop es zero n)
map-take-drop (e ∷ es) (suc m) n = map-take-drop es m n

get_elem?-ids :
    (es : List TrashEntry) (k : ℕ) (e : TrashEntry)
    → get_elem? es k ≡ some e
    → get_elem? (ids es) k ≡ some e.id
get_elem?-ids [] k e h = absurd (cc)
get_elem?-ids (x ∷ es) zero e h = ap (λ o. some (TrashEntry.id (or_else o x))) h
get_elem?-ids (x ∷ es) (suc k) e h = get_elem?-ids es k e h

find_index-index_of : (es : List TrashEntry) (id : Text) → find_index id es ≡ index_of id (ids es)
find_index-index_of [] id = refl
find_index-index_of (x ∷ es) id = rw (find_index-index_of es id) refl

trash_range-between : (es : List TrashEntry) (i j : ℕ) → trash_range es i j ≡ between (ids es) i j
unfolding trash_range between
trash_range-between es i j =
    rw (map-take-drop es i (j + 1 - i), map-take-drop es j (i + 1 - j)) refl

-- A click with the shift key on one item, when another was the last one selected, selects
-- exactly the items from the one to the other, whichever comes first.
includes-select_trash_item_shift :
    (es : List TrashEntry) (i j k : ℕ) (a b e : TrashEntry) (keys : Keys) (s : Selection)
    → IsDistinct (map TrashEntry.id es)
    → get_elem? es i ≡ some a
    → get_elem? es j ≡ some b
    → get_elem? es k ≡ some e
    → s.last_selected_trash_id ≡ some a.id
    → is_empty a.id ≡ false
    → keys.shift ≡ true
    → includes (Selection.selected_trash_ids (select_trash_item es b keys s)) e.id
      ≡ (leb (min i j) k && leb k (max i j))
unfolding select_trash_item after_shift shift_range range_between
includes-select_trash_item_shift es i j k a b e keys s d p q r last full shift =
    rw
      (
        shift,
        last,
        full,
        find_index-index_of es a.id,
        find_index-index_of es b.id,
        index_of-get_elem? (ids es) i a.id d (get_elem?-ids es i a p),
        index_of-get_elem? (ids es) j b.id d (get_elem?-ids es j b q),
        trash_range-between es i j,
      )
      (includes-between (ids es) i j k e.id d (get_elem?-ids es k e r))
