-- ===== src/Selection/Invert.antt =====
-- Selecting everything, inverting, and the entries that are selected.
use volum.Base.{
  filter, All, filter-eq_of_All, filter-of_All, All-imp, Text, text_eq, includes, text_eq_refl,
  and_of_text_eq, ◌≡◌, refl, Bool, true, ◌&&◌, ◌||◌, not, List, [], ◌∷◌, map, arith,
}
use volum.Entries.{FileEntry}
use volum.Selection.{Selection, selected_entries, select_all, invert_selection}

module _ (g : Text → Bool) where
  includes-filter_path :
      (es : List FileEntry) (a : Text)
      → includes (map FileEntry.path (filter (λ e. g e.path) es)) a
        ≡ (includes (map FileEntry.path es) a && g a)
  unfolding includes
  includes-filter_path [] a = refl
  includes-filter_path (e ∷ es) a =
      ground (arith, includes-filter_path es a, and_of_text_eq g e.path a)

-- After inverting, a path is selected exactly when an entry has it and it was not selected.
includes-invert_selection :
    (es : List FileEntry) (s : Selection) (a : Text)
    → includes (Selection.selected_paths (invert_selection es s)) a
      ≡ (includes (map FileEntry.path es) a && not (includes s.selected_paths a))
unfolding invert_selection
includes-invert_selection es s a =
    includes-filter_path (λ p. not (includes s.selected_paths p)) es a

-- The path of each entry is among the paths.
includes-path-All :
    (es : List FileEntry) → All (λ e. includes (map FileEntry.path es) e.path ≡ true) es
unfolding includes
includes-path-All [] = tt
includes-path-All (e ∷ es) = (
  rw (text_eq_refl e.path) refl,
  All-imp (λ x. includes (map FileEntry.path es) x.path ≡ true)
      (λ x. (text_eq e.path x.path || includes (map FileEntry.path es) x.path) ≡ true)
      (λ x h. ground (arith, h)) es (includes-path-All es),
)

-- Inverting twice selects the entries that were selected.
selected_entries-invert_selection_twice :
    (es : List FileEntry) (s : Selection)
    → selected_entries es (invert_selection es (invert_selection es s)) ≡ selected_entries es s
unfolding selected_entries
selected_entries-invert_selection_twice es s =
    let t = invert_selection es s in
    filter-eq_of_All (λ e. includes (Selection.selected_paths (invert_selection es t)) e.path)
      (λ e. includes s.selected_paths e.path) es
      (All-imp (λ e. includes (map FileEntry.path es) e.path ≡ true)
        (λ e.
          includes (Selection.selected_paths (invert_selection es t)) e.path
          ≡ includes s.selected_paths e.path)
        (λ e h.
          ground (
            arith,
            h,
            includes-invert_selection es t e.path,
            includes-invert_selection es s e.path,
          ))
        es (includes-path-All es))

-- After selecting all, the selected entries are all entries.
selected_entries-select_all :
    (es : List FileEntry) (s : Selection) → selected_entries es (select_all es s) ≡ es
unfolding selected_entries select_all
selected_entries-select_all es s =
    filter-of_All (λ e. includes (map FileEntry.path es) e.path) es (includes-path-All es)
