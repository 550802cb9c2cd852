-- ===== src/Dragging/Dropped.antt =====
-- What a drop asks for.
use volum.Base.{
  if◌then◌else◌, Bool-cases, Text, text_eq, is_empty, text_eq_iff, ◌≡◌, refl, ap₂, inl, inr, Bool,
  true, false, ◌||◌, not, Option, none, some, List, [], ◌∷◌, map, arith,
}
use volum.Dragging.{
  FileEntry, DragDrop, Carried, Outcome, upload_dropped_files, file_drag_start, source_entry,
  drop_paths, drop_on_folder, file_area_drop,
}
use volum.Transfer.{Mode}

path-source_entry : (es : List FileEntry) (p : Text) → FileEntry.path (source_entry es p) ≡ p
unfolding source_entry
path-source_entry [] p = refl
path-source_entry (e ∷ es) p = elim (Bool-cases (text_eq e.path p)) [
  | inl h ↦ rw h ((text_eq_iff e.path p).0 h)
  | inr h ↦ rw h (path-source_entry es p)
]

paths-source_entry :
    (es : List FileEntry) (ps : List Text) → map FileEntry.path (map (source_entry es) ps) ≡ ps
paths-source_entry es [] = refl
paths-source_entry es (p ∷ ps) =
    ap₂ (λ a rest. a ∷ rest) (path-source_entry es p) (paths-source_entry es ps)

-- The paths that a transfer names.
abbrev pub IsTransfer : List Text → Text → Mode → Outcome → Type 0
IsTransfer paths folder m (Outcome.transfer dialog) =
    (map FileEntry.path dialog.entries ≡ paths)
    × (dialog.initial_destination ≡ folder)
    × (dialog.mode ≡ m)
IsTransfer paths folder m outcome = ⊥

-- Dragging a file while something is selected, and dropping on a folder, asks for a move of exactly
-- the selected paths in their order, whether or not the file is selected; with no selection it
-- asks for a copy of the file.
drop_on_folder-file_drag_start :
    (can_write : Bool) (shown : List FileEntry) (c : Carried) (folder : Text)
    → (selected : List Text) (entry : FileEntry) (d : DragDrop)
    → let dropped = drop_on_folder can_write shown c folder (file_drag_start selected entry d) in
      IsTransfer
        (if is_empty selected then entry.path ∷ [] else selected)
        folder
        (if is_empty selected then Mode.copy else Mode.move)
        dropped.0
      × (dropped.1.dragging_paths ≡ none)
unfolding drop_on_folder drop_paths file_drag_start
drop_on_folder-file_drag_start can_write shown c folder [] entry d =
    ((paths-source_entry shown (entry.path ∷ []), refl, refl), refl)
drop_on_folder-file_drag_start can_write shown c folder (p ∷ ps) entry d =
    ((paths-source_entry shown (p ∷ ps), refl, refl), refl)

abbrev pub is_upload : Outcome → Bool
is_upload Outcome.upload = true
is_upload outcome = false

upload_dropped_files-is_upload :
    (c : Carried) → is_upload (upload_dropped_files c) ≡ not c.has_directory
unfolding upload_dropped_files
upload_dropped_files-is_upload c = ground arith

drop_paths-is_upload :
    (can_write : Bool) (shown : List FileEntry) (c : Carried) (folder : Text)
    → (o : Option (List Text)) (d : DragDrop)
    → is_upload (drop_paths can_write shown c folder o d).0 ≡ true
    → (can_write ≡ true) × (c.has_directory ≡ false)
unfolding drop_paths
drop_paths-is_upload can_write shown c folder none d h =
    ground (arith, h, upload_dropped_files-is_upload c)
drop_paths-is_upload can_write shown c folder (some []) d h =
    ground (arith, h, upload_dropped_files-is_upload c)
drop_paths-is_upload can_write shown c folder (some (p ∷ ps)) d h = absurd (ground (arith, h))

-- A drop uploads only with the permission to write and without a directory among its items,
-- wherever the files are dropped.
pub is_upload-drop :
    (can_write : Bool) (shown : List FileEntry) (c : Carried) (folder : Text) (d : DragDrop)
    → (is_upload (drop_on_folder can_write shown c folder d).0
        || is_upload (file_area_drop can_write c d).0)
      ≡ true
    → (can_write ≡ true) × (c.has_directory ≡ false)
unfolding drop_on_folder file_area_drop
is_upload-drop can_write shown c folder d h =
    let quiet : DragDrop = record d { drag_over_path = none; dragging_upload = false } in
    elim (Bool-cases (is_upload (drop_paths can_write shown c folder d.dragging_paths quiet).0)) [
      | inl e ↦ drop_paths-is_upload can_write shown c folder d.dragging_paths quiet e
      | inr e ↦ ground (arith, h, e, upload_dropped_files-is_upload c)
    ]
