-- ===== src/Destination/Tests.antt =====
-- A copy to two folders, one of which has the entries already.
use volum.Base.{
  if◌then◌else◌, Text, codes, text_eq, includes, is_space, drop_while, drop_end_while, trim, split,
  ◌≡◌, refl, Bool, true, false, some, List, [], ◌∷◌, ◌++◌, map,
}
use volum.Entries.{FileEntry, FileType}
use volum.Paths.{slash}
use volum.Destination.{
  ConflictPolicy, Destination, Fate, initial, conflict_fate, handle_preview, items_of,
  existing_names,
}
use volum.Destination.Fates.{listing_of, is_in_one, handle_preview-fates}
use volum.Transfer.{Mode, TransferDialog, destinations_of}

program : Unit {0}
unfolding initial destinations_of handle_preview items_of existing_names conflict_fate text_eq trim
    drop_while drop_end_while is_space split includes
program = tt

abbrev entry : Text → Bool → FileEntry
entry name hidden = record {
  name = name;
  path = codes "/data/" ++ name;
  type = FileType.file;
  size = 1;
  modified_at = [];
  permissions = [];
  owner = [];
  group = [];
  hidden = hidden;
}

abbrev dialog : TransferDialog
dialog = record {
  mode = Mode.copy;
  entries = entry (codes "a.txt") false ∷ entry (codes ".env") true ∷ [];
  initial_destination = slash ∷ [];
}

abbrev to_two : Destination
to_two = record (initial dialog) {
  destination = codes "/backup|/data2/";
  conflict_policy = ConflictPolicy.overwrite;
}

abbrev folders : Text → List FileEntry
folders dest =
    if text_eq dest (codes "/data2")
    then entry (codes "a.txt") false ∷ entry (codes ".env") true ∷ []
    else []

-- The hidden entry is called new although the folder has it.
hidden_is_new :
    (handle_preview (listing_of folders) dialog to_two).preview_items
    ≡ some ((codes "a.txt", Fate.overwritten) ∷ (codes ".env", Fate.new_file) ∷ [])
unfolding program
hidden_is_new = refl

handle_preview-fates_example :
    (handle_preview (listing_of folders) dialog to_two).preview_items
    ≡ some (
        map
          (λ (e : FileEntry). (
            e.name,
            if is_in_one folders (destinations_of to_two.destination) e.name
                then conflict_fate to_two.conflict_policy
                else Fate.new_file,
          ))
          dialog.entries)
unfolding program
handle_preview-fates_example = handle_preview-fates folders dialog to_two refl
