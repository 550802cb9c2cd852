-- ===== src/Dragging.antt =====
-- Dragging files onto folders, and files from outside: frontend/src/hooks/useDragDrop.ts.
-- What an event carries is an argument.
pub mod Dropped
mod Tests
use volum.Base.{
  ltb, if◌then◌else◌, or_else, is_some, drop, get_last?, Text, codes, text_eq, is_empty, or_text,
  split, ℕ, Bool, true, false, ◌&&◌, ◌||◌, not, Option, none, some, List, [], ◌∷◌, map,
}
use volum.Entries.{FileType, FileEntry}
use volum.Paths.{slash}
use volum.Transfer.{Mode, TransferDialog}

pub record DragDrop : Type 0 where
  pub dragging_paths : Option (List Text)
  pub drag_over_path : Option Text
  pub dragging_upload : Bool
  pub is_dragging_selection : Bool

-- The files that an event brings from outside: their number, and whether an item is a directory.
pub record Carried : Type 0 where
  pub has_files_type : Bool
  pub file_count : ℕ
  pub has_directory : Bool

-- What a drop calls: `setTransferDialog`, `handleUploadFiles` or `onUnsupportedDrop`.
pub data Outcome : Type 0 where
  transfer : TransferDialog → Outcome
  upload : Outcome
  unsupported : Text → Outcome
  nothing : Outcome

abbrev pub initial : DragDrop
initial = record {
  dragging_paths = none;
  drag_over_path = none;
  dragging_upload = false;
  is_dragging_selection = false;
}

-- `uploadDroppedFiles`
unfoldable pub upload_dropped_files : Carried → Outcome
upload_dropped_files c =
    if c.has_directory
    then Outcome.unsupported (codes "Folder and app-bundle uploads are not supported yet")
    else Outcome.upload

-- `handleFileDragStart`; `paths === selectedRef.current` exactly where something is selected.
unfoldable pub file_drag_start : List Text → FileEntry → DragDrop → DragDrop
file_drag_start selected entry d = record d {
  dragging_paths = some (if is_empty selected then entry.path ∷ [] else selected);
  is_dragging_selection = not (is_empty selected);
}

pub folder_drag_over : Carried → Text → DragDrop → DragDrop
folder_drag_over c path d =
    if is_some d.dragging_paths || c.has_files_type
    then record d { drag_over_path = some path }
    else d

pub folder_drag_leave : DragDrop → DragDrop
folder_drag_leave d = record d { drag_over_path = none }

abbrev find_path : Text → List FileEntry → Option FileEntry
find_path p [] = none
find_path p (e ∷ es) = if text_eq e.path p then some e else find_path p es

-- `p.split('/').pop() || p`
abbrev last_part : Text → Text
last_part p = or_text (or_else (get_last? (split slash p)) []) p

abbrev stand_in : Text → FileEntry
stand_in p = record {
  name = last_part p;
  path = p;
  type = FileType.file;
  size = 0;
  modified_at = [];
  permissions = [];
  owner = [];
  group = [];
  hidden = false;
}

-- The dragged entries; a path that is not listed is taken as a file.
unfoldable pub source_entry : List FileEntry → Text → FileEntry
source_entry filtered_entries p = or_else (find_path p filtered_entries) (stand_in p)

abbrev pub mode_of : Bool → Mode
mode_of is_dragging_selection = if is_dragging_selection then Mode.move else Mode.copy

-- The branch of files from outside.
abbrev outside : Bool → Carried → Outcome
outside can_write c =
    if can_write && ltb 0 c.file_count then upload_dropped_files c else Outcome.nothing

unfoldable pub drop_paths :
    Bool → List FileEntry → Carried → Text → Option (List Text) → DragDrop → Outcome × DragDrop
unfolding source_entry upload_dropped_files
drop_paths can_write filtered_entries c folder_path none d = (outside can_write c, d)
drop_paths can_write filtered_entries c folder_path (some []) d = (outside can_write c, d)
drop_paths can_write filtered_entries c folder_path (some (p ∷ ps)) d = (
  Outcome.transfer (record {
    mode = mode_of d.is_dragging_selection;
    entries = map (source_entry filtered_entries) (p ∷ ps);
    initial_destination = folder_path;
  }),
  record d { dragging_paths = none },
)

-- `handleDropOnFolder`
unfoldable pub drop_on_folder :
    Bool → List FileEntry → Carried → Text → DragDrop → Outcome × DragDrop
unfolding drop_paths
drop_on_folder can_write filtered_entries c folder_path d =
    drop_paths can_write filtered_entries c folder_path d.dragging_paths
      (record d { drag_over_path = none; dragging_upload = false })

-- `handleFileAreaDragOver` and `handleFileAreaDragLeave`
pub file_area_drag_over : Bool → Carried → DragDrop → DragDrop
file_area_drag_over can_write c d =
    if can_write && c.has_files_type then record d { dragging_upload = true } else d

pub file_area_drag_leave : Bool → DragDrop → DragDrop
file_area_drag_leave still_inside d =
    if still_inside then d else record d { dragging_upload = false }

-- `handleFileAreaDrop`
unfoldable pub file_area_drop : Bool → Carried → DragDrop → Outcome × DragDrop
unfolding upload_dropped_files
file_area_drop can_write c d = (
  (if can_write then upload_dropped_files c else Outcome.nothing),
  record d { dragging_upload = false },
)
