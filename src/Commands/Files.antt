-- ===== src/Commands/Files.antt =====
-- Creating, renaming, deleting and showing files: frontend/src/hooks/useFileCommands.ts.
use volum.Base.{
  if◌then◌else◌, or_else, Text, codes, text_eq, includes, is_empty, trim, suc, Bool, true, false,
  ◌||◌, not, Option, none, some, List, [], ◌∷◌, ◌++◌,
}
use volum.Entries.{is_file}
use volum.Commands.{
  FileEntry, TrashEntry, CommandState, show_toast, close_menu, only_one, Renaming, Confirm,
  TextInput,
}
use volum.Transfer.{ToastVariant}
use volum.Jobs.Commands.{Answer}
use volum.Commands.Run.{run_action, unchanged, fail}

-- `handleCreateFolder` and `handleCreateFile`
pub create_folder : CommandState → CommandState
create_folder s =
    let closed = close_menu s in record closed { text_input_dialog = some TextInput.new_folder }

pub create_file : CommandState → CommandState
create_file s = record s { files_empty_menu = false; text_input_dialog = some TextInput.new_file }

-- `handleRename`
abbrev rename_entry : Option FileEntry → CommandState → CommandState
rename_entry none s = s
rename_entry (some e) s =
    let closed = close_menu s in
    record closed {
      selected_paths = e.path ∷ [];
      last_selected_path = some e.path;
      renaming = some (record { path = e.path; value = e.name });
    }

unfoldable pub rename : List FileEntry → CommandState → CommandState
rename selected_entries s = rename_entry (only_one selected_entries) s

unfoldable pub cancel_rename : CommandState → CommandState
cancel_rename s = record s { renaming = none }

-- The request of `commitRename`: the path and the new name.
abbrev rename_request : Option Renaming → FileEntry → Option (Text × Text)
rename_request none entry = none
rename_request (some r) entry =
    let next_name = trim r.value in
    if not (text_eq r.path entry.path) || is_empty next_name || text_eq next_name entry.name
    then none
    else some (entry.path, next_name)

abbrev is_renaming : Option Renaming → FileEntry → Bool
is_renaming none entry = false
is_renaming (some r) entry = text_eq r.path entry.path

unfoldable pub commit_rename : FileEntry → CommandState → Option (Text × Text) × CommandState
unfolding trim
commit_rename entry s = (
  rename_request s.renaming entry,
  if is_renaming s.renaming entry then record s { renaming = none } else s,
)

-- Its end, with the path that the server answers; the request of `Undo` is its path and name.
unfoldable pub rename_answered :
    FileEntry → Text → Answer Text → CommandState → Option (Text × Text) × CommandState
rename_answered entry next_name (Answer.answered path) s =
    let shown =
      show_toast (codes "Item renamed") (some (entry.name ++ codes " → " ++ next_name))
        ToastVariant.success s in
    (some (path, entry.name), record shown { error = none; refreshes = suc s.refreshes })
rename_answered entry next_name (Answer.failed message) s =
    (none, fail (codes "Rename failed") (codes "Rename failed") message s)

-- `Undo`
pub undo_rename : Answer (Unit {0}) → CommandState → CommandState
unfolding run_action
undo_rename answer s = run_action (unchanged answer) (some (codes "Rename undone")) s

-- `handleDelete`
unfoldable pub delete : List FileEntry → CommandState → CommandState
delete selected_entries s =
    if is_empty selected_entries
    then s
    else record s { confirm_dialog = some (Confirm.move_to_trash selected_entries) }

-- The awaited calls of `deletePath`: the entries that are deleted, and how the loop ends.
unfoldable pub delete_entries :
    (FileEntry → Answer (Unit {0})) → List FileEntry → List FileEntry × Answer (Unit {0})
delete_entries server [] = ([], Answer.answered tt)
delete_entries server (e ∷ es) =
    let rest = delete_entries server es in
    elim (server e) [
      | Answer.answered done ↦ (e ∷ rest.0, rest.1)
      | Answer.failed message ↦ ([], Answer.failed message)
    ]

-- Then `getTrash`, whose answer is set.
abbrev pub with_trash :
    Answer (Unit {0}) → Answer (Option (List TrashEntry)) → Answer (CommandState → CommandState)
with_trash (Answer.failed message) listing = Answer.failed message
with_trash (Answer.answered done) (Answer.failed message) = Answer.failed message
with_trash (Answer.answered done) (Answer.answered entries) =
    Answer.answered (λ s. record s { trash_entries = or_else entries [] })

-- `onConfirm` of `handleDelete`: the entries that are deleted, and the new state.
unfoldable pub confirm_delete :
    (FileEntry → Answer (Unit {0}))
    → Answer (Option (List TrashEntry))
    → List FileEntry
    → CommandState
    → List FileEntry × CommandState
unfolding delete_entries run_action
confirm_delete server listing entries_to_delete s =
    let deleted = delete_entries server entries_to_delete in
    (deleted.0, run_action (with_trash deleted.1 listing) (some (codes "Queued for trash")) s)

-- `handleRestoreTrash` and `handleDeleteTrash`
pub restore_trash :
    Answer (Unit {0}) → Answer (Option (List TrashEntry)) → CommandState → CommandState
unfolding run_action
restore_trash restored listing s =
    run_action (with_trash restored listing) (some (codes "Restore queued")) s

pub delete_trash : TrashEntry → CommandState → CommandState
delete_trash entry s = record s {
  trash_context_menu = none;
  confirm_dialog = some (Confirm.delete_permanently entry);
}

pub confirm_delete_trash :
    Answer (Unit {0}) → Answer (Option (List TrashEntry)) → CommandState → CommandState
unfolding run_action
confirm_delete_trash deleted listing s =
    run_action (with_trash deleted listing) (some (codes "Item deleted permanently")) s

-- `handleDownload`
abbrev download_entry : Option FileEntry → CommandState → CommandState
download_entry none s = s
download_entry (some e) s = record s { confirm_dialog = some (Confirm.download e) }

abbrev first_of : List FileEntry → Option FileEntry
first_of [] = none
first_of (e ∷ es) = some e

pub handle_download : Option FileEntry → List FileEntry → CommandState → CommandState
handle_download none selected_entries s = download_entry (first_of selected_entries) s
handle_download (some e) selected_entries s = download_entry (some e) s

pub confirm_download : FileEntry → CommandState → CommandState
confirm_download e s = record s { opened = s.opened ++ e.path ∷ [] }

-- `handlePreview`; `isPreviewableFile` is an argument.
abbrev preview_entry_of : (Text → Bool) → Option FileEntry → CommandState → CommandState
preview_entry_of is_previewable none s = s
preview_entry_of is_previewable (some e) s =
    if not (is_file e.type)
    then s
    else if is_previewable e.name
    then record s { preview_entry = some e }
    else record s { confirm_dialog = some (Confirm.download e) }

unfoldable pub preview : (Text → Bool) → List FileEntry → CommandState → CommandState
preview is_previewable selected_entries s =
    preview_entry_of is_previewable (only_one selected_entries) s

-- `handleShowInfo` and `handleBatchRename`
abbrev info_of : Option FileEntry → CommandState → CommandState
info_of none s = s
info_of (some e) s = let closed = close_menu s in record closed { info_entry = some e }

pub show_info : List FileEntry → CommandState → CommandState
show_info selected_entries s = info_of (only_one selected_entries) s

pub batch_rename : CommandState → CommandState
batch_rename s = record s { batch_rename_open = true }

-- `handleTrashContextMenu`
pub trash_context_menu_event : TrashEntry → CommandState → CommandState
trash_context_menu_event entry s =
    if includes s.selected_trash_ids entry.id
    then record s { trash_context_menu = some entry }
    else record s {
      selected_trash_ids = entry.id ∷ [];
      last_selected_trash_id = some entry.id;
      trash_context_menu = some entry;
    }
