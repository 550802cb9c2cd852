-- ===== src/Commands.antt =====
-- The commands on the files of a window: frontend/src/hooks/useFileCommands.ts, with
-- useArchiveCommands.ts, useTrashCommands.ts and useUploadCommands.ts beside it, and the submission
-- of frontend/src/components/overlay/TextInputDialog.tsx. The server's answers are arguments;
-- copying and moving are those of Transfer.
pub mod Run
pub mod Files
pub mod Archives
pub mod Uploads
pub mod Keyboard
pub mod Partial
pub mod Guarded
pub mod Trip
mod Tests
use volum.Base.{Text, ℕ, Bool, false, not, Option, none, some, List, [], ◌∷◌, ◌++◌}
use volum.Entries.{TrashEntry, FileEntry}
use volum.Transfer.{Transfers, Toast, ToastVariant}
use volum.Jobs.{Job}

-- `RenameState`, where it is not `null`.
pub record Renaming : Type 0 where
  pub path : Text
  pub value : Text

-- `ConfirmDialogState`, by what `onConfirm` does.
pub data Confirm : Type 0 where
  move_to_trash : List FileEntry → Confirm
  download : FileEntry → Confirm
  delete_permanently : TrashEntry → Confirm

-- `TextInputDialogState`, by what `onSubmit` does; the text is the initial value.
pub data TextInput : Type 0 where
  new_folder new_file : TextInput
  create_archive extract_archive generate_checksum : FileEntry → Text → TextInput

-- `UploadProgress`
pub record UploadProgress : Type 0 where
  pub filename : Text
  pub received : ℕ
  pub total : ℕ

-- What the hook sets, the calls of `refresh` and the paths that are opened in a tab.
pub record CommandState : Type 0 where
  pub error : Option Text
  pub refreshes : ℕ
  pub renaming : Option Renaming
  pub selected_paths : List Text
  pub last_selected_path : Option Text
  pub selected_trash_ids : List Text
  pub last_selected_trash_id : Option Text
  pub transfers : Transfers
  pub confirm_dialog : Option Confirm
  pub text_input_dialog : Option TextInput
  pub preview_entry : Option FileEntry
  pub info_entry : Option FileEntry
  pub batch_rename_open : Bool
  pub trash_entries : List TrashEntry
  pub trash_context_menu : Option TrashEntry
  pub files_empty_menu : Bool
  pub upload_progress : Option UploadProgress
  pub jobs : List Job
  pub opened : List Text

abbrev pub initial : CommandState
initial = record {
  error = none;
  refreshes = 0;
  renaming = none;
  selected_paths = [];
  last_selected_path = none;
  selected_trash_ids = [];
  last_selected_trash_id = none;
  transfers = record {
    context_menu = none;
    transfer_dialog = none;
    file_clipboard = none;
    toasts = [];
  };
  confirm_dialog = none;
  text_input_dialog = none;
  preview_entry = none;
  info_entry = none;
  batch_rename_open = false;
  trash_entries = [];
  trash_context_menu = none;
  files_empty_menu = false;
  upload_progress = none;
  jobs = [];
  opened = [];
}

-- `showToastObj`
abbrev pub show_toast : Text → Option Text → ToastVariant → CommandState → CommandState
show_toast title message variant s = record s {
  transfers = record s.transfers {
    toasts =
        s.transfers.toasts ++ record { title = title; message = message; variant = variant } ∷ [];
  };
}

-- `setContextMenu(null)`
abbrev pub close_menu : CommandState → CommandState
close_menu s = record s { transfers = record s.transfers { context_menu = none } }

-- The only selected entry.
abbrev pub only_one : List FileEntry → Option FileEntry
only_one [] = none
only_one (e ∷ []) = some e
only_one (e ∷ f ∷ es) = none
