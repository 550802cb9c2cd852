-- ===== src/Commands/Archives.antt =====
-- Archives and checksums: frontend/src/hooks/useArchiveCommands.ts, and `handleSubmit` of
-- frontend/src/components/overlay/TextInputDialog.tsx.
use volum.Base.{
  if◌then◌else◌, Text, codes, text_eq, is_empty, trim, ◌||◌, not, Option, none, some, List, ◌++◌,
}
use volum.Archive.{archive_base_name, is_archive_file, archive_file_name}
use volum.Paths.{normalize_folder_path, join_path}
use volum.Entries.{is_file}
use volum.Commands.{FileEntry, CommandState, TextInput, close_menu, only_one}
use volum.Commands.Run.{run_action, unchanged}
use volum.Jobs.Commands.{Answer}

-- `handleCreateArchive`
abbrev archive_of : Text → Option FileEntry → CommandState → CommandState
archive_of current_path none s = s
archive_of current_path (some e) s =
    let closed = close_menu s in
    record closed {
      text_input_dialog =
          some (TextInput.create_archive e (join_path current_path (archive_file_name e.name)));
    }

unfoldable pub create_archive : Text → List FileEntry → CommandState → CommandState
create_archive current_path selected_entries s =
    archive_of current_path (only_one selected_entries) s

-- `handleExtractArchive`
abbrev extract_of : Text → Option FileEntry → CommandState → CommandState
extract_of current_path none s = s
extract_of current_path (some e) s =
    let closed = close_menu s in
    if not (is_file e.type) || not (is_archive_file e.name) then s else record closed {
      text_input_dialog =
          some (TextInput.extract_archive e (join_path current_path (archive_base_name e.name)));
    }

unfoldable pub extract_archive : Text → List FileEntry → CommandState → CommandState
extract_archive current_path selected_entries s =
    extract_of current_path (only_one selected_entries) s

-- `handleCreateChecksum`
abbrev checksum_of : Option FileEntry → CommandState → CommandState
checksum_of none s = s
checksum_of (some e) s =
    let closed = close_menu s in
    record closed { text_input_dialog = some (TextInput.generate_checksum e (codes "sha256")) }

unfoldable pub create_checksum : List FileEntry → CommandState → CommandState
create_checksum selected_entries s = checksum_of (only_one selected_entries) s

-- `applyFolderSuggestion`
pub apply_folder_suggestion : TextInput → Text → Option Text
apply_folder_suggestion TextInput.new_folder path = none
apply_folder_suggestion TextInput.new_file path = none
apply_folder_suggestion (TextInput.create_archive e value) path =
    some (join_path path (archive_file_name e.name))
apply_folder_suggestion (TextInput.extract_archive e value) path = some (normalize_folder_path path)
apply_folder_suggestion (TextInput.generate_checksum e value) path = none

-- The requests of `onSubmit`.
pub data Request : Type 0 where
  make_folder make_file : Text → Text → Request
  archive extract : Text → Text → Request
  checksum : Text → Text → Request

abbrev verify_mode : (Text → Text) → Text → Text
verify_mode to_lower_case value =
    if text_eq (to_lower_case (trim value)) (codes "md5") then codes "md5" else codes "sha256"

unfoldable pub request_of : (Text → Text) → Text → TextInput → Text → Request
unfolding trim
request_of to_lower_case current_path TextInput.new_folder value =
    Request.make_folder current_path (trim value)
request_of to_lower_case current_path TextInput.new_file value =
    Request.make_file current_path (trim value)
request_of to_lower_case current_path (TextInput.create_archive e initial_value) value =
    Request.archive e.path (trim value)
request_of to_lower_case current_path (TextInput.extract_archive e initial_value) value =
    Request.extract e.path (trim value)
request_of to_lower_case current_path (TextInput.generate_checksum e initial_value) value =
    Request.checksum e.path (verify_mode to_lower_case value)

pub title_of : (Text → Text) → TextInput → Text → Text
unfolding trim
title_of to_lower_case TextInput.new_folder value = codes "Folder created"
title_of to_lower_case TextInput.new_file value = codes "File created"
title_of to_lower_case (TextInput.create_archive e initial_value) value =
    codes "Archive transfer started"
title_of to_lower_case (TextInput.extract_archive e initial_value) value =
    codes "Extract transfer started"
title_of to_lower_case (TextInput.generate_checksum e initial_value) value =
    codes "Checksum (" ++ verify_mode to_lower_case value ++ codes ") transfer started"

-- `handleSubmit` of the dialog: the request; missing where the value is refused.
unfoldable pub submit : (Text → Text) → Text → TextInput → Text → Option Request
unfolding request_of trim
submit to_lower_case current_path dialog value =
    if is_empty (trim value)
    then none
    else some (request_of to_lower_case current_path dialog value)

-- The end of the action of `onSubmit`.
pub submitted : (Text → Text) → TextInput → Text → Answer (Unit {0}) → CommandState → CommandState
unfolding run_action
submitted to_lower_case dialog value answer s =
    run_action (unchanged answer) (some (title_of to_lower_case dialog value))
      (record s { text_input_dialog = none })
