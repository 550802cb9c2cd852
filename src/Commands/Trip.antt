-- ===== src/Commands/Trip.antt =====
-- From a file to its archive and back.
use volum.Base.{Text, ◌≡◌, refl, some, [], ◌∷◌}
use volum.Archive.{archive_base_name, archive_file_name}
use volum.Paths.{join_path}
use volum.Commands.{FileEntry, CommandState, TextInput}
use volum.Commands.Archives.{create_archive, extract_archive}
use volum.Entries.{FileEntry, FileType}
use volum.Archive.Laws.{archive_base_name-archive_file_name, is_archive_file-archive_file_name}

-- The archive that is proposed for an entry, when it is selected in the same folder, is taken as an
-- archive, and the folder that is proposed for what it holds has the base name of the entry.
extract_archive-create_archive :
    (current_path : Text) (e a : FileEntry) (s t : CommandState)
    → a.type ≡ FileType.file
    → a.name ≡ archive_file_name e.name
    → (CommandState.text_input_dialog (create_archive current_path (e ∷ []) s)
        ≡ some (TextInput.create_archive e (join_path current_path a.name)))
      × (CommandState.text_input_dialog (extract_archive current_path (a ∷ []) t)
          ≡ some (TextInput.extract_archive a (join_path current_path (archive_base_name e.name))))
unfolding create_archive extract_archive
extract_archive-create_archive current_path e a s t h k =
    rw (h, k, is_archive_file-archive_file_name e.name, archive_base_name-archive_file_name e.name)
      (refl, refl)
