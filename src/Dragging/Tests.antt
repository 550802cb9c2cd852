-- ===== src/Dragging/Tests.antt =====
-- The theorems on dragging at concrete files.
use volum.Base.{codes, ◌≡◌, refl, true, false, []}
use volum.Dragging.{Carried, initial, drop_on_folder}
use volum.Dragging.Dropped.{is_upload-drop}

abbrev one_file : Carried
one_file = record { has_files_type = true; file_count = 1; has_directory = false }

is_upload-drop_example : (true ≡ true) × (one_file.has_directory ≡ false)
unfolding drop_on_folder
is_upload-drop_example = is_upload-drop true [] one_file (codes "/d") initial refl
