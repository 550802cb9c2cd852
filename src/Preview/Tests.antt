-- ===== src/Preview/Tests.antt =====
-- Previews of three files.
use volum.Base.{Text, codes, ℕ, ◌≡◌, refl, true, false, List, [], ◌∷◌}
use volum.Preview.{is_image_extension, is_text_extension, can_thumbnail, is_previewable_file}
use volum.Entries.{FileType, FileEntry}

abbrev file : Text → ℕ → FileEntry
file name size = record {
  name = name;
  path = b'/' ∷ name;
  type = FileType.file;
  size = size;
  modified_at = [];
  permissions = [];
  owner = [];
  group = [];
  hidden = false;
}

abbrev logo : FileEntry
logo = file (codes "logo.SVG") 2000000

abbrev photo : FileEntry
photo = file (codes "photo.jpg") 3000

abbrev files : List FileEntry
files = logo ∷ photo ∷ []

program : Unit {0}
unfolding can_thumbnail is_image_extension is_text_extension is_previewable_file
program = tt

previewable_photo : is_previewable_file (codes "photo.JPEG") ≡ true
unfolding program
previewable_photo = refl

not_previewable : is_previewable_file (codes "photo.jpeg.bin") ≡ false
unfolding program
not_previewable = refl
