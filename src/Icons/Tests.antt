-- ===== src/Icons/Tests.antt =====
-- Pictures of files.
use volum.Base.{Text, codes, text_eq, includes, starts_with, ◌≡◌, refl, false, none, some, [], ◌∷◌}
use volum.Entries.{FileEntry, FileType}
use volum.Icons.Tables.{mimetype_map, mimetype_assets, mimetype_aliases}
use volum.Icons.{
  ext, get, file_type_icon_url, mimetype_icon_url, pick_icon, find_mimetype_asset_url, asset_of,
  mimetype_asset_url, has_part,
}
use volum.Icons.Shown.{IsPicture, file_type_icon_url-IsPicture}

abbrev file : Text → Text → FileEntry
file name permissions = record {
  name = name;
  path = b'/' ∷ name;
  type = FileType.file;
  size = 1;
  modified_at = [];
  permissions = permissions;
  owner = [];
  group = [];
  hidden = false;
}

program : Unit {0}
unfolding file_type_icon_url mimetype_icon_url get ext mimetype_map pick_icon mimetype_aliases
    mimetype_assets find_mimetype_asset_url asset_of mimetype_asset_url has_part text_eq includes
    starts_with
program = tt

icon_of_photo :
    file_type_icon_url (file (codes "photo.JPG") (codes "-rwxr-xr-x")) ≡ some (codes "image-x-jpeg")
unfolding program
icon_of_photo = refl

icon_of_tool :
    file_type_icon_url (file (codes "tool") (codes "-rwxr-xr-x")) ≡ some (codes "station")
unfolding program
icon_of_tool = refl

no_icon : file_type_icon_url (file (codes "a.constructor") (codes "-rw-r--r--")) ≡ none
unfolding program
no_icon = refl

file_type_icon_url-IsPicture_example :
    let entry = file (codes "photo.JPG") (codes "-rwxr-xr-x") in
    IsPicture entry (get mimetype_map (ext entry.name)) (file_type_icon_url entry)
file_type_icon_url-IsPicture_example =
    file_type_icon_url-IsPicture (file (codes "photo.JPG") (codes "-rwxr-xr-x")) refl
