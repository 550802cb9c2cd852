-- ===== src/Icons.antt =====
-- The pictures of files: frontend/src/api/icons.ts. The URL of a picture is its name.
pub mod Tables
pub mod Shown
mod Tests
use Prim.Native.String.{String}
use volum.Base.{
  if◌then◌else◌, or_else, or_option, drop, any, Text, codes, text_eq, includes, starts_with,
  is_empty, ℕ, ◌+◌, Bool, ◌||◌, not, Option, none, some, List, [], ◌∷◌, map,
}
use volum.Archive.{lower}
use volum.Entries.{FileEntry, FileType, is_file}
use volum.Renaming.{last_dot}
use volum.Icons.Tables.{mimetype_assets, mimetype_aliases, mimetype_map}

-- `ext`; a name is lowered by its letters of ASCII.
unfoldable pub ext : Text → Text
unfolding lower
ext name = elim (last_dot name) [ none ↦ [] | some dot ↦ map lower (drop (dot + 1) name) ]

-- `table[key]` of an object literal: also a key that the object inherits is found. Those without a
-- capital letter are listed.
pub data Found : Type 0 where
  own : Text → Found
  inherited missing : Found

abbrev pub inherited_keys : List Text
inherited_keys = map codes ("constructor" ∷ "__proto__" ∷ [])

abbrev pub find_own : List (Text × Text) → Text → Option Text
find_own [] key = none
find_own ((k, v) ∷ rows) key = if text_eq k key then some v else find_own rows key

abbrev pub found : Text → Option Text → Found
found key (some v) = Found.own v
found key none = if includes inherited_keys key then Found.inherited else Found.missing

unfoldable pub get : List (Text × Text) → Text → Found
get table key = found key (find_own table key)

-- `MIME_ICON_URLS[mimetype]`, for a type that is no inherited key.
unfoldable pub asset_of : Text → Option Text
asset_of mimetype = if includes mimetype_assets mimetype then some mimetype else none

-- `findMimetypeAssetUrl`
unfoldable pub find_mimetype_asset_url : Text → Option Text
unfolding asset_of
find_mimetype_asset_url mimetype =
    or_option (asset_of mimetype)
      (elim (find_own mimetype_aliases mimetype) [ none ↦ none | some alias ↦ asset_of alias ])

-- `mimetypeAssetUrl`; there is a picture for the unknown types.
unfoldable pub mimetype_asset_url : Text → Text
mimetype_asset_url mimetype = or_else (find_mimetype_asset_url mimetype) (codes "unknown")

-- `mimetype.includes(part)`
unfoldable pub has_part : Text → Text → Bool
unfolding starts_with
has_part [] part = is_empty part
has_part (c ∷ cs) part = starts_with (c ∷ cs) part || has_part cs part

abbrev has_one_part : Text → List String → Bool
has_one_part mimetype parts = any (λ part. has_part mimetype (codes part)) parts

-- `genericMimetypeIcon`
unfoldable pub generic_mimetype_icon : Text → Text
unfolding has_part
generic_mimetype_icon mimetype = mimetype_asset_url (
    if starts_with mimetype (codes "image-")
    then codes "image-x-generic"
    else if starts_with mimetype (codes "audio-")
    then codes "audio-x-generic"
    else if starts_with mimetype (codes "video-")
    then codes "video-x-generic"
    else if starts_with mimetype (codes "text-")
    then codes "text-x-generic"
    else if has_one_part mimetype ("spreadsheet" ∷ "excel" ∷ [])
    then codes "x-office-spreadsheet"
    else if has_one_part mimetype ("presentation" ∷ "powerpoint" ∷ [])
    then codes "x-office-presentation"
    else if has_one_part mimetype ("document" ∷ "word" ∷ [])
    then codes "x-office-document"
    else if has_one_part mimetype ("zip" ∷ "compressed" ∷ "tar" ∷ "gzip" ∷ [])
    then codes "application-zip"
    else if has_one_part mimetype ("executable" ∷ "sharedlib" ∷ "octet-stream" ∷ [])
    then codes "application-octet-stream"
    else codes "unknown")

-- `pickIcon`
unfoldable pub pick_icon : Text → Text
pick_icon mimetype = or_else (find_mimetype_asset_url mimetype) (generic_mimetype_icon mimetype)

-- `mimetypeIconUrl`; missing where it throws, as an inherited value has no `startsWith`.
abbrev pub picked : Found → Option Text
picked (Found.own m) = some (pick_icon m)
picked Found.inherited = none
picked Found.missing = some (pick_icon (codes "unknown"))

unfoldable pub mimetype_icon_url : Text → Option Text
mimetype_icon_url filename = picked (get mimetype_map (ext filename))

abbrev pub or_station : Bool → Text → Text
or_station is_executable icon =
    if not (text_eq icon (mimetype_asset_url (codes "unknown")))
    then icon
    else if is_executable
    then mimetype_asset_url (codes "station")
    else icon

abbrev pub file_icon : Bool → Option Text → Option Text
file_icon is_executable none = none
file_icon is_executable (some icon) = some (or_station is_executable icon)

-- `fileTypeIconUrl`; a folder has one picture, in every size.
unfoldable pub file_type_icon_url : FileEntry → Option Text
file_type_icon_url entry =
    if is_file entry.type
    then file_icon (has_part entry.permissions (codes "x")) (mimetype_icon_url entry.name)
    else some (codes "folder")
