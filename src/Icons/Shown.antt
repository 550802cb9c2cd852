-- ===== src/Icons/Shown.antt =====
-- Which pictures are shown.
use volum.Base.{
  if◌then◌else◌, Bool-cases, if_cases, all, Text, codes, text_eq, includes, starts_with,
  text_eq_refl, ◌≡◌, refl, ap, inl, inr, Bool, true, false, ◌&&◌, not, Option, none, some, List, [],
  ◌∷◌, arith,
}
use volum.Entries.{FileEntry, is_file}
use volum.Icons.Tables.{mimetype_assets, mimetype_aliases, mimetype_map}
use volum.Icons.{
  found, file_icon, inherited_keys, Found, ext, get, find_own, asset_of, find_mimetype_asset_url,
  mimetype_asset_url, has_part, generic_mimetype_icon, pick_icon, picked, mimetype_icon_url,
  or_station, file_type_icon_url,
}

abbrev unknown : Text
unknown = codes "unknown"

-- A picture that there is, and that is not the one for unknown types.
abbrev is_known : Text → Bool
is_known icon = includes mimetype_assets icon && not (text_eq icon unknown)

known_types : all (λ (row : Text × Text). is_known (pick_icon row.1)) mimetype_map ≡ true
unfolding mimetype_map mimetype_aliases mimetype_assets pick_icon find_mimetype_asset_url asset_of
    generic_mimetype_icon mimetype_asset_url has_part text_eq includes starts_with
known_types = refl

unknown_picture : pick_icon unknown ≡ unknown
unfolding mimetype_aliases mimetype_assets pick_icon find_mimetype_asset_url asset_of text_eq
    includes
unknown_picture = refl

unknown_asset : mimetype_asset_url unknown ≡ unknown
unfolding mimetype_aliases mimetype_assets mimetype_asset_url find_mimetype_asset_url asset_of
    text_eq includes
unknown_asset = refl

station_asset : mimetype_asset_url (codes "station") ≡ codes "station"
unfolding mimetype_aliases mimetype_assets mimetype_asset_url find_mimetype_asset_url asset_of
    text_eq includes
station_asset = refl

of_find_own :
    (p : Text → Bool) (rows : List (Text × Text)) (key v : Text)
    → all (λ (row : Text × Text). p row.1) rows ≡ true
    → find_own rows key ≡ some v
    → p v ≡ true
of_find_own p [] key v h e = absurd (cc)
of_find_own p ((k, w) ∷ rows) key v h e = elim (Bool-cases (text_eq k key)) [
  | inl same ↦ ground (arith, h, e, same)
  | inr other ↦ ground (arith, h, e, other, of_find_own p rows key v)
]

or_station_known :
    (is_executable : Bool) (icon : Text)
    → is_known icon ≡ true
    → or_station is_executable icon ≡ icon
or_station_known is_executable icon h =
    let other : text_eq icon unknown ≡ false = ground (arith, h) in rw (unknown_asset, other) refl

-- What is shown for a file: for an extension of the table, a picture that there is and that is not
-- the one for unknown types; for another one, the picture for unknown types, or that for programs if
-- the file may be run; and for the name of something that every object inherits, the code throws.
abbrev pub IsPicture : FileEntry → Found → Option Text → Type 0
IsPicture entry (Found.own m) o = (icon : Text) × (o ≡ some icon) × (is_known icon ≡ true)
IsPicture entry Found.inherited o = o ≡ none
IsPicture entry Found.missing o =
    o ≡ some (if has_part entry.permissions (codes "x") then codes "station" else unknown)

IsPicture-picked :
    (entry : FileEntry) (o : Option Text)
    → find_own mimetype_map (ext entry.name) ≡ o
    → let f = found (ext entry.name) o in
      IsPicture entry f (file_icon (has_part entry.permissions (codes "x")) (picked f))
IsPicture-picked entry (some m) e =
    let known =
      of_find_own (λ m. is_known (pick_icon m)) mimetype_map (ext entry.name) m known_types e in
    (
      pick_icon m,
      ap some (or_station_known (has_part entry.permissions (codes "x")) (pick_icon m) known),
      known,
    )
IsPicture-picked entry none e =
    if_cases
      (λ f. IsPicture entry f (file_icon (has_part entry.permissions (codes "x")) (picked f)))
      (includes inherited_keys (ext entry.name)) (λ h. refl)
      (λ h. rw (unknown_picture, unknown_asset, text_eq_refl unknown, station_asset) refl)

pub file_type_icon_url-IsPicture :
    (entry : FileEntry)
    → is_file entry.type ≡ true
    → IsPicture entry (get mimetype_map (ext entry.name)) (file_type_icon_url entry)
unfolding file_type_icon_url mimetype_icon_url get
file_type_icon_url-IsPicture entry h = rw h (IsPicture-picked entry _ refl)
