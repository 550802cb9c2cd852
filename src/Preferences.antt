-- ===== src/Preferences.antt =====
-- How a folder is shown: frontend/src/hooks/useViewPreferences.ts. What `useLocalStorage` keeps is
-- part of the state. A handler runs on the state of the last rendering.
pub mod Restore
use volum.Base.{
  if◌then◌else◌, or_else, Text, text_eq, is_empty, Bool, false, ◌&&◌, not, Option, none, some, List,
  [], ◌∷◌,
}

pub data ViewMode : Type 0 where
  list grid : ViewMode

pub data SortField : Type 0 where
  name size type modified_at : SortField

pub data SortDirection : Type 0 where
  asc desc : SortDirection

-- What was stored for a folder.
pub record FolderPref : Type 0 where
  pub view_mode : Option ViewMode
  pub sort_field : Option SortField
  pub sort_direction : Option SortDirection

pub record Preferences : Type 0 where
  pub current_path : Text
  pub view_mode : ViewMode
  pub sort_field : SortField
  pub sort_direction : SortDirection
  pub show_hidden : Bool
  pub folder_prefs : List (Text × FolderPref)

abbrev pub initial : Preferences
initial = record {
  current_path = [];
  view_mode = ViewMode.grid;
  sort_field = SortField.name;
  sort_direction = SortDirection.asc;
  show_hidden = false;
  folder_prefs = [];
}

-- `folderPrefs[path]`
unfoldable pub pref_of : List (Text × FolderPref) → Text → Option FolderPref
pref_of [] path = none
pref_of (p ∷ ps) path = if text_eq p.0 path then some p.1 else pref_of ps path

-- `{ viewMode, sortField, sortDirection }`
abbrev pub shown_pref : Preferences → FolderPref
shown_pref p = record {
  view_mode = some p.view_mode;
  sort_field = some p.sort_field;
  sort_direction = some p.sort_direction;
}

-- `{ ...prev, [path]: ... }`
abbrev pub save_pref : Text → FolderPref → List (Text × FolderPref) → List (Text × FolderPref)
save_pref path pref prev = (path, pref) ∷ prev

-- What was stored is shown, field by field.
abbrev pub apply_pref : Option FolderPref → Preferences → Preferences
apply_pref none p = p
apply_pref (some prefs) p = record p {
  view_mode = or_else prefs.view_mode p.view_mode;
  sort_field = or_else prefs.sort_field p.sort_field;
  sort_direction = or_else prefs.sort_direction p.sort_direction;
}

-- `navigateToPath`
unfoldable pub navigate_to_path : Text → Preferences → Preferences
unfolding pref_of
navigate_to_path path p =
    let shown = apply_pref (pref_of p.folder_prefs path) p in
    record shown {
      current_path = path;
      folder_prefs =
          if not (is_empty p.current_path) && not (text_eq p.current_path path)
          then save_pref p.current_path (shown_pref p) p.folder_prefs
          else p.folder_prefs;
    }

-- The effect after a rendering.
unfoldable pub save_effect : Preferences → Preferences
save_effect p =
    if is_empty p.current_path
    then p
    else record p { folder_prefs = save_pref p.current_path (shown_pref p) p.folder_prefs }

-- `setViewMode`, `setSortField` and `setSortDirection`
pub set_view : ViewMode → SortField → SortDirection → Preferences → Preferences
set_view mode field direction p = record p {
  view_mode = mode;
  sort_field = field;
  sort_direction = direction;
}
