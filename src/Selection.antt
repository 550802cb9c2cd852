-- ===== src/Selection.antt =====
-- The selection of files and of trash items: frontend/src/hooks/useSelection.ts.
-- The entries that the hook is given are arguments of the handlers; a handler runs on the state
-- of the last rendering.
pub mod Invert
pub mod Range
pub mod Toggle
use volum.Base.{
  ltb, ◌==◌, if◌then◌else◌, length, take, drop, get_last?, filter, Text, text_eq, includes,
  is_empty, ℕ, suc, ◌+◌, ◌-◌, Bool, true, false, ◌&&◌, ◌||◌, not, Option, none, some, List, [], ◌∷◌,
  ◌++◌, map,
}
use volum.Entries.{FileType, is_file, FileEntry, TrashEntry}
use volum.Archive.{is_archive_file}

pub record Selection : Type 0 where
  pub selected_paths : List Text
  pub last_selected_path : Option Text
  pub selected_trash_ids : List Text
  pub last_selected_trash_id : Option Text

abbrev pub initial : Selection
initial = record {
  selected_paths = [];
  last_selected_path = none;
  selected_trash_ids = [];
  last_selected_trash_id = none;
}

-- `selectedEntries`
unfoldable pub selected_entries : List FileEntry → Selection → List FileEntry
selected_entries filtered_entries s =
    filter (λ e. includes s.selected_paths e.path) filtered_entries

-- `setSelectedPaths(next); setLastSelectedPath(last of next)`
abbrev pub select_paths : Selection → List Text → Selection
select_paths s next_paths = record s {
  selected_paths = next_paths;
  last_selected_path = get_last? next_paths;
}

unfoldable pub select_all : List FileEntry → Selection → Selection
select_all filtered_entries s = select_paths s (map FileEntry.path filtered_entries)

unfoldable pub invert_selection : List FileEntry → Selection → Selection
invert_selection filtered_entries s =
    select_paths s
      (map FileEntry.path (filter (λ e. not (includes s.selected_paths e.path)) filtered_entries))

-- `handleFileClick` and `handleWorkspaceClick`; the test is `event.target === event.currentTarget`.
pub background_click : Bool → Selection → Selection
background_click on_background s =
    if not on_background then s else record s { selected_paths = []; last_selected_path = none }

-- `handleContextMenuEvent`: `shouldSelect` and the new state.
pub context_menu_event : FileEntry → Bool → Selection → Bool × Selection
context_menu_event entry renaming s =
    if renaming
    then (false, s)
    else if not (includes s.selected_paths entry.path)
    then (true, record s { selected_paths = entry.path ∷ []; last_selected_path = some entry.path })
    else (false, s)

-- The modifier keys of a click.
pub record Keys : Type 0 where
  pub shift : Bool
  pub meta : Bool
  pub ctrl : Bool

abbrev next_index : Option ℕ → Option ℕ
next_index none = none
next_index (some i) = some (suc i)

-- `allEntries.findIndex((e) => e.id === id)`, missing where it is -1.
abbrev pub find_index : Text → List TrashEntry → Option ℕ
find_index id [] = none
find_index id (e ∷ es) = if text_eq e.id id then some 0 else next_index (find_index id es)

-- `allEntries.slice(start, end + 1).map((e) => e.id)` for the two ends in either order.
unfoldable pub trash_range : List TrashEntry → ℕ → ℕ → List Text
trash_range all_entries from to =
    if ltb from to
    then map TrashEntry.id (take (to + 1 - from) (drop from all_entries))
    else map TrashEntry.id (take (from + 1 - to) (drop to all_entries))

-- `from !== -1 && to !== -1`
unfoldable pub range_between : List TrashEntry → Option ℕ → Option ℕ → Option (List Text)
unfolding trash_range
range_between trash_entries none to = none
range_between trash_entries (some from) none = none
range_between trash_entries (some from) (some to) = some (trash_range trash_entries from to)

-- The branch of the shift key: the selected range, missing where the branch does not return.
unfoldable pub shift_range : List TrashEntry → Option Text → Text → Option (List Text)
unfolding range_between
shift_range trash_entries none id = none
shift_range trash_entries (some last) id =
    if is_empty last
    then none
    else range_between trash_entries (find_index last trash_entries) (find_index id trash_entries)

-- `prev.includes(id) ? prev.filter((i) => i !== id) : [...prev, id]`
unfoldable pub toggle : Text → List Text → List Text
toggle id prev = if includes prev id then filter (λ i. not (text_eq i id)) prev else prev ++ id ∷ []

-- `setSelectedTrashIds(ids); setLastSelectedTrashId(last)`
abbrev pub select_trash : Selection → List Text → Option Text → Selection
select_trash s ids last = record s { selected_trash_ids = ids; last_selected_trash_id = last }

-- The branches without the shift key.
unfoldable pub plain_click : Text → Bool → Selection → Selection
unfolding toggle
plain_click id toggles s =
    if toggles
    then select_trash s (toggle id s.selected_trash_ids) (some id)
    else if includes s.selected_trash_ids id && length s.selected_trash_ids == 1
    then select_trash s [] none
    else select_trash s (id ∷ []) (some id)

-- The range where there is one; the last selected item stays.
unfoldable pub after_shift : Text → Bool → Selection → Option (List Text) → Selection
unfolding plain_click
after_shift id toggles s none = plain_click id toggles s
after_shift id toggles s (some ids) = select_trash s ids s.last_selected_trash_id

-- `handleSelectTrashItem`
unfoldable pub select_trash_item : List TrashEntry → TrashEntry → Keys → Selection → Selection
unfolding after_shift shift_range
select_trash_item trash_entries entry keys s =
    after_shift entry.id (keys.meta || keys.ctrl) s
      (if keys.shift then shift_range trash_entries s.last_selected_trash_id entry.id else none)

abbrev pub single : List FileEntry → Bool
single entries = length entries == 1

-- `entries[0]?.type === 'file'`
abbrev pub first_is_file : List FileEntry → Bool
first_is_file [] = false
first_is_file (e ∷ es) = is_file e.type

-- `isArchiveFile(entries[0]?.name ?? '')`
pub first_is_archive : List FileEntry → Bool
unfolding is_archive_file
first_is_archive [] = is_archive_file []
first_is_archive (e ∷ es) = is_archive_file e.name

-- The commands that the selected entries allow.
pub record Allowed : Type 0 where
  pub can_rename : Bool
  pub can_download : Bool
  pub can_delete : Bool
  pub can_copy : Bool
  pub can_move : Bool
  pub can_info : Bool
  pub can_preview : Bool
  pub can_archive : Bool
  pub can_extract : Bool
  pub can_checksum : Bool
  pub can_paste : Bool

unfoldable pub allowed : Bool → List FileEntry → Allowed
unfolding first_is_archive
allowed can_write selected = record {
  can_rename = single selected;
  can_download = single selected;
  can_delete = ltb 0 (length selected);
  can_copy = ltb 0 (length selected);
  can_move = ltb 0 (length selected);
  can_info = single selected;
  can_preview = single selected && first_is_file selected;
  can_archive = single selected;
  can_extract = single selected && first_is_file selected && first_is_archive selected;
  can_checksum = can_write && single selected;
  can_paste = can_write;
}
