-- ===== src/Picker.antt =====
-- The dialog that picks a folder: frontend/src/components/input/FolderPicker.tsx. The effect on the
-- current folder runs after each change of it; requests are answered in any order.
pub mod Order
pub mod Walk
mod Tests
use volum.Base.{
  leb, ◌==◌, if◌then◌else◌, or_else, length, take, get_last?, filter, Text, codes, text_eq,
  starts_with, is_empty, split, ℕ, ◌+◌, ◌-◌, Bool, true, false, not, Option, none, some, List, [],
  ◌∷◌, ◌++◌, map,
}
use volum.Paths.{slash}
use volum.Derived.{path_parts, join_slash}

-- An entry of an answer: whether it is a folder, and its path.
pub record Listed : Type 0 where
  pub is_directory : Bool
  pub path : Text

pub record Picker : Type 0 where
  pub current_dir : Text
  pub subdirs : List Text
  pub loading : Bool
  pub error : Option Text
  pub history : List Text

-- The end of a request; the entries are missing where the answer has none, and the message where
-- the error is not an `Error`.
pub data Loaded : Type 0 where
  entries : Option (List Listed) → Loaded
  failed : Option Text → Loaded

-- `loadSubdirs`, up to its request, and after it. Nothing tells for which folder an answer is.
unfoldable pub load_subdirs : Picker → Picker
load_subdirs p = record p { loading = true; error = none }

unfoldable pub loaded : Loaded → Picker → Picker
loaded (Loaded.entries es) p = record p {
  subdirs = map (λ e. e.path) (filter (λ e. e.is_directory) (or_else es []));
  loading = false;
}
loaded (Loaded.failed message) p = record p {
  error = some (or_else message (codes "Failed to load folder"));
  subdirs = [];
  loading = false;
}

-- `setCurrentDir`, and the effect where the folder is another one.
unfoldable pub set_current_dir : Text → Picker → Picker
unfolding load_subdirs
set_current_dir path p =
    if text_eq path p.current_dir then p else load_subdirs (record p { current_dir = path })

-- `navigateTo`
unfoldable pub navigate_to : Text → Picker → Picker
unfolding set_current_dir
navigate_to path p = set_current_dir path (record p { history = p.history ++ p.current_dir ∷ [] })

-- `goUp`
unfoldable pub parent_of : Text → Text
parent_of path =
    let parts = path_parts path in
    if leb (length parts) 1
    then (if starts_with path (slash ∷ []) then slash ∷ [] else [])
    else slash ∷ join_slash (take (length parts - 1) parts)

pub go_up : Picker → Picker
go_up p = set_current_dir (parent_of p.current_dir) p

-- `goBack`
abbrev pub back_to : Option Text → Picker → Picker
back_to none p = p
back_to (some path) p =
    set_current_dir path (record p { history = take (length p.history - 1) p.history })

unfoldable pub go_back : Picker → Picker
unfolding set_current_dir
go_back p = back_to (get_last? p.history) p

-- A crumb of the path: the one with the index, unless it is the last.
pub crumb_clicked : ℕ → Picker → Picker
crumb_clicked index p =
    let parts = path_parts p.current_dir in
    if index + 1 == length parts
    then p
    else set_current_dir (slash ∷ join_slash (take (index + 1) parts)) p
