-- ===== src/Derived.antt =====
-- The values that frontend/src/hooks/useFileBrowser.ts computes from its state, and
-- frontend/src/utils/roots.ts.
pub mod Crumbs
pub mod Roots
mod Tests
use volum.Base.{
  if◌then◌else◌, or_else, length, take, filter, find, Text, includes, starts_with, is_empty, trim,
  split, ℕ, ◌+◌, Bool, ◌&&◌, ◌||◌, not, Option, none, some, List, [], ◌∷◌, ◌++◌, map,
}
use volum.Entries.{FileEntry, RootEntry}
use volum.Paths.{slash, unique_paths}

-- `s.includes(needle)`
unfoldable pub contains : Text → Text → Bool
contains [] needle = is_empty needle
contains (c ∷ s) needle = starts_with (c ∷ s) needle || contains s needle

-- `filteredEntries`; the lower case of a text is the browser's.
unfoldable pub filtered_entries : (Text → Text) → Text → List FileEntry → List FileEntry
unfolding contains
filtered_entries to_lower_case query entries =
    let needle = to_lower_case (trim query) in
    if is_empty needle
    then entries
    else filter (λ e. contains (to_lower_case e.name) needle) entries

pub record Crumb : Type 0 where
  pub label : Text
  pub path : Text

-- `parts.join('/')`
unfoldable pub join_slash : List Text → Text
join_slash [] = []
join_slash (p ∷ []) = p
join_slash (p ∷ q ∷ ps) = p ++ (slash ∷ join_slash (q ∷ ps))

-- `parts.map((part, index) => ...)` from the given index on.
unfoldable pub crumbs_from : List Text → ℕ → List Text → List Crumb
unfolding join_slash
crumbs_from parts index [] = []
crumbs_from parts index (part ∷ rest) =
    record { label = part; path = slash ∷ join_slash (take (index + 1) parts) }
    ∷ crumbs_from parts (index + 1) rest

-- `crumbs.length === 0 ? [root] : crumbs`
abbrev pub or_root : List Crumb → List Crumb
or_root [] = record { label = slash ∷ []; path = slash ∷ [] } ∷ []
or_root (c ∷ cs) = c ∷ cs

abbrev pub path_parts : Text → List Text
path_parts path = filter (λ part. not (is_empty part)) (split slash path)

-- `breadcrumbs`
unfoldable pub breadcrumbs : Text → List Crumb
unfolding crumbs_from
breadcrumbs current_path =
    if is_empty current_path
    then []
    else or_root (crumbs_from (path_parts current_path) 0 (path_parts current_path))

-- The paths that the partitions of a device have in the program, where they have one.
abbrev pub partition_paths : Option (List (Option Text)) → List Text
partition_paths none = []
partition_paths (some []) = []
partition_paths (some (none ∷ ps)) = partition_paths (some ps)
partition_paths (some (some path ∷ ps)) =
    let rest = partition_paths (some ps) in if is_empty path then rest else path ∷ rest

abbrev pub device_paths : List (Option (List (Option Text))) → List Text
device_paths [] = []
device_paths (d ∷ ds) = partition_paths d ++ device_paths ds

-- `folderSuggestions`
unfoldable pub folder_suggestions :
    Text → List RootEntry → List (Option (List (Option Text))) → List Text
folder_suggestions current_path roots devices =
    unique_paths (current_path ∷ (map RootEntry.path roots ++ device_paths devices))

-- `currentRoot`
unfoldable pub current_root : Text → List RootEntry → Option RootEntry
current_root current_path roots =
    if is_empty current_path then none else find (λ r. starts_with current_path r.path) roots

-- `selectedFileBytes`
pub selected_file_bytes : List FileEntry → ℕ
selected_file_bytes [] = 0
selected_file_bytes (e ∷ es) = e.size + selected_file_bytes es

abbrev pub first_root : List RootEntry → Option RootEntry
first_root [] = none
first_root (r ∷ rs) = some r

abbrev pub path_of : Option RootEntry → Option Text
path_of none = none
path_of (some r) = some r.path

-- `defaultRootPath`
unfoldable pub default_root_path : List RootEntry → Text
default_root_path roots = or_else (path_of (find (λ r. r.is_home && r.available) roots)) (
    or_else (path_of (find (λ r. r.available) roots)) (
      or_else (path_of (find (λ r. r.is_home) roots))
        (or_else (path_of (first_root roots)) (slash ∷ []))))
