-- ===== src/Paths.antt =====
-- Paths of files and folders: frontend/src/utils/path.ts.
pub mod Laws
pub mod Unique
mod Tests
use volum.Base.{
  ◌==◌, if◌then◌else◌, Text, includes, is_empty, or_text, drop_end_while, trim, ℕ, Bool, ◌&&◌, ◌||◌,
  List, [], ◌∷◌, ◌++◌,
}

abbrev pub slash : ℕ
slash = b'/'

abbrev pub is_slash : ℕ → Bool
is_slash c = c == slash

-- `normalizeFolderPath`
unfoldable pub normalize_folder_path : Text → Text
unfolding drop_end_while
normalize_folder_path path = or_text (drop_end_while is_slash path) (slash ∷ [])

-- `.replace(/\/$/, '')`
pub drop_last_slash : Text → Text
drop_last_slash [] = []
drop_last_slash (c ∷ []) = if is_slash c then [] else c ∷ []
drop_last_slash (c ∷ d ∷ s) = c ∷ drop_last_slash (d ∷ s)

-- `.replace(/^\/\//, '/')`
pub collapse : Text → Text
collapse (c ∷ d ∷ s) = if is_slash c && is_slash d then d ∷ s else c ∷ d ∷ s
collapse s = s

-- `joinPath`
unfoldable pub join_path : Text → Text → Text
unfolding drop_last_slash collapse
join_path parent name = collapse (drop_last_slash (normalize_folder_path parent) ++ slash ∷ name)

-- The loop of `uniquePaths`; `seen` and `out` hold the same paths.
pub unique_from : List Text → List Text → List Text
unique_from out [] = out
unique_from out (path ∷ paths) =
    let normalized = normalize_folder_path (trim path) in
    unique_from
      (if is_empty normalized || includes out normalized then out else out ++ normalized ∷ []) paths

-- `uniquePaths`
unfoldable pub unique_paths : List Text → List Text
unfolding unique_from
unique_paths paths = unique_from [] paths
