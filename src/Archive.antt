-- ===== src/Archive.antt =====
-- Names of archives: frontend/src/utils/archive.ts.
pub mod Laws
mod Tests
use volum.Base.{
  leb, if◌then◌else◌, length, take, Text, codes, starts_with, ends_with, or_text, ℕ, ◌+◌, ◌-◌, Bool,
  ◌&&◌, ◌||◌, ◌++◌, map,
}

-- The letters of ASCII in lower case; other code units match no letter of ASCII under the flag `i`.
unfoldable pub lower : ℕ → ℕ
lower c = if leb b'A' c && leb c b'Z' then c + 32 else c

-- `/ext$/i.test(name)`
unfoldable pub has_extension : Text → Text → Bool
unfolding ends_with starts_with lower
has_extension name ext = ends_with (map lower name) ext

-- `isArchiveFile`
unfoldable pub is_archive_file : Text → Bool
unfolding has_extension
is_archive_file name =
    has_extension name (codes ".zip")
    || has_extension name (codes ".tar")
    || has_extension name (codes ".tar.gz")
    || has_extension name (codes ".tgz")

-- `name.replace(/ext$/i, '')`
unfoldable pub strip : Text → Text → Text
unfolding has_extension
strip name ext = if has_extension name ext then take (length name - length ext) name else name

-- `archiveBaseName`
unfoldable pub archive_base_name : Text → Text
unfolding strip
archive_base_name name =
    or_text
      (strip (strip (strip (strip name (codes ".tar.gz")) (codes ".tgz")) (codes ".tar"))
        (codes ".zip"))
      (codes "archive")

-- `archiveFileName`
unfoldable pub archive_file_name : Text → Text
archive_file_name name = archive_base_name name ++ codes ".zip"
