-- ===== src/Preview.antt =====
-- Which files can be previewed, and the way from one preview to the next:
-- frontend/src/utils/fileTypes.ts, frontend/src/utils/preview.ts and
-- frontend/src/hooks/usePreviewNavigation.ts.
pub mod Walk
pub mod Limits
mod Tests
use volum.Base.{
  ltb, leb, if◌then◌else◌, length, get_elem?, any, Text, codes, ends_with, ℕ, zero, suc, ◌+◌, ◌-◌,
  Bool, false, ◌&&◌, ◌||◌, not, Option, none, some, List, [], ◌∷◌, ◌++◌, map, index_of,
}
use volum.Entries.{FileEntry}
use volum.Archive.{lower, has_extension}

-- `/\.(a|b|…)$/i.test(name)`, with the extensions listed.
unfoldable pub has_one_of : List Text → Text → Bool
unfolding has_extension
has_one_of extensions name = any (λ ext. has_extension name (codes "." ++ ext)) extensions

abbrev image_extensions : List Text
image_extensions =
    map codes (
      "avif" ∷ "bmp" ∷ "gif" ∷ "ico" ∷ "jpg" ∷ "jpeg" ∷ "png" ∷ "svg" ∷ "tif" ∷ "tiff" ∷ "webp"
      ∷ [])

abbrev video_extensions : List Text
video_extensions =
    map codes
      ("avi" ∷ "flv" ∷ "m4v" ∷ "mkv" ∷ "mov" ∷ "mp4" ∷ "mpeg" ∷ "mpg" ∷ "ogv" ∷ "webm" ∷ "wmv" ∷ [])

abbrev audio_extensions : List Text
audio_extensions = map codes ("aac" ∷ "flac" ∷ "m4a" ∷ "mp3" ∷ "ogg" ∷ "opus" ∷ "wav" ∷ "wma" ∷ [])

abbrev text_extensions : List Text
text_extensions = map codes (
    "cfg" ∷ "conf" ∷ "csv" ∷ "css" ∷ "env" ∷ "go" ∷ "htm" ∷ "html" ∷ "ini" ∷ "java" ∷ "js" ∷ "jsx"
    ∷ "json" ∷ "log" ∷ "md" ∷ "php" ∷ "properties" ∷ "py" ∷ "rb" ∷ "rs" ∷ "rst" ∷ "sh" ∷ "sql"
    ∷ "svg" ∷ "toml" ∷ "ts" ∷ "tsx" ∷ "txt" ∷ "xml" ∷ "yml" ∷ "yaml" ∷ [])

unfoldable pub is_image_extension : Text → Bool
unfolding has_one_of
is_image_extension name = has_one_of image_extensions name

unfoldable pub is_video_extension : Text → Bool
unfolding has_one_of
is_video_extension name = has_one_of video_extensions name

unfoldable pub is_audio_extension : Text → Bool
unfolding has_one_of
is_audio_extension name = has_one_of audio_extensions name

unfoldable pub is_text_extension : Text → Bool
unfolding has_one_of
is_text_extension name = has_one_of text_extensions name

-- `isPreviewableFile`; a name is lowered by its letters of ASCII.
unfoldable pub is_previewable_file : Text → Bool
unfolding is_image_extension is_video_extension is_audio_extension is_text_extension
is_previewable_file name =
    let ext = map lower name in
    is_image_extension ext
    || is_video_extension ext
    || is_audio_extension ext
    || is_text_extension ext
    || ends_with ext (codes ".pdf")

abbrev pub max_thumbnail_bytes : ℕ
max_thumbnail_bytes = 8388608

abbrev pub max_image_preview_bytes : ℕ
max_image_preview_bytes = 41943040

abbrev pub max_text_preview_bytes : ℕ
max_text_preview_bytes = 1048576

abbrev pub max_embedded_pdf_bytes : ℕ
max_embedded_pdf_bytes = 52428800

-- `canThumbnail`
unfoldable pub can_thumbnail : FileEntry → Bool
can_thumbnail entry =
    if not (is_image_extension entry.name)
    then false
    else if has_extension entry.name (codes ".gif")
    then false
    else leb entry.size max_thumbnail_bytes

-- The reasons of `previewBlockedReason`.
pub data Blocked : Type 0 where
  text_limit image_limit pdf_limit : Blocked

-- `previewBlockedReason`
unfoldable pub preview_blocked_reason : FileEntry → Option Blocked
preview_blocked_reason entry =
    if is_text_extension entry.name && ltb max_text_preview_bytes entry.size
    then some Blocked.text_limit
    else if is_image_extension entry.name && ltb max_image_preview_bytes entry.size
    then some Blocked.image_limit
    else if has_extension entry.name (codes ".pdf") && ltb max_embedded_pdf_bytes entry.size
    then some Blocked.pdf_limit
    else none

-- The paths of a list of entries.
abbrev pub paths_of : List FileEntry → List Text
paths_of entries = map (λ e. e.path) entries

-- `previewIndex`, missing where it is -1.
pub preview_index : Option FileEntry → List FileEntry → Option ℕ
preview_index none entries = none
preview_index (some entry) entries = index_of entry.path (paths_of entries)

-- `previewPositionLabel`, as its two numbers.
pub preview_position_label : Option FileEntry → List FileEntry → Option (ℕ × ℕ)
preview_position_label entry entries = elim (preview_index entry entries) [
  | none ↦ none
  | some i ↦ some (i + 1, length entries)
]

abbrev pub before : List FileEntry → Option ℕ → Option FileEntry
before entries none = none
before entries (some zero) = none
before entries (some (suc i)) = get_elem? entries i

-- `previousPreviewEntry`
unfoldable pub previous_preview_entry : Option FileEntry → List FileEntry → Option FileEntry
unfolding preview_index
previous_preview_entry entry entries = before entries (preview_index entry entries)

abbrev pub after : List FileEntry → Option ℕ → Option FileEntry
after entries none = none
after entries (some i) = if leb (length entries - 1) i then none else get_elem? entries (i + 1)

-- `nextPreviewEntry`
unfoldable pub next_preview_entry : Option FileEntry → List FileEntry → Option FileEntry
unfolding preview_index
next_preview_entry entry entries = after entries (preview_index entry entries)
