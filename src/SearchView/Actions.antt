-- ===== src/SearchView/Actions.antt =====
-- What the page does with its results: the handlers of frontend/src/pages/SearchResultsView.tsx. An
-- action that the server is asked for is run to its end, with the server's answers as arguments.
pub mod Run
pub mod Settled
use volum.Base.{
  if◌then◌else◌, is_some, Text, codes, includes, is_empty, ℕ, Bool, false, ◌&&◌, not, Option, none,
  some, List, [], ◌∷◌, ◌++◌,
}
use volum.Entries.{FileEntry, SearchResult, FileType, is_file}
use volum.Archive.{strip, is_archive_file, has_extension}
use volum.Paths.{slash}
use volum.Preview.{is_previewable_file}
use volum.Transfer.{
  Mode, TransferDialog, Toast, ToastVariant, JobRequest, ShareOutcome, share_toast, destinations_of,
  job_requests, create_jobs,
}
use volum.SearchView.{
  View, Confirm, TextInput, search_result_to_file_entry, selected_results, selected_entries,
  previewable_entries, re_search,
}

-- The calls that a handler makes outside the page.
pub data Call : Type 0 where
  close : Call
  navigate : Text → Call
  show_preview : FileEntry → List FileEntry → Call
  open_externally : Text → Call

-- The preview of a file, by `onPreview` where the page has it.
unfoldable pub preview_file : Bool → FileEntry → View → List Call × View
preview_file has_on_preview entry v =
    if not (is_previewable_file entry.name)
    then (Call.open_externally entry.path ∷ [], v)
    else if has_on_preview
    then (Call.show_preview entry (previewable_entries v) ∷ [], v)
    else ([], record v { preview_entry = some entry })

-- `handleClick`
unfoldable pub handle_click : Bool → SearchResult → View → List Call × View
handle_click has_on_preview result v =
    if is_file result.type
    then preview_file has_on_preview (search_result_to_file_entry result) v
    else (Call.close ∷ Call.navigate result.path ∷ [], v)

-- `onFocus` of a row
pub focus_result : SearchResult → View → View
focus_result result v = record v { selected_paths = result.path ∷ [] }

-- `handleContextMenu`: the row gets the focus, which is an event unless it has it already.
unfoldable pub handle_context_menu : Bool → SearchResult → View → View
unfolding focus_result
handle_context_menu is_focused result v =
    let focused = if is_focused then v else focus_result result v in
    record focused {
      selected_paths =
          if includes v.selected_paths result.path
          then focused.selected_paths
          else result.path ∷ [];
      context_menu = some result;
    }

-- The only one of the selected entries.
abbrev only_one : List FileEntry → Option FileEntry
only_one [] = none
only_one (e ∷ []) = some e
only_one (e ∷ e' ∷ es) = none

abbrev preview_one : Bool → Option FileEntry → View → List Call × View
preview_one has_on_preview none v = ([], v)
preview_one has_on_preview (some entry) v =
    if is_file entry.type then preview_file has_on_preview entry v else ([], v)

-- `handlePreview`
pub handle_preview : Bool → View → List Call × View
handle_preview has_on_preview v = preview_one has_on_preview (only_one (selected_entries v)) v

-- `handleShowInfo`
pub handle_show_info : View → View
handle_show_info v = elim (only_one (selected_entries v)) [
  | none ↦ v
  | some entry ↦ record v { info_entry = some entry }
]

-- `caps`
pub record Caps : Type 0 where
  pub can_write : Bool
  pub can_preview : Bool
  pub can_info : Bool
  pub can_extract : Bool
  pub can_checksum : Bool
  pub can_copy : Bool

abbrev is_one_file : Option FileEntry → Bool
is_one_file none = false
is_one_file (some e) = is_file e.type

abbrev is_one_archive : Option FileEntry → Bool
is_one_archive none = false
is_one_archive (some e) = is_file e.type && is_archive_file e.name

pub caps_of : Bool → View → Caps
caps_of can_write v =
    let one = only_one (selected_entries v) in
    record {
      can_write = can_write;
      can_preview = is_one_file one;
      can_info = is_some one;
      can_extract = is_one_archive one;
      can_checksum = can_write && is_some one;
      can_copy = not (is_empty (selected_entries v));
    }

abbrev head? {ℓ} : {A : Type ℓ} → List A → Option A
head? [] = none
head? (x ∷ xs) = some x

abbrev ask : Option TextInput → View → View
ask none v = v
ask (some dialog) v = record v { context_menu = none; text_input_dialog = some dialog }

-- `handleDownload`
pub handle_download : View → View
handle_download v = elim (head? (selected_entries v)) [
  | none ↦ v
  | some entry ↦ record v { confirm_dialog = some (Confirm.download entry) }
]

abbrev rename_of : Text → Option FileEntry → Option TextInput
rename_of query none = none
rename_of query (some entry) = some (TextInput.rename entry query)

abbrev archive_of : Option SearchResult → Option TextInput
archive_of none = none
archive_of (some r) = some (TextInput.create_archive r)

-- `path.replace(/\.(zip|tar|tar\.gz|tgz)$/i, '')`: one ending is taken off, the longest.
abbrev without_extension : Text → Text
without_extension path =
    if has_extension path (codes ".tar.gz")
    then strip path (codes ".tar.gz")
    else if has_extension path (codes ".tar")
    then strip path (codes ".tar")
    else if has_extension path (codes ".tgz")
    then strip path (codes ".tgz")
    else strip path (codes ".zip")

abbrev extract_of : Option SearchResult → Option TextInput
extract_of none = none
extract_of (some r) = some (TextInput.extract_archive r (without_extension r.path))

abbrev checksum_of : Option SearchResult → Option TextInput
checksum_of none = none
checksum_of (some r) = some (TextInput.generate_checksum r)

-- `handleRename`, `handleArchive`, `handleExtract` and `handleChecksum`
pub handle_rename : View → View
handle_rename v = ask (rename_of v.query (head? (selected_entries v))) v

pub handle_archive : View → View
handle_archive v = ask (archive_of (head? (selected_results v))) v

pub handle_extract : View → View
handle_extract v = ask (extract_of (head? (selected_results v))) v

pub handle_checksum : View → View
handle_checksum v = ask (checksum_of (head? (selected_results v))) v

-- `handleDelete`
unfoldable pub handle_delete : View → View
handle_delete v =
    if is_empty (selected_results v)
    then v
    else record v { confirm_dialog = some (Confirm.move_to_trash (selected_results v) v.query) }

-- `handleCopy` and `handleMove`
unfoldable pub handle_transfer : Mode → View → View
handle_transfer mode v = if is_empty (selected_results v) then v else record v {
  context_menu = none;
  transfer_dialog =
      some (record { mode = mode; entries = selected_entries v; initial_destination = slash ∷ [] });
}

-- `handleShare`
pub handle_share : View → View
handle_share v = elim (head? (selected_results v)) [
  | none ↦ v
  | some r ↦ record v { share_dialog_path = some (r.path, r.name) }
]

-- `handleQuickShare`
unfoldable pub handle_quick_share : ShareOutcome → View → View
handle_quick_share outcome v =
    if is_some v.context_menu
    then record v { context_menu = none; toasts = v.toasts ++ share_toast outcome ∷ [] }
    else v
