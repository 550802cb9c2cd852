-- ===== src/SearchView/Actions/Run.antt =====
-- The actions of frontend/src/pages/SearchResultsView.tsx that ask the server.
use volum.Base.{
  if◌then◌else◌, or_else, Text, codes, is_empty, trim, Bool, true, false, Option, none, some, List,
  [], ◌∷◌, ◌++◌,
}
use volum.Entries.{SearchResult}
use volum.Transfer.{
  Mode, TransferDialog, ToastVariant, JobRequest, destinations_of, job_requests, create_jobs,
}
use volum.SearchView.{View, Confirm, TextInput, re_search}
use volum.SearchView.Actions.{Call}

abbrev show_toast : Text → Option Text → ToastVariant → View → View
show_toast title message variant v = record v {
  toasts = v.toasts ++ (record { title = title; message = message; variant = variant }) ∷ [];
}

-- `runAction`: how it ends when the action has succeeded, and when it was rejected; the message is
-- missing where the error is not an `Error`.
abbrev pub succeed : Text → View → View
succeed title v = show_toast title none ToastVariant.success v

abbrev pub fail : Option Text → View → View
fail message v =
    let text = or_else message (codes "Action failed") in
    show_toast (codes "Action failed") (some text) ToastVariant.error
      (record v { error = some text })

unfoldable pub run_action : Bool → Option Text → Text → View → View
run_action done message title v = if done then succeed title v else fail message v

-- The loop of awaited calls of `deletePath`: those that are sent, and whether none is refused.
unfoldable pub delete_entries : (SearchResult → Bool) → List SearchResult → List SearchResult × Bool
delete_entries server [] = ([], true)
delete_entries server (r ∷ rs) =
    let rest = delete_entries server rs in
    if server r then (r ∷ rest.0, rest.1) else (r ∷ [], false)

-- What an action has done: the page, and the search that `reSearch` sends.
pub record Done : Type 0 where
  pub view : View
  pub searched : Option Text

-- The end of a deletion.
unfoldable pub after_delete : Option Text → Text → View → Bool → Done
unfolding run_action
after_delete message query v done = record {
  view =
      run_action done message (codes "Queued for trash") (record v {
        confirm_dialog = none;
        selected_paths = if done then [] else v.selected_paths;
      });
  searched = if done then re_search query else none;
}

-- `onConfirm` of the two dialogs, which close.
unfoldable pub confirm :
    (SearchResult → Bool) → Option Text → Confirm → View → List Call × List SearchResult × Done
unfolding delete_entries after_delete
confirm server message (Confirm.download entry) v = (
  Call.open_externally entry.path ∷ [],
  [],
  record { view = record v { confirm_dialog = none }; searched = none },
)
confirm server message (Confirm.move_to_trash entries query) v =
    let run = delete_entries server entries in ([], run.0, after_delete message query v run.1)

-- The requests of the dialogs for a text.
pub data Request : Type 0 where
  rename_path archive extract checksum : Text → Text → Request

pub request_of : TextInput → Text → Request
unfolding trim
request_of (TextInput.rename entry query) value = Request.rename_path entry.path (trim value)
request_of (TextInput.create_archive r) value = Request.archive r.path (trim value)
request_of (TextInput.extract_archive r placeholder) value = Request.extract r.path (trim value)
request_of (TextInput.generate_checksum r) value = Request.checksum r.path (trim value)

abbrev title_of : TextInput → Text
title_of (TextInput.rename entry query) = codes "Item renamed"
title_of (TextInput.create_archive r) = codes "Archive job created"
title_of (TextInput.extract_archive r placeholder) = codes "Extract job created"
title_of (TextInput.generate_checksum r) = codes "Checksum job created"

abbrev searched_by : TextInput → Option Text
searched_by (TextInput.rename entry query) = re_search query
searched_by (TextInput.create_archive r) = none
searched_by (TextInput.extract_archive r placeholder) = none
searched_by (TextInput.generate_checksum r) = none

-- `onSubmit` of such a dialog, once its request was answered.
pub submitted : TextInput → Bool → Option Text → View → Done
unfolding run_action
submitted dialog done message v = record {
  view = run_action done message (title_of dialog) (record v { text_input_dialog = none });
  searched = if done then searched_by dialog else none;
}

abbrev transfer_title : Mode → Text
transfer_title Mode.copy = codes "Copy transfer started"
transfer_title Mode.move = codes "Move transfer started"

-- `handleTransferSubmit`: the requests that are sent, and what was done.
unfoldable pub handle_transfer_submit :
    (JobRequest → Bool)
    → Option Text
    → Option TransferDialog
    → Text
    → Text
    → View
    → List JobRequest × Done
unfolding run_action
handle_transfer_submit server message none destination_value conflict_policy v =
    ([], record { view = v; searched = none })
handle_transfer_submit server message (some dialog) destination_value conflict_policy v =
    let destinations = destinations_of destination_value in
    let run =
      create_jobs server (job_requests dialog conflict_policy destinations dialog.entries) in
    let closed = record v { transfer_dialog = none } in
    if is_empty destinations then ([], record { view = v; searched = none }) else (
      run.0,
      record {
        view = run_action run.1 message (transfer_title dialog.mode) closed;
        searched = if run.1 then re_search v.query else none;
      },
    )
