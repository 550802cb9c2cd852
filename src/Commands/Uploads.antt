-- ===== src/Commands/Uploads.antt =====
-- Uploading files: frontend/src/hooks/useUploadCommands.ts, with `unsupportedUploadReason` of
-- frontend/src/utils/upload.ts. The upload itself is that of Upload.
use volum.Base.{
  ◌==◌, if◌then◌else◌, or_else, length, any, Text, codes, is_empty, print, ℕ, Bool, true, false,
  not, Option, none, some, List, [], ◌∷◌, ◌++◌,
}
use volum.Commands.{CommandState, show_toast}
use volum.Commands.Run.{succeed, fail}
use volum.Jobs.Commands.{Answer}
use volum.Jobs.{Job}
use volum.Transfer.{ToastVariant}
use volum.Upload.{File, Interruption, is_unsupported, size}
use volum.Upload.Files.{UploadResult}

-- What keeps an upload from starting: the message of the error and the toast.
pub data Refusal : Type 0 where
  not_allowed no_destination unsupported : Refusal

abbrev refusal_toast : Refusal → Text × Text × Text
refusal_toast Refusal.not_allowed = (
  codes "Upload requires admin permissions",
  codes "Upload failed",
  codes "Admin permissions required",
)
refusal_toast Refusal.no_destination = (
  codes "No destination folder selected",
  codes "Upload failed",
  codes "Navigate to a folder first",
)
refusal_toast Refusal.unsupported = (
  codes "Folder and app-bundle uploads are not supported yet",
  codes "Upload not supported",
  codes "Folder and app-bundle uploads are not supported yet",
)

abbrev refuse : Refusal → CommandState → CommandState
refuse r s =
    let (message, title, shown_message) = refusal_toast r in
    let shown = show_toast title (some shown_message) ToastVariant.error s in
    record shown { error = some message }

abbrev first_name : List File → Text
first_name [] = codes "Upload"
first_name (f ∷ fs) = f.name

abbrev first_size : List File → ℕ
first_size [] = 0
first_size (f ∷ fs) = size f

abbrev count_text : List File → Text
count_text fs = if length fs == 1 then first_name fs else print (length fs) ++ codes " files"

abbrev start_upload : List File → CommandState → CommandState
start_upload fs s =
    let shown = show_toast (codes "Upload started") (some (count_text fs)) ToastVariant.success s in
    record shown {
      upload_progress =
          some (record { filename = first_name fs; received = 0; total = first_size fs });
    }

-- `handleUploadFiles` up to its action: whether the upload starts, and the new state.
unfoldable pub upload_files_command :
    (Text → Text) → Text → Bool → List File → CommandState → Bool × CommandState
upload_files_command to_lower_case current_path can_write fs s =
    if not can_write
    then (false, refuse Refusal.not_allowed s)
    else if is_empty fs
    then (false, s)
    else if is_empty current_path
    then (false, refuse Refusal.no_destination s)
    else if any (is_unsupported to_lower_case) fs
    then (false, refuse Refusal.unsupported s)
    else (true, start_upload fs s)

abbrev interrupted_title : Interruption → Text
interrupted_title Interruption.paused = codes "Upload paused"
interrupted_title Interruption.cancelled = codes "Upload cancelled"
interrupted_title Interruption.aborted = codes "Upload interrupted"

abbrev plural : ℕ → Text
plural n = if n == 1 then [] else codes "s"

abbrev result_title : ℕ → Option Interruption → Text
result_title completed none =
    print completed ++ codes " upload" ++ plural completed ++ codes " completed"
result_title completed (some i) = interrupted_title i

abbrev result_message : List File → ℕ → Option Interruption → Option Text
result_message fs completed none = none
result_message fs completed (some i) = some (
    print completed
    ++ codes " of "
    ++ print (length fs)
    ++ codes " upload"
    ++ plural (length fs)
    ++ codes " completed")

abbrev result_variant : Option Interruption → ToastVariant
result_variant none = ToastVariant.success
result_variant (some i) = ToastVariant.warning

abbrev result_toast : List File → ℕ → Option Interruption → CommandState → CommandState
result_toast fs completed i s =
    show_toast (result_title completed i) (result_message fs completed i) (result_variant i) s

-- The action, with the answers of `uploadFilesWithResume` and of `getJobs`, which is sent after
-- the first was answered. `finally` ends the progress.
unfoldable pub upload_ended :
    List File → Answer UploadResult → Answer (Option (List Job)) → CommandState → CommandState
upload_ended fs (Answer.failed message) listing s =
    fail (codes "Action failed") (codes "Action failed") message
      (record s { upload_progress = none })
upload_ended fs (Answer.answered r) (Answer.failed message) s =
    let shown = result_toast fs r.completed r.interrupted s in
    fail (codes "Action failed") (codes "Action failed") message
      (record shown { upload_progress = none })
upload_ended fs (Answer.answered r) (Answer.answered listing) s =
    let shown = result_toast fs r.completed r.interrupted s in
    succeed none (record shown { upload_progress = none; jobs = or_else listing [] })
