-- ===== src/Transfer.antt =====
-- Copying, moving and sharing: frontend/src/hooks/useTransferCommands.ts.
-- The state is that which the hook sets; the server's answers are arguments.
pub mod Submit
mod Tests
use volum.Base.{
  ◌==◌, if◌then◌else◌, length, filter, Text, codes, is_empty, drop_end_while, trim, split, print,
  Bool, true, false, ◌&&◌, ◌||◌, not, Option, none, some, List, [], ◌∷◌, ◌++◌, map,
}
use volum.Entries.{FileEntry}
use volum.Paths.{slash, is_slash, join_path}

pub data Mode : Type 0 where
  copy move : Mode

abbrev pub is_move : Mode → Bool
is_move Mode.copy = false
is_move Mode.move = true

pub record TransferDialog : Type 0 where
  pub mode : Mode
  pub entries : List FileEntry
  pub initial_destination : Text

pub record Clipboard : Type 0 where
  pub mode : Mode
  pub entries : List FileEntry

pub data ToastVariant : Type 0 where
  success error warning : ToastVariant

pub record Toast : Type 0 where
  pub title : Text
  pub message : Option Text
  pub variant : ToastVariant

pub record Transfers : Type 0 where
  pub context_menu : Option FileEntry
  pub transfer_dialog : Option TransferDialog
  pub file_clipboard : Option Clipboard
  pub toasts : List Toast

-- `setContextMenu(null); setTransferDialog(...)`
abbrev open_dialog : Mode → List FileEntry → Text → Transfers → Transfers
open_dialog mode entries current_path s = record s {
  context_menu = none;
  transfer_dialog =
      some (record { mode = mode; entries = entries; initial_destination = current_path });
}

-- `handleCopy` and `handleMove`
unfoldable pub handle_transfer : Mode → List FileEntry → Text → Transfers → Transfers
handle_transfer mode selected_entries current_path s =
    if is_empty selected_entries then s else open_dialog mode selected_entries current_path s

abbrev clipboard_title : Mode → Text
clipboard_title Mode.copy = codes "Copied to clipboard"
clipboard_title Mode.move = codes "Cut to clipboard"

unfoldable pub set_clipboard_from_selection : Mode → Bool → List FileEntry → Transfers → Transfers
set_clipboard_from_selection mode can_write selected_entries s =
    let count = length selected_entries in
    if not can_write || is_empty selected_entries then s else record s {
      file_clipboard = some (record { mode = mode; entries = selected_entries });
      toasts =
          s.toasts
          ++ record {
            title = clipboard_title mode;
            message = some (print count ++ codes " item" ++ (if count == 1 then [] else codes "s"));
            variant = ToastVariant.success;
          }
            ∷ [];
    }

unfoldable pub paste_from : Option Clipboard → Bool → Text → Transfers → Transfers
paste_from none can_write current_path s = s
paste_from (some c) can_write current_path s =
    if not can_write then s else open_dialog c.mode c.entries current_path s

unfoldable pub handle_paste : Bool → Text → Transfers → Transfers
unfolding paste_from
handle_paste can_write current_path s = paste_from s.file_clipboard can_write current_path s

-- How sharing a link ends: `createShare` fails, or the link cannot or can be copied.
pub data ShareOutcome : Type 0 where
  not_shared : Option Text → ShareOutcome
  not_copied copied : ShareOutcome

abbrev pub share_toast : ShareOutcome → Toast
share_toast (ShareOutcome.not_shared message) = record {
  title = codes "Quick share failed";
  message = message;
  variant = ToastVariant.error;
}
share_toast ShareOutcome.not_copied = record {
  title = codes "Share link created, but not copied";
  message = some (codes "Open Manage Shares to copy the link.");
  variant = ToastVariant.warning;
}
share_toast ShareOutcome.copied = record {
  title = codes "Share link copied to clipboard";
  message = none;
  variant = ToastVariant.success;
}

pub share_from : Option FileEntry → ShareOutcome → Transfers → Transfers
share_from none outcome s = s
share_from (some entry) outcome s = record s {
  context_menu = none;
  toasts = s.toasts ++ share_toast outcome ∷ [];
}

pub handle_quick_share : ShareOutcome → Transfers → Transfers
unfolding share_from
handle_quick_share outcome s = share_from s.context_menu outcome s

-- The parameters of `createJob`.
pub record JobRequest : Type 0 where
  pub mode : Mode
  pub source_path : Text
  pub destination_path : Text
  pub conflict_policy : Text
  pub verify_mode : Text

-- `destinationValue.split('|')`, each part trimmed and without slashes at its end, and not empty.
unfoldable pub destinations_of : Text → List Text
unfolding split trim drop_end_while
destinations_of destination_value =
    filter (λ s. not (is_empty s))
      (map (λ s. drop_end_while is_slash (trim s)) (split b'|' destination_value))

abbrev pub job_request : TransferDialog → Text → FileEntry → Text → JobRequest
job_request dialog conflict_policy entry dest = record {
  mode = dialog.mode;
  source_path = entry.path;
  destination_path = join_path dest entry.name;
  conflict_policy = conflict_policy;
  verify_mode = codes "size";
}

-- The jobs of the two loops, in order.
abbrev pub job_requests : TransferDialog → Text → List Text → List FileEntry → List JobRequest
job_requests dialog conflict_policy destinations [] = []
job_requests dialog conflict_policy destinations (e ∷ es) =
    map (job_request dialog conflict_policy e) destinations
    ++ job_requests dialog conflict_policy destinations es

-- The awaited calls of `createJob`: those that are sent, and whether none fails. The server is a
-- test of whether it takes a request.
unfoldable pub create_jobs : (JobRequest → Bool) → List JobRequest → List JobRequest × Bool
create_jobs server [] = ([], true)
create_jobs server (r ∷ rs) =
    let rest = create_jobs server rs in if server r then (r ∷ rest.0, rest.1) else (r ∷ [], false)

-- The end of the action: a moved clipboard is emptied unless the action failed.
abbrev pub after_jobs : Mode → Bool → Transfers → Transfers
after_jobs mode done s = if is_move mode && done then record s { file_clipboard = none } else s

-- `handleTransferSubmit` with the action that it hands to `runAction`, run to its end: the
-- requests that are sent, whether the action is run and succeeds, and the new state.
unfoldable pub handle_transfer_submit :
    (JobRequest → Bool)
    → Option TransferDialog
    → Text
    → Text
    → Transfers
    → List JobRequest × Option Bool × Transfers
unfolding destinations_of create_jobs
handle_transfer_submit server none destination_value conflict_policy s = ([], none, s)
handle_transfer_submit server (some dialog) destination_value conflict_policy s =
    let destinations = destinations_of destination_value in
    let run =
      create_jobs server (job_requests dialog conflict_policy destinations dialog.entries) in
    if is_empty destinations
    then ([], none, s)
    else (run.0, some run.1, after_jobs dialog.mode run.1 (record s { transfer_dialog = none }))
