-- ===== src/Trash.antt =====
-- The window of the trash: frontend/src/pages/TrashView.tsx. A set of identifiers is a list without
-- repetitions, in the order of insertion; the server's answers are arguments.
pub mod Range
pub mod Outcome
mod Tests
-- `{ entry, x, y }` and `{ x, y }`; positions are rational numbers that only the screen uses, and
-- are left out.
use volum.Base.{
  index_of, between, add_text, add_texts, ltb, ◌==◌, if◌then◌else◌, or_else, is_some, length, take,
  drop, get_last?, filter, Text, codes, text_eq, includes, is_empty, print, ℕ, suc, ◌+◌, ◌-◌, min,
  Bool, true, false, ◌&&◌, ◌||◌, not, Option, none, some, List, [], ◌∷◌, ◌++◌, map,
}
use volum.Transfer.{Toast, ToastVariant}
use volum.Jobs.Commands.{Answer}
use volum.Entries.{TrashEntry}
use volum.Jobs.{Job, JobStatus, JobType}
use volum.Selection.{Keys}

pub data Confirmed : Type 0 where
  confirm_delete : TrashEntry → Confirmed
  confirm_delete_selected : List Text → Confirmed
  confirm_empty : List Text → Confirmed

pub record TrashView : Type 0 where
  pub trash_entries : List TrashEntry
  pub selected_trash_ids : List Text
  pub trash_context_menu : Option TrashEntry
  pub trash_empty_menu : Bool
  pub confirm_dialog : Option Confirmed

-- The calls of `showToastObj` and of `loadTrash`.
pub data Effect : Type 0 where
  toast : Toast → Effect
  load_trash : Effect

abbrev pub initial : TrashView
initial = record {
  trash_entries = [];
  selected_trash_ids = [];
  trash_context_menu = none;
  trash_empty_menu = false;
  confirm_dialog = none;
}

-- The effect of an answer of `getTrash`.
pub trash_loaded : Option (List TrashEntry) → TrashView → TrashView
trash_loaded entries v = record v { trash_entries = or_else entries [] }

-- `next.delete(id)`
abbrev pub delete_id : Text → List Text → List Text
delete_id id ids = filter (λ i. not (text_eq i id)) ids

-- The branch of the shift key, where both items are in the list: the loop from `start` to `end`.
unfoldable pub add_between : List Text → Option ℕ → Option ℕ → List Text → List Text
add_between ids none cur prev = prev
add_between ids (some last) none prev = prev
add_between ids (some last) (some cur) prev = add_texts (between ids last cur) prev

-- The branch of the shift key, where something is selected.
unfoldable pub shift_select : List Text → Option Text → Text → List Text → List Text
unfolding add_between between
shift_select ids none id prev = id ∷ []
shift_select ids (some last) id prev = add_between ids (index_of last ids) (index_of id ids) prev

-- `handleSelectTrashItem`
unfoldable pub select_item : Keys → TrashEntry → TrashView → TrashView
unfolding shift_select
select_item keys entry v = record v {
  selected_trash_ids =
      if keys.ctrl || keys.meta
      then if includes v.selected_trash_ids entry.id
        then delete_id entry.id v.selected_trash_ids
        else add_text entry.id v.selected_trash_ids
      else if keys.shift
      then shift_select (map TrashEntry.id v.trash_entries) (get_last? v.selected_trash_ids)
          entry.id v.selected_trash_ids
      else entry.id ∷ [];
}

-- `handleTrashContextMenu` and `handleTrashEmptyContextMenu`
pub trash_context_menu_event : Bool → TrashEntry → TrashView → TrashView
trash_context_menu_event can_write entry v =
    if not can_write
    then record v { trash_context_menu = none; trash_empty_menu = true }
    else record v { trash_context_menu = some entry; trash_empty_menu = false }

pub trash_empty_context_menu_event : TrashView → TrashView
trash_empty_context_menu_event v = record v { trash_context_menu = none; trash_empty_menu = true }

abbrev pub plural : ℕ → Text
plural n = if n == 1 then [] else codes "s"

abbrev pub success : Text → Effect
success title =
    Effect.toast (record { title = title; message = none; variant = ToastVariant.success })

abbrev pub failure : Text → Option Text → Effect
failure title message =
    Effect.toast (record { title = title; message = message; variant = ToastVariant.error })

-- `handleRestore`, with the answer of `restoreTrash`.
pub restore : Bool → Answer (Unit {0}) → List Effect
restore can_write (Answer.answered done) =
    if not can_write then [] else success (codes "Restore queued") ∷ Effect.load_trash ∷ []
restore can_write (Answer.failed message) =
    if not can_write then [] else failure (codes "Failed to restore") message ∷ []

-- The identifiers whose request was rejected.
abbrev pub failed_ids : (Text → Bool) → List Text → List Text
failed_ids accepts ids = filter (λ id. not (accepts id)) ids

-- The messages and the reload of `deleteIds` and `handleRestoreSelected`, for the numbers of
-- requests that were accepted and rejected.
unfoldable pub report : ℕ → ℕ → Text → Text → Text → List Effect
report accepted failed success_title failure_title verb =
    (if ltb 0 accepted then success success_title ∷ [] else [])
    ++ (if ltb 0 failed
        then failure failure_title (
            some (print failed ++ codes " item" ++ plural failed ++ codes " could not be " ++ verb))
          ∷ []
        else [])
    ++ Effect.load_trash ∷ []

-- `deleteIds`, with the answers of `deleteTrash`.
unfoldable pub delete_ids : (Text → Bool) → List Text → Text → TrashView → List Effect × TrashView
unfolding report
delete_ids accepts ids success_title v =
    let failed = length (failed_ids accepts ids) in
    let deleted = length ids - failed in
    (
      report deleted failed
          (if ltb 0 failed
            then print deleted ++ codes " item" ++ plural deleted ++ codes " deleted"
            else success_title)
          (if ltb 0 deleted
            then codes "Some items were not deleted"
            else codes "Permanent deletion failed")
          (codes "deleted."),
      record v { selected_trash_ids = failed_ids accepts ids },
    )

-- `handleDeletePermanently`, `handleDeleteSelected` and `handleEmptyTrash`
pub delete_permanently : Bool → TrashEntry → TrashView → TrashView
delete_permanently can_write entry v =
    if not can_write then v else record v { confirm_dialog = some (Confirmed.confirm_delete entry) }

unfoldable pub delete_selected : Bool → TrashView → TrashView
delete_selected can_write v =
    if not can_write || is_empty v.selected_trash_ids
    then v
    else record v { confirm_dialog = some (Confirmed.confirm_delete_selected v.selected_trash_ids) }

unfoldable pub empty_trash : Bool → TrashView → TrashView
empty_trash can_write v = if not can_write || is_empty v.trash_entries then v else record v {
  confirm_dialog = some (Confirmed.confirm_empty (map TrashEntry.id v.trash_entries));
}

-- `onConfirm`, after the dialog is closed.
unfoldable pub run_confirmed : (Text → Bool) → Confirmed → TrashView → List Effect × TrashView
unfolding delete_ids
run_confirmed accepts (Confirmed.confirm_delete entry) v =
    delete_ids accepts (entry.id ∷ []) (codes "Deleted permanently") v
run_confirmed accepts (Confirmed.confirm_delete_selected ids) v =
    delete_ids accepts ids (codes "Deleted permanently") v
run_confirmed accepts (Confirmed.confirm_empty ids) v =
    delete_ids accepts ids (codes "Trash emptied") v

unfoldable pub confirm : (Text → Bool) → Option Confirmed → TrashView → List Effect × TrashView
unfolding run_confirmed
confirm accepts none v = ([], v)
confirm accepts (some c) v = run_confirmed accepts c (record v { confirm_dialog = none })

-- `handleSelectAllTrash` and `handleInvertSelectionTrash`
unfoldable pub select_all_trash : TrashView → TrashView
select_all_trash v = record v {
  selected_trash_ids = add_texts (map TrashEntry.id v.trash_entries) [];
}

unfoldable pub invert_selection_trash : TrashView → TrashView
invert_selection_trash v = record v {
  selected_trash_ids =
      filter (λ id. not (includes v.selected_trash_ids id))
        (add_texts (map TrashEntry.id v.trash_entries) []);
}

-- `handleRestoreSelected`, with the answers of `restoreTrash`.
unfoldable pub restore_selected : Bool → (Text → Bool) → TrashView → List Effect × TrashView
unfolding report
restore_selected can_write accepts v =
    let failed = length (failed_ids accepts v.selected_trash_ids) in
    let queued = length v.selected_trash_ids - failed in
    if not can_write || is_empty v.selected_trash_ids then ([], v) else (
      report queued failed (codes "Restore queued")
          (if ltb 0 queued
            then codes "Some restores were not queued"
            else codes "Failed to restore")
          (codes "queued."),
      record v { selected_trash_ids = failed_ids accepts v.selected_trash_ids },
    )

-- `handleRefresh`
pub refresh : List Effect
refresh = Effect.load_trash ∷ success (codes "Refreshed") ∷ []

-- `restoreCompletionVersion`, the part of each job that is joined.
abbrev is_settled : JobStatus → Bool
is_settled JobStatus.completed = true
is_settled JobStatus.failed = true
is_settled JobStatus.cancelled = true
is_settled status = false

abbrev is_restore : JobType → Bool
is_restore JobType.restore = true
is_restore type = false

pub restore_completions : List Job → List (Text × JobStatus × Text)
restore_completions jobs =
    map (λ j. (j.id, j.status, j.updated_at))
      (filter (λ j. is_restore j.type && is_settled j.status) jobs)

-- The keys of a tile: the index of the tile that gets the focus.
pub data ArrowKey : Type 0 where
  arrow_down arrow_up : ArrowKey

unfoldable pub next_tile : ArrowKey → ℕ → ℕ → ℕ
next_tile ArrowKey.arrow_down current count = min (current + 1) (count - 1)
next_tile ArrowKey.arrow_up current count = current - 1

-- `initialLoading` and `showTrashGrid`
pub show_trash_grid : Bool → Option (List TrashEntry) → Option Text → TrashView → Bool
show_trash_grid trash_loading trash_data trash_error v =
    not (trash_loading && not (is_some trash_data))
    && not (is_some trash_error)
    && ltb 0 (length v.trash_entries)
