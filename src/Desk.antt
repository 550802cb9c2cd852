-- ===== src/Desk.antt =====
-- The actions of the desktop: frontend/src/hooks/useDesktopActions.ts. The server's answers are
-- arguments.
pub mod Emptied
use volum.Base.{
  ltb, ◌==◌, if◌then◌else◌, or_else, length, filter, Text, codes, is_empty, print, ℕ, suc, ◌-◌,
  Bool, true, false, not, Option, none, some, List, [], ◌∷◌, ◌++◌,
}
use volum.Derived.{default_root_path}
use volum.Transfer.{Toast, ToastVariant}
use volum.Jobs.Commands.{Answer}
use volum.Navigation.{ActiveView}
use volum.Services.{ServiceShortcut, OpenMode}
use volum.Entries.{TrashEntry, RootEntry}

-- What the hook sets, and the calls of its arguments.
pub record DeskState : Type 0 where
  pub trash_entries : List TrashEntry
  pub error : Option Text
  pub context_menu : Option Text
  pub confirm_empty : Bool
  pub confirm_remove : Option Text
  pub service_form : Option (Option ServiceShortcut)
  pub current_path : Text
  pub active_view : ActiveView
  pub selected_paths : List Text
  pub toasts : List Toast
  pub refreshes : ℕ
  pub device_loads : ℕ

abbrev pub shown : Text → Option Text → ToastVariant → DeskState → DeskState
shown title message variant s = record s {
  toasts = s.toasts ++ record { title = title; message = message; variant = variant } ∷ [];
}

-- `handleEmptyTrash`
pub ask_empty : DeskState → DeskState
ask_empty s = record s { context_menu = none; confirm_empty = true }

abbrev could_not : ℕ → Text
could_not n =
    print n ++ codes " item" ++ (if n == 1 then [] else codes "s") ++ codes " could not be deleted."

abbrev pub emptied : ℕ → ℕ → DeskState → DeskState
emptied failed_count deleted_count s =
    let all_gone = shown (codes "Trash emptied") none ToastVariant.success s in
    let some_left =
      shown
        (if ltb 0 deleted_count
          then codes "Trash partially emptied"
          else codes "Could not empty Trash")
        (some (could_not failed_count)) ToastVariant.error s in
    if failed_count == 0
    then record all_gone { error = none }
    else record some_left { error = some (could_not failed_count) }

-- Its `onConfirm`, with the answers of `deleteTrash` and of `getTrash`.
unfoldable pub confirm_empty_trash :
    (Text → Bool) → Answer (Option (List TrashEntry)) → DeskState → DeskState
confirm_empty_trash accepts (Answer.failed message) s =
    let text = or_else message (codes "Action failed") in
    let told = shown (codes "Action failed") (some text) ToastVariant.error s in
    record told { error = some text; confirm_empty = false }
confirm_empty_trash accepts (Answer.answered entries) s =
    let failed_count = length (filter (λ e. not (accepts e.id)) s.trash_entries) in
    let deleted_count = length s.trash_entries - failed_count in
    let told =
      emptied failed_count deleted_count
        (record s { trash_entries = or_else entries []; confirm_empty = false }) in
    record told { refreshes = if ltb 0 deleted_count then suc told.refreshes else told.refreshes }

-- `handleRemoveDesktopFavorite`, beside its call of `removeFavorite`.
pub remove_desktop_favorite : DeskState → DeskState
remove_desktop_favorite s = shown (codes "Removed from desktop") none ToastVariant.success s

-- `handleOpenServiceForm`
pub open_service_form : Option ServiceShortcut → DeskState → DeskState
open_service_form svc s = record s { context_menu = none; service_form = some svc }

-- `handleSaveService`: whether the service is updated, with the identifier, or added; the first
-- answer is that of the request, the second one that of the health check.
abbrev is_update : Option (Option ServiceShortcut) → Bool
is_update (some (some svc)) = true
is_update form = false

abbrev checked : Bool → Answer (Unit {0}) → DeskState → DeskState
checked has_health_url (Answer.answered done) s = s
checked has_health_url (Answer.failed message) s =
    if has_health_url
    then shown (codes "Service saved; health check unavailable") message ToastVariant.warning s
    else s

unfoldable pub save_service :
    Bool → Answer (Unit {0}) → Answer (Unit {0}) → DeskState → Bool × DeskState
save_service has_health_url (Answer.failed message) health s = (false, s)
save_service has_health_url (Answer.answered done) health s = (
  true,
  checked has_health_url health (
      shown (if is_update s.service_form then codes "Service updated" else codes "Service added")
        none ToastVariant.success s),
)

-- `handleRemoveService` and its `onConfirm`
pub remove_service : Text → DeskState → DeskState
remove_service id s = record s { confirm_remove = some id }

pub service_removed : Answer (Unit {0}) → DeskState → DeskState
service_removed (Answer.answered done) s =
    shown (codes "Service removed from desktop") none ToastVariant.success
      (record s { confirm_remove = none })
service_removed (Answer.failed message) s =
    shown (codes "Could not remove service") message ToastVariant.error
      (record s { confirm_remove = none })

-- `handleDesktopNavigateToTrash`
pub navigate_to_trash : DeskState → DeskState
navigate_to_trash s = record s {
  current_path = [];
  active_view = ActiveView.trash;
  selected_paths = [];
}

-- `handleDockActivate`
pub data DockItem : Type 0 where
  desktop files trash jobs settings other : DockItem

pub data Move : Type 0 where
  to_desktop : Move
  to_path : Text → Move
  stay : Move

unfoldable pub dock_activate : List RootEntry → DockItem → DeskState → Move × DeskState
dock_activate roots DockItem.desktop s = (Move.to_desktop, s)
dock_activate roots DockItem.files s =
    if is_empty s.current_path
    then (Move.to_path (default_root_path roots), s)
    else (Move.stay, record s { active_view = ActiveView.files })
dock_activate roots DockItem.trash s =
    (Move.stay, record s { current_path = []; active_view = ActiveView.trash })
dock_activate roots DockItem.jobs s = (Move.stay, record s { active_view = ActiveView.jobs })
dock_activate roots DockItem.settings s =
    (Move.stay, record s { active_view = ActiveView.settings })
dock_activate roots DockItem.other s = (Move.stay, s)

-- `handleRefreshDesktop`
pub refresh_desktop : DeskState → DeskState
refresh_desktop s =
    let told = shown (codes "Refreshed") none ToastVariant.success s in
    record told { device_loads = suc s.device_loads; refreshes = suc s.refreshes }
