-- ===== src/Navigation.antt =====
-- The views and the way back: frontend/src/hooks/useNavStack.ts and useNavigation.ts.
pub mod Return
use volum.Base.{
  ltb, ◌==◌, if◌then◌else◌, Text, codes, text_eq, is_empty, ℕ, Bool, false, Option, none, some,
  List, [], ◌∷◌,
}
use volum.Entries.{SearchResult}
use volum.Jobs.{Job, count_active_transfers}
use volum.Preferences.{Preferences, navigate_to_path}

pub data ActiveView : Type 0 where
  desktop files trash settings jobs drives search storage_analyzer : ActiveView

abbrev pub view_index : ActiveView → ℕ
view_index ActiveView.desktop = 0
view_index ActiveView.files = 1
view_index ActiveView.trash = 2
view_index ActiveView.settings = 3
view_index ActiveView.jobs = 4
view_index ActiveView.drives = 5
view_index ActiveView.search = 6
view_index ActiveView.storage_analyzer = 7

-- `a === b`
pub same_view : ActiveView → ActiveView → Bool
same_view a b = view_index a == view_index b

-- `topBarTitle`
abbrev pub top_bar_title : ActiveView → Option Text
top_bar_title ActiveView.drives = some (codes "Drives")
top_bar_title ActiveView.search = some (codes "Search")
top_bar_title ActiveView.storage_analyzer = some (codes "Storage Analyzer")
top_bar_title ActiveView.trash = some (codes "Trash")
top_bar_title ActiveView.settings = some (codes "Settings")
top_bar_title ActiveView.jobs = some (codes "Jobs")
top_bar_title ActiveView.files = some (codes "Files")
top_bar_title ActiveView.desktop = none

-- `useState<ActiveView>(currentPath ? 'files' : 'desktop')`
abbrev pub first_view : Text → ActiveView
first_view current_path = if is_empty current_path then ActiveView.desktop else ActiveView.files

-- An entry of the dock; the icon of the trash depends on whether it is empty.
pub record DockItem : Type 0 where
  pub id : Text
  pub label : Text
  pub full_icon : Bool
  pub badge : Option ℕ
  pub active : Bool

abbrev pub badge_of : ℕ → Option ℕ
badge_of n = if ltb 0 n then some n else none

abbrev dock_item : Text → Text → Bool → Option ℕ → Bool → DockItem
dock_item id label full_icon badge active = record {
  id = id;
  label = label;
  full_icon = full_icon;
  badge = badge;
  active = active;
}

-- `dockItems`
pub dock_items : ActiveView → List Job → ℕ → List DockItem
unfolding same_view
dock_items v listed_jobs trash_count =
    dock_item (codes "desktop") (codes "Desktop") false none (same_view v ActiveView.desktop)
    ∷ dock_item (codes "files") (codes "Files") false none (same_view v ActiveView.files)
    ∷ dock_item (codes "trash") (codes "Trash") (ltb 0 trash_count) (badge_of trash_count)
        (same_view v ActiveView.trash)
    ∷ dock_item (codes "storage-analyzer") (codes "Space") false none
        (same_view v ActiveView.storage_analyzer)
    ∷ dock_item (codes "jobs") (codes "Jobs") false (badge_of (count_active_transfers listed_jobs))
        (same_view v ActiveView.jobs)
    ∷ dock_item (codes "settings") (codes "Settings") false none (same_view v ActiveView.settings)
    ∷ []

-- The state that `useNavStack` sets; the last pushed folder is the first of the stack.
pub record NavStack : Type 0 where
  pub preferences : Preferences
  pub back_stack : List Text
  pub active_view : ActiveView
  pub search_open : Bool
  pub search_results : Option (List SearchResult)
  pub query : Text

-- `navigateTo`
unfoldable pub navigate_to : Text → NavStack → NavStack
navigate_to path s = record {
  preferences = navigate_to_path path s.preferences;
  back_stack =
      if text_eq (Preferences.current_path s.preferences) path
      then s.back_stack
      else Preferences.current_path s.preferences ∷ s.back_stack;
  active_view = ActiveView.files;
  search_open = false;
  search_results = none;
  query = [];
}

unfoldable pub reset_to_desktop_view : NavStack → NavStack
reset_to_desktop_view s = record s {
  preferences = record (s.preferences) { current_path = [] };
  active_view = ActiveView.desktop;
}

-- `goBack` once the stack is popped.
unfoldable pub go_back_to : Text → NavStack → NavStack
unfolding reset_to_desktop_view
go_back_to prev s = if is_empty prev then reset_to_desktop_view s else record s {
  preferences = navigate_to_path prev s.preferences;
  active_view = ActiveView.files;
}

abbrev pub popped : List Text → Text × List Text
popped [] = ([], [])
popped (prev ∷ stack) = (prev, stack)

unfoldable pub go_back : NavStack → NavStack
unfolding go_back_to
go_back s = let p = popped s.back_stack in go_back_to p.0 (record s { back_stack = p.1 })
