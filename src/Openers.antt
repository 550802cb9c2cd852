-- ===== src/Openers.antt =====
-- What opens the windows: frontend/src/hooks/useWorkspaceOpeners.ts. On a small screen the views of
-- Navigation are used instead. It calls Manager.
pub mod Shown
use volum.Base.{
  if◌then◌else◌, or_else, Text, codes, is_empty, pos, Bool, true, false, not, Option, none, some,
  List, [], ◌∷◌, ◌++◌,
}
use volum.Window.{standard_window_h, standard_window_w, Viewport}
use volum.Entries.{FileEntry}
use volum.Manager.{Manager, WindowState, WindowOptions, toggle_window, open_window, toggle_minimize}
use volum.Navigation.{ActiveView}
use volum.Services.{ServiceShortcut, OpenMode}

-- The parameters of the windows.
pub data Params : Type 0 where
  no_params : Params
  at_path : Text → Params
  preview_of : FileEntry → List FileEntry → Params
  service_at : Text → Text → Params

-- The calls of the hook's other arguments.
pub data Call : Type 0 where
  navigate_to : Text → Call
  set_active_view : ActiveView → Call
  reset_to_desktop_view : Call
  set_preview : FileEntry → List FileEntry → Call
  open_tab : Text → Call

pub data Opener : Type 0 where
  open_files : Option Text → Opener
  open_drives open_trash open_jobs open_settings open_desktop : Opener
  open_storage_analyzer : Option Text → Opener
  open_preview : FileEntry → Option (List FileEntry) → Opener
  open_service : ServiceShortcut → Opener

-- `selectedPath ? { path: selectedPath } : {}`
abbrev path_params : Option Text → Params
path_params none = Params.no_params
path_params (some path) = if is_empty path then Params.no_params else Params.at_path path

abbrev opens_tab : OpenMode → Bool
opens_tab OpenMode.tab = true
opens_tab OpenMode.embed = false

-- `wm.windows.forEach(...)`
abbrev pub minimize_all : List (WindowState Params) → Manager Params → Manager Params
minimize_all [] m = m
minimize_all (w ∷ ws) m = minimize_all ws (if not w.minimized then toggle_minimize w.id m else m)

module _ (default_root_path : Text) (icon : Opener → Text) (v : Viewport) where
  abbrev options : Opener → Text → Text → Params → WindowOptions Params
  options o title win_type params = record {
    title = title;
    icon = icon o;
    win_type = win_type;
    params = params;
    x = none;
    y = none;
    width = some (pos standard_window_w);
    height = some (pos standard_window_h);
  }

  -- `wm.toggleWindow(winType, ...)`
  abbrev toggled : Opener → Text → Text → Params → Manager Params → Manager Params
  toggled o win_type title params m =
      (toggle_window v win_type (options o title win_type params) m).0

  -- The openers on a large screen.
  unfoldable pub open_window_of : Opener → Manager Params → List Call × Manager Params
  open_window_of (Opener.open_files path) m = (
    [],
    toggled (Opener.open_files path) (codes "files") (codes "Files")
        (Params.at_path (or_else path default_root_path)) m,
  )
  open_window_of Opener.open_drives m = (
    Call.reset_to_desktop_view ∷ [],
    toggled Opener.open_drives (codes "drives") (codes "Drives") Params.no_params m,
  )
  open_window_of Opener.open_trash m =
      ([], toggled Opener.open_trash (codes "trash") (codes "Trash") Params.no_params m)
  open_window_of Opener.open_jobs m =
      ([], toggled Opener.open_jobs (codes "jobs") (codes "Jobs") Params.no_params m)
  open_window_of Opener.open_settings m =
      ([], toggled Opener.open_settings (codes "settings") (codes "Settings") Params.no_params m)
  open_window_of (Opener.open_storage_analyzer path) m = (
    [],
    toggled (Opener.open_storage_analyzer path) (codes "storage-analyzer")
        (codes "Storage Analyzer") (path_params path) m,
  )
  open_window_of (Opener.open_preview entry entries) m = (
    [],
    toggled (Opener.open_preview entry entries) (codes "preview") entry.name
        (Params.preview_of entry (or_else entries (entry ∷ []))) m,
  )
  open_window_of (Opener.open_service service) m =
      if opens_tab service.open_mode then (Call.open_tab service.url ∷ [], m) else (
        [],
        open_window v (codes "service-" ++ service.id)
            (record {
              title = service.name;
              icon = or_else service.icon_url [];
              win_type = codes "service";
              params = Params.service_at service.name service.url;
              x = none;
              y = none;
              width = some (pos 980);
              height = some (pos 640);
            })
            m,
      )
  open_window_of Opener.open_desktop m = ([], minimize_all m.rendered m)

  -- And on a small one.
  unfoldable pub open_view_of : Opener → List Call
  open_view_of (Opener.open_files path) = Call.navigate_to (or_else path default_root_path) ∷ []
  open_view_of Opener.open_drives = Call.set_active_view ActiveView.drives ∷ []
  open_view_of Opener.open_trash = Call.set_active_view ActiveView.trash ∷ []
  open_view_of Opener.open_jobs = Call.set_active_view ActiveView.jobs ∷ []
  open_view_of Opener.open_settings = Call.set_active_view ActiveView.settings ∷ []
  open_view_of (Opener.open_storage_analyzer path) =
      Call.set_active_view ActiveView.storage_analyzer ∷ []
  open_view_of (Opener.open_preview entry entries) =
      Call.set_preview entry (or_else entries (entry ∷ [])) ∷ []
  open_view_of (Opener.open_service service) = Call.open_tab service.url ∷ []
  open_view_of Opener.open_desktop = Call.reset_to_desktop_view ∷ []

  unfoldable pub open_item : Bool → Opener → Manager Params → List Call × Manager Params
  unfolding open_window_of open_view_of
  open_item is_mobile o m = if is_mobile then (open_view_of o, m) else open_window_of o m
