-- ===== src/Commands/Keyboard.antt =====
-- The keys of the file area: `handleFileAreaKeyDown` of frontend/src/hooks/useFileCommands.ts.
use volum.Base.{
  ltb, ◌==◌, if◌then◌else◌, is_some, length, Text, codes, text_eq, Bool, ◌&&◌, Option, none, some,
  List, [], ◌∷◌,
}
use volum.Entries.{is_file}
use volum.Commands.{FileEntry, CommandState, close_menu}
use volum.Commands.Files.{cancel_rename, rename, delete, preview}
use volum.Transfer.{Mode, Transfers, set_clipboard_from_selection, handle_paste}

pub record KeyPress : Type 0 where
  pub key : Text
  pub modified : Bool

-- What the hook is given.
pub record Given : Type 0 where
  pub current_path : Text
  pub can_write : Bool
  pub selected_entries : List FileEntry
  pub to_lower_case : Text → Text
  pub is_previewable : Text → Bool

abbrev pub is_key : Text → KeyPress → Bool
is_key name k = text_eq k.key name

-- `(metaKey || ctrlKey) && key.toLowerCase() === name`
abbrev pub is_shortcut : Given → Text → KeyPress → Bool
is_shortcut g name k = k.modified && text_eq (g.to_lower_case k.key) name

abbrev with_transfers : CommandState → Transfers → CommandState
with_transfers s t = record s { transfers = t }

-- The entry that `Enter` opens: the folder that is entered.
unfoldable pub enter : Given → List FileEntry → CommandState → Option Text × CommandState
unfolding preview
enter g [] s = (none, s)
enter g (e ∷ []) s =
    if is_file e.type then (none, preview g.is_previewable (e ∷ []) s) else (some e.path, s)
enter g (e ∷ f ∷ es) s = (none, s)

-- The keys after the shortcuts: the folder that is entered, and the new state.
unfoldable pub plain_key_down : Given → KeyPress → CommandState → Option Text × CommandState
unfolding enter rename delete
plain_key_down g k s =
    if is_key (codes "F2") k && g.can_write && length g.selected_entries == 1
    then (none, rename g.selected_entries s)
    else if is_key (codes "Delete") k && g.can_write && ltb 0 (length g.selected_entries)
    then (none, delete g.selected_entries s)
    else if is_key (codes "Escape") k
    then (none, close_menu (record s { selected_paths = []; last_selected_path = none }))
    else if is_key (codes "Enter") k
    then enter g g.selected_entries s
    else (none, s)

-- The keys while nothing is renamed.
unfoldable pub key_down_idle : Given → KeyPress → CommandState → Option Text × CommandState
unfolding plain_key_down set_clipboard_from_selection handle_paste
key_down_idle g k s =
    let clipboard = λ (mode : Mode).
      set_clipboard_from_selection mode g.can_write g.selected_entries s.transfers in
    if is_shortcut g (codes "a") k
    then (none, s)
    else if is_shortcut g (codes "c") k
    then (none, with_transfers s (clipboard Mode.copy))
    else if is_shortcut g (codes "x") k
    then (none, with_transfers s (clipboard Mode.move))
    else if is_shortcut g (codes "v") k
    then (none, with_transfers s (handle_paste g.can_write g.current_path s.transfers))
    else if is_shortcut g (codes "i") k
    then (none, s)
    else plain_key_down g k s

unfoldable pub key_down : Given → KeyPress → CommandState → Option Text × CommandState
unfolding key_down_idle
key_down g k s =
    if is_some s.renaming
    then (none, if is_key (codes "Escape") k then cancel_rename s else s)
    else key_down_idle g k s
