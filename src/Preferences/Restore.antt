-- ===== src/Preferences/Restore.antt =====
-- A folder is shown again as it was.
use volum.Base.{
  if_cases, Text, text_eq, is_empty, text_eq_refl, text_eq_comm, ◌≡◌, refl, ap, ◌∙◌, false, some,
  List,
}
use volum.Preferences.{
  ViewMode, SortField, SortDirection, FolderPref, Preferences, pref_of, shown_pref, save_pref,
  apply_pref, navigate_to_path, save_effect, set_view,
}

pref_of-save_pref :
    (path : Text) (pref : FolderPref) (prev : List (Text × FolderPref))
    → pref_of (save_pref path pref prev) path ≡ some pref
unfolding pref_of
pref_of-save_pref path pref prev = rw (text_eq_refl path) refl

pref_of-save_pref_other :
    (path other : Text) (pref : FolderPref) (prev : List (Text × FolderPref))
    → text_eq other path ≡ false
    → pref_of (save_pref other pref prev) path ≡ pref_of prev path
unfolding pref_of
pref_of-save_pref_other path other pref prev h = rw h refl

-- What is shown, apart from the folder.
abbrev pub view : Preferences → ViewMode × SortField × SortDirection
view p = (p.view_mode, p.sort_field, p.sort_direction)

-- The state after going to a folder, changing there how it is shown, and rendering.
abbrev pub visit : Text → ViewMode → SortField → SortDirection → Preferences → Preferences
visit path mode field direction p =
    save_effect (set_view mode field direction (save_effect (navigate_to_path path p)))

current_path-save_effect :
    (p : Preferences) → Preferences.current_path (save_effect p) ≡ p.current_path
unfolding save_effect
current_path-save_effect p =
    if_cases (λ q. Preferences.current_path q ≡ p.current_path) (is_empty p.current_path)
      (λ e. refl) (λ e. refl)

-- Rendering another folder leaves what is stored for a folder.
pref_of-save_effect :
    (p : Preferences) (path : Text)
    → text_eq p.current_path path ≡ false
    → pref_of (Preferences.folder_prefs (save_effect p)) path ≡ pref_of p.folder_prefs path
unfolding save_effect
pref_of-save_effect p path h =
    if_cases (λ q. pref_of (Preferences.folder_prefs q) path ≡ pref_of p.folder_prefs path)
      (is_empty p.current_path) (λ e. refl)
      (λ e. pref_of-save_pref_other path p.current_path (shown_pref p) p.folder_prefs h)

pref_of-navigate_to_path :
    (path : Text) (p : Preferences)
    → is_empty p.current_path ≡ false
    → text_eq p.current_path path ≡ false
    → pref_of (Preferences.folder_prefs (navigate_to_path path p)) p.current_path
      ≡ some (shown_pref p)
unfolding navigate_to_path
pref_of-navigate_to_path path p here differ =
    rw (here, differ) (pref_of-save_pref p.current_path (shown_pref p) p.folder_prefs)

current_path-navigate_to_path :
    (path : Text) (p : Preferences) → Preferences.current_path (navigate_to_path path p) ≡ path
unfolding navigate_to_path
current_path-navigate_to_path path p = refl

current_path-set_view :
    (mode : ViewMode) (field : SortField) (direction : SortDirection) (p : Preferences)
    → (Preferences.current_path (set_view mode field direction p) ≡ p.current_path)
      × (Preferences.folder_prefs (set_view mode field direction p) ≡ p.folder_prefs)
unfolding set_view
current_path-set_view mode field direction p = (refl, refl)

pref_of-visit :
    (path : Text) (mode : ViewMode) (field : SortField) (direction : SortDirection)
    (p : Preferences)
    → is_empty p.current_path ≡ false
    → text_eq p.current_path path ≡ false
    → pref_of (Preferences.folder_prefs (visit path mode field direction p)) p.current_path
      ≡ some (shown_pref p)
pref_of-visit path mode field direction p here differ =
    let a = navigate_to_path path p in
    let b = save_effect a in
    let c = set_view mode field direction b in
    let other : text_eq path p.current_path ≡ false = text_eq_comm path p.current_path ∙ differ in
    let at_a : text_eq (Preferences.current_path a) p.current_path ≡ false =
      ap (λ t. text_eq t p.current_path) (current_path-navigate_to_path path p) ∙ other in
    let at_c : text_eq (Preferences.current_path c) p.current_path ≡ false =
      ap (λ t. text_eq t p.current_path)
        ((current_path-set_view mode field direction b).0 ∙ current_path-save_effect a)
      ∙ at_a in
    pref_of-save_effect c p.current_path at_c
    ∙ ap (λ ps. pref_of ps p.current_path) (current_path-set_view mode field direction b).1
    ∙ pref_of-save_effect a p.current_path at_a
    ∙ pref_of-navigate_to_path path p here differ

-- Whatever is changed in another folder, coming back to a folder shows it as when it was left.
view-navigate_to_path-visit :
    (path : Text) (mode : ViewMode) (field : SortField) (direction : SortDirection)
    (p : Preferences)
    → is_empty p.current_path ≡ false
    → text_eq p.current_path path ≡ false
    → view (navigate_to_path p.current_path (visit path mode field direction p)) ≡ view p
unfolding navigate_to_path
view-navigate_to_path-visit path mode field direction p here differ =
    ap (λ pref. view (apply_pref pref (visit path mode field direction p)))
      (pref_of-visit path mode field direction p here differ)
