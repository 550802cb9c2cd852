-- ===== src/Picker/Order.antt =====
-- What the picker shows when the requests are answered in the order in which they were sent.
use volum.Base.{
  if◌then◌else◌, or_else, get_last?, filter, Text, text_eq, ℕ, ◌≡◌, ◌⊎◌, false, none, some, List,
  [], ◌∷◌, ◌++◌, map,
}
use volum.Picker.{Picker, Loaded, loaded, load_subdirs, navigate_to, go_up, go_back, crumb_clicked}

-- The picker, and the folders whose contents are requested, the oldest first.
pub record Session : Type 0 where
  pub picker : Picker
  pub sent : List Text

-- After a handler: the effect sends a request where the folder is another one.
abbrev pub after : Picker → Session → Session
after q x = record {
  picker = q;
  sent =
      if text_eq q.current_dir x.picker.current_dir then x.sent else x.sent ++ q.current_dir ∷ [];
}

abbrev pub before_mount : Text → Picker
before_mount initial_path = record {
  current_dir = initial_path;
  subdirs = [];
  loading = false;
  error = none;
  history = [];
}

-- The folders in an answer.
abbrev pub dirs_of : Loaded → List Text
dirs_of (Loaded.entries es) = map (λ e. e.path) (filter (λ e. e.is_directory) (or_else es []))
dirs_of (Loaded.failed message) = []

module _ (server : Text → Loaded) where
  -- Every handler, and answers to the oldest request.
  pub data Reach : Session → Type 0 where
    start :
        (path : Text)
        → Reach (record { picker = load_subdirs (before_mount path); sent = path ∷ [] })
    navigate : {x : Session} → (path : Text) → Reach x → Reach (after (navigate_to path x.picker) x)
    up : {x : Session} → Reach x → Reach (after (go_up x.picker) x)
    back : {x : Session} → Reach x → Reach (after (go_back x.picker) x)
    crumb : {x : Session} → (index : ℕ) → Reach x → Reach (after (crumb_clicked index x.picker) x)
    answer :
        {x : Session}
        → (path : Text) (rest : List Text) → x.sent ≡ path ∷ rest
        → Reach x
        → Reach (record { picker = loaded (server path) x.picker; sent = rest })

  abbrev pub IsListed : Picker → Type 0
  IsListed p = (p.subdirs ≡ dirs_of (server p.current_dir)) × (p.loading ≡ false)

  -- The newest request is for the current folder, or there is none and the folder is shown.
  abbrev IsDue : Session → Type 0
  IsDue x = ((x.sent ≡ []) × IsListed x.picker) ⊎ (get_last? x.sent ≡ some x.picker.current_dir)
