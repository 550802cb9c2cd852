-- ===== src/Picker/Tests.antt =====
-- A walk through folders, and a session with two requests.
use volum.Base.{
  if◌then◌else◌, Text, codes, text_eq, ◌≡◌, refl, true, false, none, some, [], ◌∷◌, arith,
}
use volum.Paths.{slash}
use volum.Derived.{join_slash}
use volum.Picker.{Picker, Loaded, loaded, load_subdirs, navigate_to}
use volum.Picker.Order.{Session, before_mount}
use volum.Picker.Walk.{ups, ups-take}

abbrev picker : Picker
picker = record {
  current_dir = codes "/data/photos";
  subdirs = [];
  loading = false;
  error = none;
  history = [];
}

ups-take_example : (ups 1 picker).current_dir ≡ slash ∷ codes "data"
unfolding join_slash
ups-take_example = ups-take 1 (codes "data" ∷ codes "photos" ∷ []) picker (ground arith) refl

abbrev server : Text → Loaded
server path =
    if text_eq path (codes "/")
    then Loaded.entries (
        some (
          record { is_directory = true; path = codes "/data" }
          ∷ record { is_directory = false; path = codes "/a.txt" }
          ∷ []))
    else Loaded.failed none

-- A folder is left for the root before it is answered.
abbrev left : Session
left = record {
  picker = loaded (server (codes "/")) (
      loaded (server (codes "/data"))
        (navigate_to (codes "/") (load_subdirs (before_mount (codes "/data")))));
  sent = [];
}
