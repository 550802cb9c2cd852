-- ===== src/Paths/Tests.antt =====
-- Runs of the functions on paths.
use volum.Base.{codes, drop_while, drop_end_while, is_space, trim, ◌≡◌, refl, []}
use volum.Paths.{normalize_folder_path}

normalize_photos : normalize_folder_path (codes "photos/") ≡ codes "photos"
unfolding normalize_folder_path trim drop_end_while drop_while is_space
normalize_photos = refl

normalize_empty : normalize_folder_path [] ≡ codes "/"
unfolding normalize_folder_path trim drop_end_while drop_while is_space
normalize_empty = refl
