-- ===== src/Archive/Tests.antt =====
-- Runs on names of archives.
use volum.Base.{codes, starts_with, ends_with, ◌≡◌, refl}
use volum.Archive.{lower, has_extension, strip, archive_base_name}

photos : archive_base_name (codes "photos.TAR.gz") ≡ codes "photos"
unfolding archive_base_name strip has_extension lower starts_with ends_with
photos = refl
