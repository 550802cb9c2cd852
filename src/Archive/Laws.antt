-- ===== src/Archive/Laws.antt =====
-- The derived name of an archive and its base name.
use mathlib.Core.List.{reverse-append, map-append}
use volum.Base.{
  length, take, length-append, Text, codes, starts_with, ends_with, or_text, ◌-◌, ◌≡◌, refl, ap,
  ◌∙◌, true, false, [], ◌∷◌, ◌++◌, map, reverse, arith,
}
use volum.Archive.{
  lower, has_extension, is_archive_file, strip, archive_base_name, archive_file_name,
}

reverse-zip :
    (s : Text) → reverse (map lower (s ++ codes ".zip")) ≡ codes "piz." ++ reverse (map lower s)
unfolding lower
reverse-zip s = rw (map-append, reverse-append) refl

-- A name that ends in ".zip" has that extension and none of the others.
has_extension-zip :
    (s : Text)
    → (has_extension (s ++ codes ".zip") (codes ".zip") ≡ true)
      × (has_extension (s ++ codes ".zip") (codes ".tar") ≡ false)
      × (has_extension (s ++ codes ".zip") (codes ".tar.gz") ≡ false)
      × (has_extension (s ++ codes ".zip") (codes ".tgz") ≡ false)
unfolding has_extension ends_with starts_with
has_extension-zip s = rw (reverse-zip s) (refl, refl, refl, refl)

take-length-append : (s t : Text) → take (length s) (s ++ t) ≡ s
take-length-append [] t = refl
take-length-append (c ∷ s) t = ap (λ u. c ∷ u) (take-length-append s t)

strip-zip : (s : Text) → strip (s ++ codes ".zip") (codes ".zip") ≡ s
unfolding strip
strip-zip s =
    let (a, b, c, d) = has_extension-zip s in
    let n : length (s ++ codes ".zip") - 4 ≡ length s =
      omega (arith, length-append s (codes ".zip")) in
    rw (a, n) (take-length-append s (codes ".zip"))

strip_of_other : (name ext : Text) → has_extension name ext ≡ false → strip name ext ≡ name
unfolding strip
strip_of_other name ext h = rw h refl

-- The name that is derived from an archive's is the name of an archive.
pub is_archive_file-archive_file_name :
    (name : Text) → is_archive_file (archive_file_name name) ≡ true
unfolding is_archive_file archive_file_name
is_archive_file-archive_file_name name =
    let (a, b, c, d) = has_extension-zip (archive_base_name name) in rw a refl

or_text_twice :
    (s : Text)
    → or_text (or_text s (codes "archive")) (codes "archive") ≡ or_text s (codes "archive")
or_text_twice [] = refl
or_text_twice (c ∷ s) = refl

strip_all-zip :
    (s : Text)
    → strip
        (strip (strip (strip (s ++ codes ".zip") (codes ".tar.gz")) (codes ".tgz")) (codes ".tar"))
        (codes ".zip")
      ≡ s
strip_all-zip s =
    let (a, b, c, d) = has_extension-zip s in
    rw
      (
        strip_of_other (s ++ codes ".zip") (codes ".tar.gz") c,
        strip_of_other (s ++ codes ".zip") (codes ".tgz") d,
        strip_of_other (s ++ codes ".zip") (codes ".tar") b,
      )
      (strip-zip s)

archive_base_name-zip :
    (s : Text) → archive_base_name (s ++ codes ".zip") ≡ or_text s (codes "archive")
unfolding archive_base_name
archive_base_name-zip s = ap (λ t. or_text t (codes "archive")) (strip_all-zip s)

or_text-archive_base_name :
    (name : Text) → or_text (archive_base_name name) (codes "archive") ≡ archive_base_name name
unfolding archive_base_name
or_text-archive_base_name name = or_text_twice (
    strip (strip (strip (strip name (codes ".tar.gz")) (codes ".tgz")) (codes ".tar"))
      (codes ".zip"))

-- Its base name is the base name of the archive.
pub archive_base_name-archive_file_name :
    (name : Text) → archive_base_name (archive_file_name name) ≡ archive_base_name name
unfolding archive_file_name
archive_base_name-archive_file_name name =
    archive_base_name-zip (archive_base_name name) ∙ or_text-archive_base_name name
