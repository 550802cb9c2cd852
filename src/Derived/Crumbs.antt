-- ===== src/Derived/Crumbs.antt =====
-- The breadcrumbs of a path.
use volum.Base.{
  length, get_last?, filter, All, take_of_length-le, filter-of_All, All-imp, Text, is_empty, split,
  split_at, ℕ, ◌+◌, ◌≡◌, refl, ap, ap₂, ◌∙◌, true, false, not, some, List, [], ◌∷◌, ◌++◌, map,
  arith,
}
use volum.Paths.Laws.{NoSlash, split_at-append, split_at_of_NoSlash}
use volum.Paths.{slash}
use volum.Derived.{Crumb, join_slash, crumbs_from, path_parts, breadcrumbs, or_root}

-- The names of folders: not empty, and without a slash.
abbrev pub IsName : Text → Type 0
IsName part = (is_empty part ≡ false) × NoSlash part

split_at-join_slash :
    (p : Text) (ps : List Text)
    → NoSlash p
    → All NoSlash ps
    → split_at slash [] (join_slash (p ∷ ps)) ≡ p ∷ ps
unfolding join_slash
split_at-join_slash p [] h k = split_at_of_NoSlash [] p h
split_at-join_slash p (q ∷ ps) h k =
    split_at-append [] p (join_slash (q ∷ ps))
    ∙ ap₂ (λ xs ys. xs ++ ys) (split_at_of_NoSlash [] p h) (split_at-join_slash q ps k.0 k.1)

-- The parts of a joined path are what was joined.
pub path_parts-join_slash :
    (p : Text) (ps : List Text)
    → All IsName (p ∷ ps)
    → path_parts (slash ∷ join_slash (p ∷ ps)) ≡ p ∷ ps
unfolding split
path_parts-join_slash p ps h =
    ap (filter (λ part. not (is_empty part)))
      (split_at-join_slash p ps h.0.1 (All-imp IsName NoSlash (λ x k. k.1) ps h.1))
    ∙ filter-of_All (λ part. not (is_empty part)) (p ∷ ps)
        (All-imp IsName (λ part. not (is_empty part) ≡ true) (λ x k. rw (k.0) refl) (p ∷ ps) h)

labels_of-crumbs_from :
    (parts : List Text) (i : ℕ) (ps : List Text) → map Crumb.label (crumbs_from parts i ps) ≡ ps
unfolding crumbs_from
labels_of-crumbs_from parts i [] = refl
labels_of-crumbs_from parts i (p ∷ ps) = ap (λ t. p ∷ t) (labels_of-crumbs_from parts (i + 1) ps)

last_of-crumbs_from :
    (parts : List Text) (i : ℕ) (p : Text) (ps : List Text)
    → i + length (p ∷ ps) ≡ length parts
    → get_last? (map Crumb.path (crumbs_from parts i (p ∷ ps))) ≡ some (slash ∷ join_slash parts)
unfolding crumbs_from
last_of-crumbs_from parts i p [] h =
    ap (λ t. some (slash ∷ join_slash t)) (take_of_length-le (i + 1) parts (omega (arith, h)))
last_of-crumbs_from parts i p (q ∷ ps) h = last_of-crumbs_from parts (i + 1) q ps (omega (arith, h))

-- The path of a folder, from the names on the way to it: the breadcrumbs have these names as
-- labels, and the last one has the path itself.
breadcrumbs-join_slash :
    (p : Text) (ps : List Text)
    → All IsName (p ∷ ps)
    → let path = slash ∷ join_slash (p ∷ ps) in
      (map Crumb.label (breadcrumbs path) ≡ p ∷ ps)
      × (get_last? (map Crumb.path (breadcrumbs path)) ≡ some path)
unfolding breadcrumbs crumbs_from
breadcrumbs-join_slash p ps h =
    let e = path_parts-join_slash p ps h in
    let crumbs = λ (parts : List Text). or_root (crumbs_from parts 0 parts) in
    (
      ap (λ parts. map Crumb.label (crumbs parts)) e ∙ labels_of-crumbs_from (p ∷ ps) 0 (p ∷ ps),
      ap (λ parts. get_last? (map Crumb.path (crumbs parts))) e
          ∙ last_of-crumbs_from (p ∷ ps) 0 p ps (omega arith),
    )
