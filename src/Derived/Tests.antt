-- ===== src/Derived/Tests.antt =====
-- Runs of the derived values, and their theorems at concrete roots and paths.
use volum.Base.{codes, starts_with, split, ◌≡◌, refl, true, [], ◌∷◌}
use volum.Derived.{breadcrumbs, contains}

contains_middle : contains (codes "photos") (codes "hot") ≡ true
unfolding contains starts_with
contains_middle = refl

crumbs_of_root : breadcrumbs (codes "/") ≡ record { label = codes "/"; path = codes "/" } ∷ []
unfolding breadcrumbs split
crumbs_of_root = refl
