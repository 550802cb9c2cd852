-- ===== src/Toolbar/Tests.antt =====
-- A toolbar of three items.
use volum.Base.{none, [], ◌∷◌}
use volum.Toolbar.{check}
use volum.Toolbar.Fits.{IsShown, check-IsShown}

check-IsShown_example : IsShown 100 (40 ∷ 30 ∷ 50 ∷ []) (check 100 (40 ∷ 30 ∷ 50 ∷ []) none)
check-IsShown_example = check-IsShown 100 40 (30 ∷ 50 ∷ []) none
