-- ===== src/Calendar/Tests.antt =====
-- A month of 31 days that begins on a Wednesday.
use volum.Base.{drop, ℕ, ◌+◌, ◌<◌, ◌≡◌, refl, [], ◌∷◌, ◌++◌, arith}
use volum.Calendar.{month_grid}
use volum.Calendar.Days.{days_from}
use volum.Calendar.Grid.{AreWeeks, month_grid-AreWeeks}

-- Its last week goes on after the 31st with 32 and 33.
last_cells : drop 28 (days_from 1 33) ≡ 29 ∷ 30 ∷ 31 ∷ 32 ∷ 33 ∷ []
last_cells = refl

month_grid-AreWeeks_example :
    (k : ℕ) × (k < 7) × AreWeeks (days_from 28 3 ++ days_from 1 (31 + k)) (month_grid 3 31 30)
month_grid-AreWeeks_example = month_grid-AreWeeks 3 31 30 (omega arith) (omega arith) (omega arith)
