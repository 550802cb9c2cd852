-- ===== src/Calendar.antt =====
-- The days of a month: frontend/src/components/overlay/Calendar.tsx. What `Date` answers on the month
-- is an argument: the weekday of its first day, its number of days, and that of the month before.
pub mod Days
pub mod Grid
mod Tests
use volum.Base.{
  ltb, ◌==◌, if◌then◌else◌, or_else, length, get_last?, ◌+ℤ◌, ◌-ℤ◌, ℤ, pos, ℕ, zero, suc, ◌+◌, ◌-◌,
  List, [], ◌∷◌, ◌++◌,
}

pub record Weeks : Type 0 where
  pub weeks : List (List ℕ)
  pub week : List ℕ

-- The days before the first one.
abbrev pub leading_days : ℕ → ℕ → ℕ → List ℕ
leading_days days_in_prev first_day zero = []
leading_days days_in_prev first_day (suc i) =
    leading_days days_in_prev first_day i ++ (days_in_prev - first_day + i + 1) ∷ []

-- `week.push(d)`, and a new week after seven days.
unfoldable pub push_day : ℕ → Weeks → Weeks
push_day d g =
    let next = g.week ++ d ∷ [] in
    if length next == 7
    then record { weeks = g.weeks ++ next ∷ []; week = [] }
    else record { weeks = g.weeks; week = next }

-- The loop over the days, from `d` on.
unfoldable pub push_days : ℕ → ℕ → Weeks → Weeks
unfolding push_day
push_days zero d g = g
push_days (suc count) d g = push_days count (d + 1) (push_day d g)

-- The loop that fills the last week; it ends after seven rounds.
unfoldable pub fill_week : ℕ → List ℕ → List ℕ
fill_week zero week = week
fill_week (suc fuel) week =
    let longer = fill_week fuel (week ++ (or_else (get_last? week) 0 + 1) ∷ []) in
    if ltb (length week) 7 then longer else week

unfoldable pub last_week : Weeks → List (List ℕ)
unfolding fill_week
last_week g = if ltb 0 (length g.week) then g.weeks ++ fill_week 7 g.week ∷ [] else g.weeks

-- `getMonthGrid`
unfoldable pub month_grid : ℕ → ℕ → ℕ → List (List ℕ)
unfolding last_week push_days
month_grid first_day days_in_month days_in_prev = last_week (
    push_days days_in_month 1
      (record { weeks = []; week = leading_days days_in_prev first_day first_day }))

-- The month that is shown, counted from 0.
pub record View : Type 0 where
  pub view_year : ℤ
  pub view_month : ℕ

unfoldable pub prev_month : View → View
prev_month v =
    if v.view_month == 0
    then record { view_year = v.view_year -ℤ pos 1; view_month = 11 }
    else record v { view_month = v.view_month - 1 }

unfoldable pub next_month : View → View
next_month v =
    if v.view_month == 11
    then record { view_year = v.view_year +ℤ pos 1; view_month = 0 }
    else record v { view_month = v.view_month + 1 }

-- `goToday`
pub go_today : View → View → View
go_today today v = today
