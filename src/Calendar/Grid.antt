-- ===== src/Calendar/Grid.antt =====
-- Which days a month shows.
use mathlib.Core.List.{append-nil, append_assoc}
use volum.Base.{
  ltb, ◌==◌, if◌then◌else◌, ltb→lt, ltb→le, Bool-cases, or_else, if_cases, length, get_last?, All,
  length-append, All-append, get_last?-concat, ℕ, zero, suc, ◌+◌, ◌-◌, ◌≤◌, ◌<◌, ◌≡◌, refl, sym, ap,
  subst, ◌∙◌, ◌⊎◌, inl, inr, true, false, List, [], ◌∷◌, ◌++◌, arith,
}
use volum.Calendar.Days.{days_from, joined, joined-append, days_from-add, length-fill}
use volum.Calendar.{last_week, month_grid, Weeks, leading_days, push_day, push_days, fill_week}

-- The days that were pushed.
record IsFilled (shown : List ℕ) (g : Weeks) : Type 0 where
  every : joined g.weeks ++ g.week ≡ shown
  full : All (λ w. length w ≡ 7) g.weeks
  short : length g.week < 7

push_day-IsFilled :
    (shown : List ℕ) (d : ℕ) (g : Weeks)
    → IsFilled shown g
    → IsFilled (shown ++ d ∷ []) (push_day d g)
unfolding push_day
push_day-IsFilled shown d g f =
    let next = g.week ++ d ∷ [] in
    let n = length-append g.week (d ∷ []) in
    let pushed : joined g.weeks ++ next ≡ shown ++ d ∷ [] =
      sym (append_assoc (joined g.weeks) g.week (d ∷ [])) ∙ ap (λ l. l ++ d ∷ []) f.every in
    if_cases (IsFilled (shown ++ d ∷ [])) (length next == 7)
      (λ e. record {
        every = append-nil (joined (g.weeks ++ next ∷ [])) ∙ joined-append g.weeks next ∙ pushed;
        full = All-append (λ w. length w ≡ 7) g.weeks _ f.full (ground (arith, e), tt);
        short = omega arith;
      })
      (λ e. record { every = pushed; full = f.full; short = ground (arith, e, f.short, n) })

push_days-IsFilled :
    (count d : ℕ) (shown : List ℕ) (g : Weeks)
    → IsFilled shown g
    → IsFilled (shown ++ days_from d count) (push_days count d g)
unfolding push_days
push_days-IsFilled zero d shown g f = rw (append-nil shown) f
push_days-IsFilled (suc count) d shown g f =
    subst (λ l. IsFilled l (push_days count (d + 1) (push_day d g)))
      (append_assoc shown (d ∷ []) (days_from (d + 1) count))
      (push_days-IsFilled count (d + 1) (shown ++ d ∷ []) (push_day d g)
        (push_day-IsFilled shown d g f))

-- The last day of a week that has begun is the one before `d`.
abbrev HasLast : ℕ → Weeks → Type 0
HasLast d g = (g.week ≡ []) ⊎ (suc (or_else (get_last? g.week) 0) ≡ d)

push_day-HasLast : (d : ℕ) (g : Weeks) → HasLast (d + 1) (push_day d g)
unfolding push_day
push_day-HasLast d g =
    if_cases (HasLast (d + 1)) (length (g.week ++ d ∷ []) == 7) (λ e. inl refl)
      (λ e. inr (ap (λ o. suc (or_else o 0)) (get_last?-concat g.week d) ∙ omega arith))

push_days-HasLast : (count d : ℕ) (g : Weeks) → HasLast (d + suc count) (push_days (suc count) d g)
unfolding push_days
push_days-HasLast zero d g = push_day-HasLast d g
push_days-HasLast (suc count) d g =
    subst (λ n. HasLast n (push_days (suc count) (d + 1) (push_day d g))) (omega arith)
      (push_days-HasLast count (d + 1) (push_day d g))

fill_week-days_from :
    (fuel : ℕ) (week : List ℕ) (d : ℕ)
    → or_else (get_last? week) 0 + 1 ≡ d
    → length week ≤ 7
    → 7 ≤ length week + fuel
    → fill_week fuel week ≡ week ++ days_from d (7 - length week)
unfolding fill_week
fill_week-days_from zero week d h le enough =
    let none_left : 7 - length week ≡ 0 = omega (arith, enough) in
    rw none_left (sym (append-nil week))
fill_week-days_from (suc fuel) week d h le enough =
    let longer = week ++ d ∷ [] in
    let n : length longer ≡ length week + 1 = length-append week (d ∷ []) in
    elim (Bool-cases (ltb (length week) 7)) [
      | inl e ↦
          let left : 7 - length week ≡ suc (7 - length longer) =
            omega (arith, n, ltb→lt (length week) 7 e) in
          let last : or_else (get_last? longer) 0 + 1 ≡ d + 1 =
            ap (λ o. or_else o 0 + 1) (get_last?-concat week d) in
          rw (e, h, left)
            (fill_week-days_from fuel longer (d + 1) last
                (omega (arith, n, ltb→lt (length week) 7 e)) (omega (arith, n, enough))
              ∙ append_assoc week (d ∷ []) (days_from (d + 1) (7 - length longer)))
      | inr e ↦
          let none_left : 7 - length week ≡ 0 = omega (arith, ltb→le (length week) 7 e) in
          rw (e, none_left) (sym (append-nil week))
    ]

length-leading_days : (p f i : ℕ) → length (leading_days p f i) ≡ i
length-leading_days p f zero = refl
length-leading_days p f (suc i) =
    omega
      (arith, length-append (leading_days p f i) ((p - f + i + 1) ∷ []), length-leading_days p f i)

-- The cells before the first day count up to the last day of the month before.
leading_days-days_from : (p f i : ℕ) → f ≤ p → leading_days p f i ≡ days_from (suc p - f) i
leading_days-days_from p f zero h = refl
leading_days-days_from p f (suc i) h =
    let last : p - f + i + 1 ≡ suc p - f + i = omega (arith, h) in
    let sum : i + 1 ≡ suc i = omega arith in
    rw (leading_days-days_from p f i h, last)
      (days_from-add i 1 (suc p - f) ∙ ap (λ n. days_from (suc p - f) n) sum)

-- How many cells follow the last day.
abbrev pub missing : Weeks → ℕ
missing g = if ltb 0 (length g.week) then 7 - length g.week else 0

-- The weeks of the list, each of seven days.
abbrev pub AreWeeks : List ℕ → List (List ℕ) → Type 0
AreWeeks days weeks = (joined weeks ≡ days) × All (λ w. length w ≡ 7) weeks

no_week : (w : List ℕ) → ltb 0 (length w) ≡ false → w ≡ []
no_week [] e = refl
no_week (d ∷ w) e = absurd (ground (arith, e))

missing-lt : (g : Weeks) → missing g < 7
missing-lt g = ground arith

last_day :
    (g : Weeks) (d : ℕ)
    → ltb 0 (length g.week) ≡ true
    → HasLast d g
    → or_else (get_last? g.week) 0 + 1 ≡ d
last_day g d e (inl h) = absurd (ground (arith, e, ap length h))
last_day g d e (inr h) = omega (arith, h)

last_week-AreWeeks :
    (shown : List ℕ) (d : ℕ) (g : Weeks)
    → IsFilled shown g
    → HasLast d g
    → AreWeeks (shown ++ days_from d (missing g)) (last_week g)
unfolding last_week
last_week-AreWeeks shown d g f last = elim (Bool-cases (ltb 0 (length g.week))) [
  | inl e ↦
      let day : or_else (get_last? g.week) 0 + 1 ≡ d = last_day g d e last in
      let filled = fill_week-days_from 7 g.week d day (omega (arith, f.short)) (omega arith) in
      let size : length (g.week ++ days_from d (7 - length g.week)) ≡ 7 =
        omega (arith, f.short, length-fill g.week (7 - length g.week) d) in
      rw (e, filled)
        (
          joined-append g.weeks _
              ∙ sym (append_assoc (joined g.weeks) g.week (days_from d (7 - length g.week)))
              ∙ ap (λ l. l ++ days_from d (7 - length g.week)) f.every,
          All-append (λ w. length w ≡ 7) g.weeks _ f.full (size, tt),
        )
  | inr e ↦ rw e (
    sym (append-nil (joined g.weeks))
        ∙ ap (λ w. joined g.weeks ++ w) (sym (no_week g.week e))
        ∙ f.every
        ∙ sym (append-nil shown),
    f.full,
  )
]

-- A month with a first weekday is shown in weeks of seven cells: as many days of the month before as
-- the weekday of the first, up to its last day, the month's own days in order, and then fewer than
-- seven cells that count on beyond its last day.
pub month_grid-AreWeeks :
    (first_day days_in_month days_in_prev : ℕ)
    → first_day < 7
    → 1 ≤ days_in_month
    → first_day ≤ days_in_prev
    → (k : ℕ) × (k < 7)
      × AreWeeks
          (days_from (suc days_in_prev - first_day) first_day ++ days_from 1 (days_in_month + k))
          (month_grid first_day days_in_month days_in_prev)
unfolding month_grid
month_grid-AreWeeks first_day zero days_in_prev short some_day long =
    absurd (omega (arith, some_day))
month_grid-AreWeeks first_day (suc n) days_in_prev short some_day long =
    let leading = leading_days days_in_prev first_day first_day in
    let start : Weeks = record { weeks = []; week = leading } in
    let g = push_days (suc n) 1 start in
    let begun : IsFilled leading start = record {
      every = refl;
      full = tt;
      short = omega (arith, short, length-leading_days days_in_prev first_day first_day);
    } in
    let f = push_days-IsFilled (suc n) 1 leading start begun in
    let weeks =
      last_week-AreWeeks (leading ++ days_from 1 (suc n)) (1 + suc n) g f
        (push_days-HasLast n 1 start) in
    let before = leading_days-days_from days_in_prev first_day first_day long in
    let listed =
      weeks.0
      ∙ append_assoc leading (days_from 1 (suc n)) (days_from (1 + suc n) (missing g))
      ∙ ap (λ l. leading ++ l) (days_from-add (suc n) (missing g) 1)
      ∙ ap (λ l. l ++ days_from 1 (suc n + missing g)) before in
    (missing g, missing-lt g, (listed, weeks.1))
