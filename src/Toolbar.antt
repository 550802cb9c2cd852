-- ===== src/Toolbar.antt =====
-- How many items of a bar are shown: frontend/src/components/layout/BreadcrumbBar.tsx and
-- frontend/src/components/layout/TopBar.tsx. The widths that the browser measures are arguments.
pub mod Fits
mod Tests
use volum.Base.{
  ltb, leb, if◌then◌else◌, take, drop, is_empty, ℕ, zero, suc, ◌+◌, ◌-◌, ◌*◌, ◌/◌, min, ◌&&◌,
  Option, none, some, List, [], ◌∷◌,
}

-- `moreBtnW`
abbrev pub more_button_width : ℕ
more_button_width = 34

-- The loop of `check`: from the item with index `i` on, after items of the width `total`. The
-- result is missing where it is -1.
unfoldable pub overflow_from : ℕ → ℕ → ℕ → List ℕ → Option ℕ
overflow_from available i total [] = none
overflow_from available i total (w ∷ ws) =
    let rest = overflow_from available (suc i) (total + w) ws in
    let needed = total + w + (if is_empty ws then 0 else more_button_width) in
    if ltb available needed && ltb 0 i then some i else rest

-- `check`: `toolbarOverflowIdx`; without items the index stays.
unfoldable pub check : ℕ → List ℕ → Option ℕ → Option ℕ
unfolding overflow_from
check available [] index = index
check available (w ∷ ws) index = overflow_from available 0 0 (w ∷ ws)

module _ {ℓ} {A : Type ℓ} where
  -- `visibleToolbarItems` and `hiddenToolbarItems`
  unfoldable pub visible_items : Option ℕ → List A → List A
  visible_items none items = items
  visible_items (some i) items = if ltb 0 i then take i items else items

  unfoldable pub hidden_items : Option ℕ → List A → List A
  hidden_items none items = []
  hidden_items (some i) items = if ltb 0 i then drop i items else []

-- `actionWidth`
abbrev pub action_width : ℕ
action_width = 34

-- `nextCount` of the actions of the top bar: the widths of the bar, of its left part and of the fixed
-- items on the right, and the number of the actions. The quotient is rounded down, where it is
-- negative to a negative number, which `Math.max` makes zero.
unfoldable pub available_width : ℕ → ℕ → ℕ → ℕ
available_width bar left fixed_right = bar - left - fixed_right - 24

unfoldable pub next_count : ℕ → ℕ → ℕ
next_count actions available =
    if leb (actions * action_width) available
    then actions
    else min (actions - 1) ((available - action_width) / action_width)
