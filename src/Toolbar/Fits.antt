-- ===== src/Toolbar/Fits.antt =====
-- What is shown fits.
use volum.Base.{
  ltb, leb, if◌then◌else◌, lt→ltb, if_cases, length, take, length-take, length-drop, is_empty, ℕ,
  zero, suc, ◌+◌, ◌-◌, ◌*◌, ◌≤◌, ◌<◌, ◌≡◌, refl, ap, ◌↔◌, ◌⊎◌, inl, inr, true, false, ◌&&◌, Option,
  none, some, List, [], ◌∷◌, arith,
}
use volum.Toolbar.{
  overflow_from, check, visible_items, hidden_items, more_button_width, action_width, next_count,
}

abbrev pub width_of : List ℕ → ℕ
width_of [] = 0
width_of (w ∷ ws) = w + width_of ws

-- The items from an index on, after others: with an index found, the shown ones have room beside the
-- button for the rest, unless there is one only; with none, all of them have room.
abbrev IsFitting : ℕ → ℕ → ℕ → List ℕ → Option ℕ → Type 0
IsFitting available i total ws none = (i + length ws ≤ 1) ⊎ (total + width_of ws ≤ available)
IsFitting available i total ws (some k) =
    (i ≤ k)
    × (k < i + length ws)
    × (1 ≤ k)
    × ((k ≡ 1) ⊎ (total + width_of (take (k - i) ws) + more_button_width ≤ available))

abbrev HasRoom : ℕ → ℕ → ℕ → List ℕ → Type 0
HasRoom available i total ws =
    (i ≤ 1) ⊎ (total + (if is_empty ws then 0 else more_button_width) ≤ available)

HasRoom-next :
    (available i total w : ℕ) (ws : List ℕ)
    → (ltb available (total + w + (if is_empty ws then 0 else more_button_width)) && ltb 0 i)
      ≡ false
    → HasRoom available (suc i) (total + w) ws
HasRoom-next available zero total w ws h = inl (omega arith)
HasRoom-next available (suc i) total w ws h = inr (ground (arith, h))

IsFitting-cons :
    (available i total w : ℕ) (ws : List ℕ) (o : Option ℕ)
    → IsFitting available (suc i) (total + w) ws o
    → IsFitting available i total (w ∷ ws) o
IsFitting-cons available i total w ws none (inl p) = inl (omega (arith, p))
IsFitting-cons available i total w ws none (inr p) = inr (omega (arith, p))
IsFitting-cons available i total w ws (some k) (p, q, r, s) =
    let e : k - i ≡ suc (k - suc i) = omega (arith, p) in
    (
      omega (arith, p),
      omega (arith, q),
      r,
      elim s [ inl one ↦ inl one | inr fits ↦ inr (rw e (omega (arith, fits))) ],
    )

overflow_from-IsFitting :
    (available i total : ℕ) (ws : List ℕ)
    → HasRoom available i total ws
    → IsFitting available i total ws (overflow_from available i total ws)
unfolding overflow_from
overflow_from-IsFitting available i total [] (inl h) = inl (omega (arith, h))
overflow_from-IsFitting available i total [] (inr h) = inr (omega (arith, h))
overflow_from-IsFitting available i total (w ∷ ws) h =
    if_cases (IsFitting available i total (w ∷ ws))
      (ltb available (total + w + (if is_empty ws then 0 else more_button_width)) && ltb 0 i)
      (λ e.
        let above : 0 < i = ground (arith, e) in
        let none_left : i - i ≡ 0 = omega arith in
        (
          omega arith,
          omega arith,
          omega (arith, above),
          elim h [
            | inl few ↦ inl (omega (arith, few, above))
            | inr room ↦ inr (rw none_left (omega (arith, room)))
          ],
        ))
      (λ e. IsFitting-cons available i total w ws _ (
        overflow_from-IsFitting available (suc i) (total + w) ws
          (HasRoom-next available i total w ws e)))

-- The items that the toolbar shows, by the index from which on they are hidden.
abbrev pub IsShown : ℕ → List ℕ → Option ℕ → Type 0
IsShown available ws none = (length ws ≤ 1) ⊎ (width_of (visible_items none ws) ≤ available)
IsShown available ws (some k) =
    (1 ≤ length (visible_items (some k) ws))
    × (1 ≤ length (hidden_items (some k) ws))
    × ((k ≡ 1) ⊎ (width_of (visible_items (some k) ws) + more_button_width ≤ available))

IsShown-IsFitting :
    (available : ℕ) (ws : List ℕ) (o : Option ℕ)
    → IsFitting available 0 0 ws o
    → IsShown available ws o
unfolding visible_items hidden_items
IsShown-IsFitting available ws none (inl p) = inl (omega (arith, p))
IsShown-IsFitting available ws none (inr p) = inr (omega (arith, p))
IsShown-IsFitting available ws (some k) (p, q, r, s) =
    let above : ltb 0 k ≡ true = lt→ltb 0 k (omega (arith, r)) in
    let all_of_them : k - 0 ≡ k = omega arith in
    rw above (
      omega (arith, length-take k ws, q, r),
      omega (arith, length-drop k ws, q),
      elim s [
        | inl one ↦ inl one
        | inr fits ↦ inr (omega (arith, fits, ap (λ (n : ℕ). width_of (take n ws)) all_of_them))
      ],
    )

-- What the toolbar shows of its items: with some hidden, at least one is shown and at least one
-- hidden, and what is shown has room beside the button for the rest, unless it is one item only;
-- with none hidden, all have room, unless there is one only.
pub check-IsShown :
    (available w : ℕ) (ws : List ℕ) (index : Option ℕ)
    → IsShown available (w ∷ ws) (check available (w ∷ ws) index)
unfolding check
check-IsShown available w ws index =
    IsShown-IsFitting available (w ∷ ws) _
      (overflow_from-IsFitting available 0 0 (w ∷ ws) (inl (omega arith)))

-- The actions of the top bar that are shown have room beside the button for the rest; all are shown
-- exactly when all have room.
next_count-fits :
    (actions available : ℕ)
    → (next_count actions available ≤ actions)
      × ((next_count actions available ≡ actions) ↔ (actions * action_width ≤ available))
      × ((next_count actions available ≡ actions)
          ⊎ (next_count actions available ≡ 0)
          ⊎ (next_count actions available * action_width + action_width ≤ available))
unfolding next_count
next_count-fits actions available =
    if_cases
      (λ (n : ℕ).
        (n ≤ actions)
        × ((n ≡ actions) ↔ (actions * action_width ≤ available))
        × ((n ≡ actions) ⊎ (n ≡ 0) ⊎ (n * action_width + action_width ≤ available)))
      (leb (actions * action_width) available)
      (λ e. (omega arith, ((λ p. ground (arith, e)), (λ p. refl)), inl refl))
      (λ e. (
        omega arith,
        ((λ p. ground (arith, e, p)), (λ p. ground (arith, e, p))),
        inr (ground (arith, e)),
      ))
