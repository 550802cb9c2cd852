-- ===== src/Manager/Stacking.antt =====
-- The stacking order of the windows: which one lies on top.
use volum.Base.{
  All-filter, refl, any, find, Bool-cases, Option-cases, inr, leb, false, inl, map, ◌⊎◌, Bool, true,
  ℕ, ◌<◌, ◌≤◌, ◌≡◌, List, [], ◌∷◌, ◌++◌, Text, arith, All, All-append, if_cases,
}
use volum.Manager.{
  open_rect, new_window, close_window, refresh, of_type, render, update_size, get_work_area,
  update_position, WindowOptions, toggle_maximize, toggle_new, Viewport, toggle_existing,
  toggle_minimize, WindowRect, clamp_window, clamp_windows, focus_window, open_window, raise,
  toggle_window, WindowState, Manager, max_z_index, next_z, has_id, update_window,
}
use volum.Manager.Consistent.{
  clamp, toggle, size, move, maximize, minimize, focus, close, open_, Action, Reach, run_action,
}

next_z-le : (z : ℕ) → z ≤ max_z_index → (z ≤ next_z z) × (next_z z ≤ max_z_index)
unfolding next_z
next_z-le z h = ground arith

next_z-lt : (z : ℕ) → z ≤ max_z_index → next_z z < max_z_index → z < next_z z
unfolding next_z
next_z-lt z h k = ground arith

module _ {P : Type 0} where
  -- The next number is not above the last one, no window is above it, and until it is reached
  -- every window lies below it.
  pub record IsStacked (m : Manager P) : Type 0 where
    pub bounded : m.next_z_index ≤ max_z_index
    pub below : All (λ w. w.z_index ≤ m.next_z_index) m.windows
    pub under : m.next_z_index < max_z_index → All (λ w. w.z_index < m.next_z_index) m.windows

  module _ (Q R : WindowState P → Type 0) where
    All-weaken :
        ((w : WindowState P) → Q w → R w) → (ws : List (WindowState P)) → All Q ws → All R ws
    All-weaken h [] a = tt
    All-weaken h (w ∷ ws) (q, a) = (h w q, All-weaken h ws a)

    All-update_window :
        (i : Text) (f : WindowState P → WindowState P)
        → ((w : WindowState P) → Q w → R (f w))
        → ((w : WindowState P) → Q w → R w)
        → (ws : List (WindowState P)) → All Q ws
        → All R (update_window i f ws)
    unfolding update_window
    All-update_window i f h k [] a = tt
    All-update_window i f h k (w ∷ ws) (q, a) =
        (if_cases R (has_id i w) (λ _. h w q) (λ _. k w q), All-update_window i f h k ws a)

  -- Raising some windows to the next number.
  IsStacked-raise :
      (m m' : Manager P) (i : Text) (f : WindowState P → WindowState P)
      → ((w : WindowState P) → (f w).z_index ≡ m.next_z_index)
      → m'.windows ≡ update_window i f m.windows
      → m'.next_z_index ≡ next_z m.next_z_index
      → IsStacked m
      → IsStacked m'
  IsStacked-raise m m' i f h e k s =
      let (grows, stays) = next_z-le m.next_z_index s.bounded in
      record {
        bounded = omega (arith, k);
        below =
            rw (e, k)
              (All-update_window _ _ i f (λ w q. omega (arith, h w)) (λ w q. omega arith) m.windows
                s.below);
        under = λ lt.
            let more = next_z-lt m.next_z_index s.bounded (rw k at lt) in
            rw (e, k)
              (All-update_window _ _ i f (λ w q. omega (arith, h w)) (λ w q. omega arith) m.windows
                s.below);
      }

  -- A new window with the next number.
  IsStacked-add :
      (m m' : Manager P) (w : WindowState P)
      → w.z_index ≡ m.next_z_index
      → m'.windows ≡ m.windows ++ w ∷ []
      → m'.next_z_index ≡ next_z m.next_z_index
      → IsStacked m
      → IsStacked m'
  IsStacked-add m m' w h e k s =
      let (grows, stays) = next_z-le m.next_z_index s.bounded in
      record {
        bounded = omega (arith, k);
        below =
            rw (e, k)
              (All-append _ m.windows _ (All-weaken _ _ (λ v q. omega arith) m.windows s.below)
                (omega arith, tt));
        under = λ lt.
            let more = next_z-lt m.next_z_index s.bounded (rw k at lt) in
            rw (e, k)
              (All-append _ m.windows _ (All-weaken _ _ (λ v q. omega arith) m.windows s.below)
                (omega arith, tt));
      }

  -- Changing windows without their numbers.
  IsStacked-keep :
      (m : Manager P) (i : Text) (f : WindowState P → WindowState P)
      → ((w : WindowState P) → (f w).z_index ≡ w.z_index)
      → IsStacked m
      → IsStacked (record m { windows = update_window i f m.windows })
  IsStacked-keep m i f h s = record {
    bounded = s.bounded;
    below = All-update_window _ _ i f (λ w q. omega (arith, h w)) (λ w q. q) m.windows s.below;
    under = λ lt.
        All-update_window _ _ i f (λ w q. omega (arith, h w)) (λ w q. q) m.windows (s.under lt);
  }

  clamp_window-z_index :
      (area : WindowRect) (w : WindowState P) → (clamp_window area w).z_index ≡ w.z_index
  unfolding clamp_window
  clamp_window-z_index area w = ground arith

  All-clamp :
      (n : ℕ) (area : WindowRect) (ws : List (WindowState P))
      → All (λ w. w.z_index ≤ n) ws
      → All (λ w. w.z_index ≤ n) (map (clamp_window area) ws)
  All-clamp n area [] a = tt
  All-clamp n area (w ∷ ws) (q, a) =
      (omega (arith, clamp_window-z_index area w), All-clamp n area ws a)

  clamp_windows-IsStacked :
      (v : Viewport) (m : Manager P) → IsStacked m → IsStacked (clamp_windows v m)
  unfolding clamp_windows
  clamp_windows-IsStacked v m s =
      if_cases IsStacked (leb v.inner_width 760) (λ _. s)
        (λ _. record {
          bounded = s.bounded;
          below = All-clamp m.next_z_index (get_work_area v) m.windows s.below;
          under = λ lt. All-clamp_lt (get_work_area v) m.windows (s.under lt);
        })
    where
      All-clamp_lt :
          (area : WindowRect) (ws : List (WindowState P))
          → All (λ w. w.z_index < m.next_z_index) ws
          → All (λ w. w.z_index < m.next_z_index) (map (clamp_window area) ws)
      All-clamp_lt area [] a = tt
      All-clamp_lt area (w ∷ ws) (q, a) =
          (omega (arith, clamp_window-z_index area w), All-clamp_lt area ws a)

  open_window-IsStacked :
      (v : Viewport) (i : Text) (opts : WindowOptions P) (m : Manager P)
      → IsStacked m
      → IsStacked (open_window v i opts m)
  unfolding open_window
  open_window-IsStacked v i opts m s = elim (Bool-cases (any (has_id i) m.windows)) [
    | inl old ↦ IsStacked-raise m _ i (raise m.next_z_index) (λ w. refl) (rw old) refl s
    | inr new ↦
        IsStacked-add m _ (new_window i opts (open_rect v opts) m.next_z_index) refl (rw new) refl s
  ]

  toggle_window-IsStacked :
      (v : Viewport) (t : Text) (opts : WindowOptions P) (m : Manager P)
      → IsStacked m
      → IsStacked (toggle_window v t opts m).0
  unfolding toggle_window toggle_existing toggle_new
  toggle_window-IsStacked v t opts m s = elim (Option-cases (find (of_type t) m.rendered)) [
    | inl missing ↦ rw (missing, toggle_window) (IsStacked-add m _ _ refl refl refl s)
    | inr (w, found) ↦
        rw (found, toggle_window)
          (IsStacked-raise m _ w.id (refresh opts m.next_z_index) (λ x. refl) refl refl s)
  ]

  run_action-IsStacked : (a : Action P) (m : Manager P) → IsStacked m → IsStacked (run_action a m)
  unfolding run_action focus_window toggle_minimize toggle_maximize update_position update_size
      render close_window
  run_action-IsStacked (open_ v i opts) m s = open_window-IsStacked v i opts m s
  run_action-IsStacked (close i) m s = record {
    bounded = s.bounded;
    below = All-filter _ _ m.windows s.below;
    under = λ lt. All-filter _ _ m.windows (s.under lt);
  }
  run_action-IsStacked (focus i) m s =
      IsStacked-raise m _ i (raise m.next_z_index) (λ w. refl) refl refl s
  run_action-IsStacked (minimize i) m s = IsStacked-keep m i _ (λ w. refl) s
  run_action-IsStacked (maximize i) m s = IsStacked-keep m i _ (λ w. refl) s
  run_action-IsStacked (move i x y) m s = IsStacked-keep m i _ (λ w. refl) s
  run_action-IsStacked (size i width height) m s = IsStacked-keep m i _ (λ w. refl) s
  run_action-IsStacked (toggle v t opts) m s = toggle_window-IsStacked v t opts m s
  run_action-IsStacked (clamp v) m s = clamp_windows-IsStacked v m s
  run_action-IsStacked Action.rerender m s = record {
    bounded = s.bounded;
    below = s.below;
    under = s.under;
  }

  -- In every state that the operations reach from no windows, the windows' stacking numbers are
  -- at most the next number, which is at most 9990, and until 9990 is reached they are smaller.
  pub Reach-IsStacked : {types : Text → Bool} {m : Manager P} → Reach types m → IsStacked m
  Reach-IsStacked Reach.here = record { bounded = omega arith; below = tt; under = λ lt. tt }
  Reach-IsStacked (Reach.next {m} a h r) = run_action-IsStacked a m (Reach-IsStacked r)

  -- The window with the identifier lies above every other one, and is shown.
  abbrev pub IsOnTop : Text → ℕ → WindowState P → Type 0
  IsOnTop i z w =
      ((has_id i w ≡ true) × (w.z_index ≡ z) × (w.minimized ≡ false))
      ⊎ ((has_id i w ≡ false) × (w.z_index < z))

  focus-IsOnTop :
      (i : Text) (z : ℕ) (ws : List (WindowState P))
      → All (λ w. w.z_index < z) ws
      → All (IsOnTop i z) (update_window i (raise z) ws)
  unfolding update_window
  focus-IsOnTop i z [] a = tt
  focus-IsOnTop i z (w ∷ ws) (q, a) = (
    if_cases (IsOnTop i z) (has_id i w) (λ e. inl (e, refl, refl)) (λ e. inr (e, q)),
    focus-IsOnTop i z ws a,
  )

  -- While fewer than 9890 numbers are used up, focusing brings a window to the top: afterwards the
  -- window with that identifier is shown and has a greater stacking number than every other one.
  pub focus_window-IsOnTop :
      {types : Text → Bool} {m : Manager P} (i : Text)
      → Reach types m
      → m.next_z_index < max_z_index
      → All (IsOnTop i m.next_z_index) (focus_window i m).windows
  unfolding focus_window
  focus_window-IsOnTop {m} i r lt =
      focus-IsOnTop i m.next_z_index m.windows ((Reach-IsStacked r).under lt)

  exhausted :
      (i j : Text) (ws : List (WindowState P))
      → All
          (λ w. (w.z_index ≡ max_z_index) ⊎ ((has_id i w ≡ false) × (has_id j w ≡ false)))
          (update_window j (raise max_z_index) (update_window i (raise max_z_index) ws))
  unfolding update_window
  exhausted i j [] = tt
  exhausted i j (w ∷ ws) = (ground arith, exhausted i j ws)

  -- Once the number 9990 is reached it stays, and focusing first one window and then another gives
  -- both of them the same stacking number, so that the second one is not above the first.
  focus_window_exhausted :
      (m : Manager P) (i j : Text)
      → m.next_z_index ≡ max_z_index
      → ((focus_window j (focus_window i m)).next_z_index ≡ max_z_index)
        × All
            (λ w. (w.z_index ≡ max_z_index) ⊎ ((has_id i w ≡ false) × (has_id j w ≡ false)))
            (focus_window j (focus_window i m)).windows
  unfolding focus_window next_z
  focus_window_exhausted m i j e = (ground arith, rw e (exhausted i j m.windows))
