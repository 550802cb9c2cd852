-- ===== src/Manager/Consistent.antt =====
-- The identifiers of the open windows, over every sequence of the manager's operations.
use volum.Base.{
  ℕ, ◌+◌, ◌<◌, ◌≡◌, ◌≢◌, refl, sym, ap, subst, ◌∙◌, Bool, true, false, List, [], ◌∷◌, ◌++◌, map,
  Text, text_eq_iff, includes, IsDistinct, includes-append, IsDistinct-concat, includes-filter,
  IsDistinct-filter, arith, if_cases, any, find, leb, Bool-cases, Option-cases, inl, inr, ℤ,
}
use volum.Window.{Viewport, WindowRect, get_work_area}
use volum.Manager.{
  WindowState, WindowOptions, Manager, count_of, window_id, has_id, update_window, clamp_window,
  clamp_windows, open_window, close_window, focus_window, toggle_minimize, toggle_maximize,
  update_position, update_size, toggle_new, toggle_existing, toggle_window, of_type, render,
  initial,
}
use volum.Manager.Names.{window_id-injective}

-- The calls that the rest of the program makes, a resize of the browser's window, a rendering.
pub data Action (P : Type 0) : Type 0 where
  open_ : Viewport → Text → WindowOptions P → Action P
  close : Text → Action P
  focus : Text → Action P
  minimize : Text → Action P
  maximize : Text → Action P
  move : Text → ℤ → ℤ → Action P
  size : Text → ℤ → ℤ → Action P
  toggle : Viewport → Text → WindowOptions P → Action P
  clamp : Viewport → Action P
  rerender : Action P

count_of_lem :
    (t u : Text) (n : ℕ) (counts : List (Text × ℕ))
    → count_of u ((t, count_of t counts + 1) ∷ counts) < n
    → (count_of u counts < n) × (t ≡ u → count_of t counts + 1 < n)
unfolding count_of
count_of_lem t u n counts lt =
    (ground (arith, text_eq_iff t u), λ e. ground (arith, text_eq_iff t u))

module _ {P : Type 0} where
  unfoldable pub run_action : Action P → Manager P → Manager P
  run_action (open_ v i opts) m = open_window v i opts m
  run_action (close i) m = close_window i m
  run_action (focus i) m = focus_window i m
  run_action (minimize i) m = toggle_minimize i m
  run_action (maximize i) m = toggle_maximize i m
  run_action (move i x y) m = update_position i x y m
  run_action (size i w h) m = update_size i w h m
  run_action (toggle v t opts) m = (toggle_window v t opts m).0
  run_action (clamp v) m = clamp_windows v m
  run_action rerender m = render m

  abbrev pub ids : List (WindowState P) → List Text
  ids ws = map (λ w. w.id) ws

  ids-update_window :
      (i : Text) (f : WindowState P → WindowState P)
      → ((w : WindowState P) → (f w).id ≡ w.id)
      → (ws : List (WindowState P)) → ids (update_window i f ws) ≡ ids ws
  unfolding update_window
  ids-update_window i f h [] = refl
  ids-update_window i f h (w ∷ ws) = ground (arith, h w, ids-update_window i f h ws)

  clamp_window-id : (area : WindowRect) (w : WindowState P) → (clamp_window area w).id ≡ w.id
  unfolding clamp_window
  clamp_window-id area w = ground arith

  ids-clamp :
      (area : WindowRect) (ws : List (WindowState P)) → ids (map (clamp_window area) ws) ≡ ids ws
  ids-clamp area [] = refl
  ids-clamp area (w ∷ ws) = ground (arith, clamp_window-id area w, ids-clamp area ws)

  ids-append :
      (ws : List (WindowState P)) (w : WindowState P) → ids (ws ++ w ∷ []) ≡ ids ws ++ w.id ∷ []
  ids-append [] w = refl
  ids-append (v ∷ ws) w = ap (λ t. v.id ∷ t) (ids-append ws w)

  includes-any : (i : Text) (ws : List (WindowState P)) → includes (ids ws) i ≡ any (has_id i) ws
  unfolding includes
  includes-any i [] = refl
  includes-any i (w ∷ ws) = ground (arith, includes-any i ws)

  -- `types` are the window types with which `toggleWindow` is called.
  module _ (types : Text → Bool) where
    -- `openWindow` is not given an identifier that `toggleWindow` makes.
    abbrev pub IsAllowed : Action P → Type 0
    IsAllowed (toggle v t opts) = types t ≡ true
    IsAllowed (open_ v i opts) = (t : Text) (n : ℕ) → types t ≡ true → i ≢ window_id t n
    IsAllowed _ = Unit

    pub record IsConsistent (m : Manager P) : Type 0 where
      pub distinct : IsDistinct (ids m.windows)
      pub fresh :
          (t : Text) (n : ℕ)
          → types t ≡ true
          → count_of t m.window_counts < n
          → includes (ids m.windows) (window_id t n) ≡ false

    -- The managers that are reached from an empty one.
    pub data Reach : Manager P → Type 0 where
      here : Reach initial
      next : {m : Manager P} (a : Action P) → IsAllowed a → Reach m → Reach (run_action a m)

    IsConsistent-same :
        (m m' : Manager P)
        → ids m'.windows ≡ ids m.windows
        → m'.window_counts ≡ m.window_counts
        → IsConsistent m
        → IsConsistent m'
    IsConsistent-same m m' e k c = record {
      distinct = subst IsDistinct (sym e) c.distinct;
      fresh = λ t n h lt. rw e (c.fresh t n h (rw k at lt));
    }

    add-fresh :
        (ws : List (WindowState P)) (w : WindowState P) (i : Text)
        → includes (ids ws) i ≡ false
        → w.id ≢ i
        → includes (ids (ws ++ w ∷ [])) i ≡ false
    unfolding includes
    add-fresh ws w i h k =
        rw (ids-append ws w)
          (ground (arith, includes-append (ids ws) (w.id ∷ []) i, text_eq_iff w.id i))

    add-IsDistinct :
        (ws : List (WindowState P)) (w : WindowState P)
        → IsDistinct (ids ws)
        → includes (ids ws) w.id ≡ false
        → IsDistinct (ids (ws ++ w ∷ []))
    add-IsDistinct ws w d h = rw (ids-append ws w) (IsDistinct-concat (ids ws) w.id d h)

    open_window-IsConsistent :
        (v : Viewport) (i : Text) (opts : WindowOptions P) (m : Manager P)
        → IsAllowed (open_ v i opts)
        → IsConsistent m
        → IsConsistent (open_window v i opts m)
    unfolding open_window
    open_window-IsConsistent v i opts m h c = elim (Bool-cases (any (has_id i) m.windows)) [
      | inl old ↦
          IsConsistent-same m _ (rw old (ids-update_window i _ (λ w. refl) m.windows)) refl c
      | inr new ↦ record {
        distinct = rw new (add-IsDistinct m.windows _ c.distinct (includes-any i m.windows ∙ new));
        fresh = λ t n k lt. rw new (add-fresh m.windows _ _ (c.fresh t n k lt) (h t n k));
      }
    ]

    close_window-IsConsistent :
        (i : Text) (m : Manager P) → IsConsistent m → IsConsistent (close_window i m)
    unfolding close_window
    close_window-IsConsistent i m c = record {
      distinct = IsDistinct-filter (λ w. w.id) _ m.windows c.distinct;
      fresh = λ t n k lt. includes-filter (λ w. w.id) _ m.windows _ (c.fresh t n k lt);
    }

    toggle_new-IsConsistent :
        (v : Viewport) (t : Text) (opts : WindowOptions P) (m : Manager P)
        → types t ≡ true
        → IsConsistent m
        → IsConsistent (toggle_new v t opts m).0
    unfolding toggle_new
    toggle_new-IsConsistent v t opts m k c = record {
      distinct = add-IsDistinct m.windows _ c.distinct (c.fresh t _ k (omega arith));
      fresh = λ u n ku lt.
          let (old, larger) = count_of_lem t u n m.window_counts lt in
          add-fresh m.windows _ _ (c.fresh u n ku old) (λ e.
            let (same_t, same_n) = window_id-injective t u _ n e in
            absurd (omega (arith, larger same_t, same_n)));
    }

    toggle_window-IsConsistent :
        (v : Viewport) (t : Text) (opts : WindowOptions P) (m : Manager P)
        → types t ≡ true
        → IsConsistent m
        → IsConsistent (toggle_window v t opts m).0
    unfolding toggle_window toggle_existing
    toggle_window-IsConsistent v t opts m k c = elim (Option-cases (find (of_type t) m.rendered)) [
      | inl missing ↦ rw (missing, toggle_window) (toggle_new-IsConsistent v t opts m k c)
      | inr (w, found) ↦
          rw (found, toggle_window)
            (IsConsistent-same m _ (ids-update_window w.id _ (λ x. refl) m.windows) refl c)
    ]

    clamp_windows-IsConsistent :
        (v : Viewport) (m : Manager P) → IsConsistent m → IsConsistent (clamp_windows v m)
    unfolding clamp_windows
    clamp_windows-IsConsistent v m c =
        if_cases IsConsistent (leb v.inner_width 760) (λ _. c)
          (λ _. IsConsistent-same m _ (ids-clamp (get_work_area v) m.windows) refl c)

    -- Every operation that is allowed keeps the identifiers distinct, and the identifiers that
    -- `toggleWindow` will make unused.
    pub run_action-IsConsistent :
        (a : Action P) (m : Manager P)
        → IsAllowed a
        → IsConsistent m
        → IsConsistent (run_action a m)
    unfolding run_action focus_window toggle_minimize toggle_maximize update_position update_size
        render
    run_action-IsConsistent (open_ v i opts) m h c = open_window-IsConsistent v i opts m h c
    run_action-IsConsistent (close i) m h c = close_window-IsConsistent i m c
    run_action-IsConsistent (focus i) m h c =
        IsConsistent-same m _ (ids-update_window i _ (λ w. refl) m.windows) refl c
    run_action-IsConsistent (minimize i) m h c =
        IsConsistent-same m _ (ids-update_window i _ (λ w. refl) m.windows) refl c
    run_action-IsConsistent (maximize i) m h c =
        IsConsistent-same m _ (ids-update_window i _ (λ w. refl) m.windows) refl c
    run_action-IsConsistent (move i x y) m h c =
        IsConsistent-same m _ (ids-update_window i _ (λ w. refl) m.windows) refl c
    run_action-IsConsistent (size i w' h') m h c =
        IsConsistent-same m _ (ids-update_window i _ (λ w. refl) m.windows) refl c
    run_action-IsConsistent (toggle v t opts) m h c = toggle_window-IsConsistent v t opts m h c
    run_action-IsConsistent (clamp v) m h c = clamp_windows-IsConsistent v m c
    run_action-IsConsistent rerender m h c = IsConsistent-same m _ refl refl c

    -- In every state that the operations reach from no windows, no two windows have the same
    -- identifier, and no window has an identifier that `toggleWindow` is still to make. The calls
    -- of `openWindow` must not use identifiers of the form that `toggleWindow` makes for its types.
    pub Reach-IsConsistent : {m : Manager P} → Reach m → IsConsistent m
    unfolding includes
    Reach-IsConsistent here = record { distinct = tt; fresh = λ t n k lt. refl }
    Reach-IsConsistent (next {m} a h r) = run_action-IsConsistent a m h (Reach-IsConsistent r)
