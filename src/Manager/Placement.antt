-- ===== src/Manager/Placement.antt =====
-- Where the manager puts windows, and which window a second `toggleWindow` finds.
use mathlib.Core.List.{append_assoc}
use mathlib.Core.Bool.{and-eq-true_iff}
use volum.Base.{
  leb, leb→le, if_cases, length, find, any, All, length-append, length-map, Text, starts_with,
  eqb_ℤ, eqb_ℤ-eq, text_eq_refl, print, ℕ, ◌+◌, ◌<◌, ◌≡◌, refl, subst, ◌∙◌, ◌≢◌, ◌⊎◌, inl, inr,
  Bool, true, false, ◌&&◌, none, some, List, [], ◌∷◌, ◌++◌, map, arith,
}
use volum.Manager.Names.{window_id-injective}
use volum.Manager.{
  count_of, new_window, get_work_area, of_type, render, Manager, WindowOptions, cascade_rect,
  clamp_window_rect, toggle_existing, Viewport, open_rect, rect_of, toggle_new, WindowState,
  clamp_window, clamp_windows, toggle_window, update_window, window_id,
}
use volum.Window.{WindowRect}
use volum.Window.Clamp.{IsInside, clamp_window_rect-IsInside}

module _ {P : Type 0} where
  -- A window lies in the area, unless it is maximized.
  abbrev pub IsPlaced : WindowRect → WindowState P → Type 0
  IsPlaced area w = (w.maximized ≡ true) ⊎ IsInside (rect_of w) area

  rect_of-path :
      (r : WindowRect) (w : WindowState P)
      → (eqb_ℤ r.x w.x && eqb_ℤ r.y w.y && eqb_ℤ r.width w.width && eqb_ℤ r.height w.height) ≡ true
      → r ≡ rect_of w
  rect_of-path r w e =
      let (abc, d) = (and-eq-true_iff _ _).0 e in
      let (ab, c) = (and-eq-true_iff _ _).0 abc in
      let (a, b) = (and-eq-true_iff _ _).0 ab in
      λ i. record {
        x = eqb_ℤ-eq r.x w.x a i;
        y = eqb_ℤ-eq r.y w.y b i;
        width = eqb_ℤ-eq r.width w.width c i;
        height = eqb_ℤ-eq r.height w.height d i;
      }

  clamp_window-IsPlaced :
      (area : WindowRect) (w : WindowState P) → IsPlaced area (clamp_window area w)
  unfolding clamp_window
  clamp_window-IsPlaced area w =
      let inside = clamp_window_rect-IsInside (rect_of w) area in
      if_cases (IsPlaced area) w.maximized (λ e. inl e)
        (λ _.
          if_cases (IsPlaced area) _
            (λ e. inr (
              subst (λ r. IsInside r area) (rect_of-path (clamp_window_rect (rect_of w) area) w e)
                inside))
            (λ _. inr inside))

  All-clamp_window :
      (area : WindowRect) (ws : List (WindowState P))
      → All (IsPlaced area) (map (clamp_window area) ws)
  All-clamp_window area [] = tt
  All-clamp_window area (w ∷ ws) = (clamp_window-IsPlaced area w, All-clamp_window area ws)

  -- After the browser's window was resized to more than 760 pixels in width, every window that is
  -- not maximized lies in the new work area.
  pub clamp_windows-IsPlaced :
      (v : Viewport) (m : Manager P)
      → 760 < v.inner_width
      → All (IsPlaced (get_work_area v)) (clamp_windows v m).windows
  unfolding clamp_windows
  clamp_windows-IsPlaced v m h =
      if_cases (λ (n : Manager P). All (IsPlaced (get_work_area v)) n.windows)
        (leb v.inner_width 760) (λ e. absurd (let k = leb→le _ _ e in omega arith))
        (λ _. All-clamp_window (get_work_area v) m.windows)

  -- The windows that `openWindow` and `toggleWindow` add lie in the work area, whatever position
  -- and size the caller asks for.
  pub new_window-IsInside :
      (v : Viewport) (opts : WindowOptions P) (ci : ℕ)
      → IsInside (open_rect v opts) (get_work_area v)
        × IsInside (cascade_rect v opts ci) (get_work_area v)
  unfolding open_rect cascade_rect
  new_window-IsInside v opts ci = (clamp_window_rect-IsInside _ _, clamp_window_rect-IsInside _ _)

starts_with-append : (s r : Text) → starts_with (s ++ r) s ≡ true
unfolding starts_with
starts_with-append [] [] = refl
starts_with-append [] (c ∷ r) = refl
starts_with-append (c ∷ s) r = ground (arith, starts_with-append s r)

window_id-starts_with : (t : Text) (n : ℕ) → starts_with (window_id t n) (t ++ b'-' ∷ []) ≡ true
unfolding window_id
window_id-starts_with t n =
    rw (← append_assoc t (b'-' ∷ []) (print n)) (starts_with-append (t ++ b'-' ∷ []) (print n))

count_of_self : (t : Text) (n : ℕ) (counts : List (Text × ℕ)) → count_of t ((t, n) ∷ counts) ≡ n
unfolding count_of
count_of_self t n counts = ground (arith, text_eq_refl t)

module _ {P : Type 0} where
  find-concat :
      (p : WindowState P → Bool) (ws : List (WindowState P)) (w : WindowState P)
      → any p ws ≡ false
      → p w ≡ true
      → find p (ws ++ w ∷ []) ≡ some w
  find-concat p [] w h k = ground arith
  find-concat p (x ∷ ws) w h k = ground (arith, find-concat p ws w)

  find-any :
      (p : WindowState P → Bool) (ws : List (WindowState P)) → any p ws ≡ false → find p ws ≡ none
  find-any p [] h = refl
  find-any p (x ∷ ws) h = ground (arith, find-any p ws)

  length-update_window :
      (i : Text) (f : WindowState P → WindowState P) (ws : List (WindowState P))
      → length (update_window i f ws) ≡ length ws
  unfolding update_window
  length-update_window i f ws = length-map _ ws

  toggle_window-none :
      (v : Viewport) (t : Text) (opts : WindowOptions P) (m : Manager P)
      → any (of_type t) m.rendered ≡ false
      → toggle_window v t opts m ≡ toggle_new v t opts m
  unfolding toggle_window
  toggle_window-none v t opts m h = rw (find-any (of_type t) m.rendered h, toggle_window)

  toggle_window-some :
      (v : Viewport) (t : Text) (opts : WindowOptions P) (m : Manager P) (w : WindowState P)
      → find (of_type t) m.rendered ≡ some w
      → toggle_window v t opts m ≡ toggle_existing w.id opts m
  unfolding toggle_window
  toggle_window-some v t opts m w h = rw (h, toggle_window)

  toggle_new-found :
      (v v' : Viewport) (t : Text) (opts opts' : WindowOptions P) (m : Manager P)
      → any (of_type t) m.windows ≡ false
      → toggle_window v' t opts' (render (toggle_new v t opts m).0)
        ≡ toggle_existing (toggle_new v t opts m).1 opts' (render (toggle_new v t opts m).0)
  unfolding toggle_new render
  toggle_new-found v v' t opts opts' m h =
      toggle_window-some v' t opts' _
        (new_window (window_id t (count_of t m.window_counts + 1)) opts
          (cascade_rect v opts m.cascade_index) m.next_z_index)
        (find-concat (of_type t) m.windows _ h (window_id-starts_with t _))

  -- If no window of the type is open, `toggleWindow` opens one, and after a rendering a second
  -- `toggleWindow` of the type answers with the same window and opens no other.
  toggle_window_twice :
      (v v' : Viewport) (t : Text) (opts opts' : WindowOptions P) (m : Manager P)
      → any (of_type t) m.windows ≡ false
      → any (of_type t) m.rendered ≡ false
      → let (m', i) = toggle_window v t opts m in
        let (m'', j) = toggle_window v' t opts' (render m') in
        (j ≡ i) × (length m''.windows ≡ length m.windows + 1)
  unfolding toggle_new toggle_existing render
  toggle_window_twice v v' t opts opts' m h k =
      rw (toggle_window-none v t opts m k, toggle_new-found v v' t opts opts' m h)
        (refl, length-update_window _ _ _ ∙ length-append m.windows _)

  -- Before a rendering the second call does not see the first one's window, and opens another.
  toggle_window_unrendered :
      (v v' : Viewport) (t : Text) (opts opts' : WindowOptions P) (m : Manager P)
      → any (of_type t) m.rendered ≡ false
      → let (m', i) = toggle_window v t opts m in
        let (m'', j) = toggle_window v' t opts' m' in
        (j ≢ i) × (length m''.windows ≡ length m.windows + 2)
  unfolding toggle_new
  toggle_window_unrendered v v' t opts opts' m k =
      rw
        (toggle_window-none v t opts m k, toggle_window-none v' t opts' (toggle_new v t opts m).0 k)
        (
          λ e.
              absurd (
                omega
                  (arith, count_of_self t _ m.window_counts, (window_id-injective t t _ _ e).1)),
          omega (arith, length-append (m.windows ++ _ ∷ []) _, length-append m.windows _),
        )
