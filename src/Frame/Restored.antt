-- ===== src/Frame/Restored.antt =====
-- What maximizing a window and restoring it come to.
use volum.Base.{
  if◌then◌else◌, if_cases, All, All-imp, Text, text_eq, ◌≤ℤ◌, ℤ, pos, ◌≡◌, refl, ap, ap₂, ◌∙◌, ◌⊎◌,
  Bool, true, false, not, List, [], ◌∷◌,
}
use volum.Frame.{FrameState, maximize_click, rect_of_window}
use volum.Manager.{
  WindowState, update_window, has_id, toggle_maximize, update_position, update_size,
}
use volum.Window.{
  Viewport, WindowRect, get_work_area, clamp_window_rect, min_window_w, min_window_h,
}
use volum.Window.Clamp.{IsInside, clamp_window_rect_of_IsInside}

module _ {P : Type 0} where
  -- The windows with the identifier of `win` are `win` itself.
  abbrev pub IsOnly : WindowState P → List (WindowState P) → Type 0
  IsOnly win = All (λ w. has_id win.id w ≡ true → w ≡ win)

  update-update_window :
      (i : Text) (f g : WindowState P → WindowState P)
      → ((w : WindowState P) → (g w).id ≡ w.id)
      → (ws : List (WindowState P))
      → update_window i f (update_window i g ws) ≡ update_window i (λ w. f (g w)) ws
  unfolding update_window
  update-update_window i f g h [] = refl
  update-update_window i f g h (w ∷ ws) =
      ap₂ (λ (w : WindowState P) (ws : List (WindowState P)). w ∷ ws)
        (if_cases (λ u. (if has_id i u then f u else u) ≡ (if has_id i w then f (g w) else w))
          (has_id i w) (λ p. rw (ap (λ t. text_eq t i) (h w) ∙ p) (rw p refl)) (λ p. rw p refl))
        (update-update_window i f g h ws)

  update_window-same :
      (i : Text) (f : WindowState P → WindowState P) (ws : List (WindowState P))
      → All (λ w. has_id i w ≡ true → f w ≡ w) ws
      → update_window i f ws ≡ ws
  unfolding update_window
  update_window-same i f [] a = refl
  update_window-same i f (w ∷ ws) (h, a) =
      ap₂ (λ (w : WindowState P) (ws : List (WindowState P)). w ∷ ws)
        (if_cases (λ u. u ≡ w) (has_id i w) h (λ _. refl)) (update_window-same i f ws a)

  abbrev turn : WindowState P → WindowState P
  turn w = record w { maximized = not w.maximized }

  abbrev move_to : ℤ → ℤ → WindowState P → WindowState P
  move_to x y w = record w { x = x; y = y }

  abbrev size_to : ℤ → ℤ → WindowState P → WindowState P
  size_to width height w = record w { width = width; height = height }

  -- The four changes of a window that is maximized, placed and restored, in one.
  update_window_restored :
      (i : Text) (r : WindowRect) (ws : List (WindowState P))
      → update_window i turn (
          update_window i
            (size_to r.width r.height)
            (update_window i (move_to r.x r.y) (update_window i turn ws)))
        ≡ update_window i (λ w. turn (size_to r.width r.height (move_to r.x r.y (turn w)))) ws
  update_window_restored i r ws =
      let move = move_to r.x r.y in
      let size = size_to r.width r.height in
      ap (λ us. update_window i turn (update_window i size us))
        (update-update_window i move turn (λ _. refl) ws)
      ∙ ap (update_window i turn) (update-update_window i size (λ w. move (turn w)) (λ _. refl) ws)
      ∙ update-update_window i turn (λ w. size (move (turn w))) (λ _. refl) ws

  -- A window that is placed where it is, and turned twice.
  turned_back :
      (win : WindowState P) (r : WindowRect)
      → r ≡ rect_of_window win
      → turn (size_to r.width r.height (move_to r.x r.y (turn win))) ≡ win
  turned_back win r e =
      ap₂
        (λ (r : WindowRect) (b : Bool). record win {
          x = r.x;
          y = r.y;
          width = r.width;
          height = r.height;
          maximized = b;
        })
        e (elim win.maximized as (λ b. not (not b) ≡ b) [ true ↦ refl | false ↦ refl ])

  -- Where the window is the only one with its identifier, is not maximized, lies in the work area and
  -- is of the least size or fills the area in each direction, maximizing it and clicking again, on
  -- the window that it then is, leaves the windows as they were.
  pub maximize_click_twice :
      (v : Viewport) (win : WindowState P) (f : FrameState P)
      → win.maximized ≡ false
      → IsOnly win f.manager.windows
      → IsInside (rect_of_window win) (get_work_area v)
      → (pos min_window_w ≤ℤ win.width) ⊎ ((get_work_area v).width ≤ℤ win.width)
      → (pos min_window_h ≤ℤ win.height) ⊎ ((get_work_area v).height ≤ℤ win.height)
      → (maximize_click false v
          (record win { maximized = true })
          (maximize_click false v win f)).manager
        ≡ f.manager
  unfolding maximize_click toggle_maximize update_position update_size
  maximize_click_twice v win f small only inside wide high =
      let area = get_work_area v in
      let r = clamp_window_rect (rect_of_window win) area in
      let same = clamp_window_rect_of_IsInside (rect_of_window win) area inside wide high in
      rw small (
        ap (λ (ws : List (WindowState P)). record f.manager { windows = ws })
          (update_window_restored win.id r f.manager.windows
            ∙ update_window-same win.id _ f.manager.windows
                (All-imp _ _ (λ w h k. rw (h k) (turned_back win r same)) f.manager.windows only)))
