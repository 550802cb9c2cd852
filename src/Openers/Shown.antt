-- ===== src/Openers/Shown.antt =====
-- Showing the desktop.
use volum.Base.{
  if◌then◌else◌, Bool-cases, Text, includes, IsDistinct, text_eq_refl, text_eq_comm, ◌≡◌, refl, sym,
  ap, ap₂, ◌∙◌, inl, inr, true, false, ◌&&◌, not, List, [], ◌∷◌, map, arith,
}
use volum.Manager.{Manager, WindowState, toggle_minimize, update_window, has_id}
use volum.Openers.{Params, Opener, minimize_all, open_window_of}
use volum.Window.{Viewport}

abbrev pub minimized_of : WindowState Params → WindowState Params
minimized_of w = record w { minimized = true }

abbrev pub ids : List (WindowState Params) → List Text
ids ws = map (λ w. w.id) ws

-- What the loop does to one window.
abbrev step : WindowState Params → WindowState Params → WindowState Params
step r w = if not r.minimized && has_id r.id w then record w { minimized = not w.minimized } else w

abbrev steps : List (WindowState Params) → WindowState Params → WindowState Params
steps [] w = w
steps (r ∷ rs) w = steps rs (step r w)

map-steps :
    (rs : List (WindowState Params)) (r : WindowState Params) (ws : List (WindowState Params))
    → map (steps rs) (map (step r) ws) ≡ map (steps (r ∷ rs)) ws
map-steps rs r [] = refl
map-steps rs r (w ∷ ws) = ap (λ l. steps rs (step r w) ∷ l) (map-steps rs r ws)

map_same :
    (r : WindowState Params) (ws : List (WindowState Params))
    → r.minimized ≡ true
    → map (step r) ws ≡ ws
map_same r [] h = refl
map_same r (w ∷ ws) h = rw h (ap (λ l. w ∷ l) (map_same r ws h))

map_toggled :
    (r : WindowState Params) (ws : List (WindowState Params))
    → r.minimized ≡ false
    → map (step r) ws ≡ update_window r.id (λ w. record w { minimized = not w.minimized }) ws
unfolding update_window
map_toggled r ws h = rw h refl

map-steps_nil : (ws : List (WindowState Params)) → ws ≡ map (steps []) ws
map-steps_nil [] = refl
map-steps_nil (w ∷ ws) = ap (λ l. w ∷ l) (map-steps_nil ws)

windows_of-minimize_all :
    (rs : List (WindowState Params)) (m : Manager Params)
    → Manager.windows (minimize_all rs m) ≡ map (steps rs) m.windows
unfolding toggle_minimize
windows_of-minimize_all [] m = map-steps_nil m.windows
windows_of-minimize_all (r ∷ rs) m = elim (Bool-cases r.minimized) [
  | inl e ↦
      rw e (windows_of-minimize_all rs m)
      ∙ ap (λ l. map (steps rs) l) (sym (map_same r m.windows e))
      ∙ map-steps rs r m.windows
  | inr e ↦
      rw e (windows_of-minimize_all rs (toggle_minimize r.id m))
      ∙ ap (λ l. map (steps rs) l) (sym (map_toggled r m.windows e))
      ∙ map-steps rs r m.windows
]

-- The windows after one with the same identifier do nothing to it.
steps_other :
    (rs : List (WindowState Params)) (w : WindowState Params)
    → includes (ids rs) w.id ≡ false
    → steps rs w ≡ w
unfolding includes
steps_other [] w h = refl
steps_other (r ∷ rs) w h =
    let other : has_id r.id w ≡ false = text_eq_comm w.id r.id ∙ ground (arith, h) in
    elim (Bool-cases r.minimized) [
      | inl e ↦ rw e (steps_other rs w (ground (arith, h)))
      | inr e ↦ rw (e, other) (steps_other rs w (ground (arith, h)))
    ]

step_self : (w : WindowState Params) → step w w ≡ minimized_of w
step_self w = elim (Bool-cases w.minimized) [
  | inl e ↦ rw e refl
  | inr e ↦ rw (e, text_eq_refl w.id) refl
]

map-step_other :
    (r : WindowState Params) (ws : List (WindowState Params))
    → includes (ids ws) r.id ≡ false
    → map (step r) ws ≡ ws
unfolding includes
map-step_other r [] h = refl
map-step_other r (w ∷ ws) h =
    let other : has_id r.id w ≡ false = ground (arith, h) in
    let rest = map-step_other r ws (ground (arith, h)) in
    elim (Bool-cases r.minimized) [
      | inl e ↦ rw e (ap (λ l. w ∷ l) rest)
      | inr e ↦ rw (e, other) (ap (λ l. w ∷ l) rest)
    ]

map-steps_all :
    (ws : List (WindowState Params)) → IsDistinct (ids ws) → map (steps ws) ws ≡ map minimized_of ws
map-steps_all [] d = refl
map-steps_all (w ∷ ws) d =
    let head : steps ws (step w w) ≡ minimized_of w =
      ap (λ u. steps ws u) (step_self w) ∙ steps_other ws (minimized_of w) d.0 in
    let tail : map (steps (w ∷ ws)) ws ≡ map minimized_of ws =
      sym (map-steps ws w ws)
      ∙ ap (λ l. map (steps ws) l) (map-step_other w ws d.0)
      ∙ map-steps_all ws d.1 in
    ap₂ (λ (u : WindowState Params) (l : List (WindowState Params)). u ∷ l) head tail

-- After a rendering, with distinct windows, showing the desktop minimizes every window and changes
-- nothing else of them.
windows-open_desktop :
    (root : Text) (icon : Opener → Text) (v : Viewport) (m : Manager Params)
    → m.rendered ≡ m.windows
    → IsDistinct (ids m.windows)
    → Manager.windows (open_window_of root icon v Opener.open_desktop m).1
      ≡ map minimized_of m.windows
unfolding open_window_of
windows-open_desktop root icon v m h d =
    windows_of-minimize_all m.rendered m ∙ rw h (map-steps_all m.windows d)
