-- ===== src/Navigation/Return.antt =====
-- Going somewhere and back.
use volum.Base.{Text, text_eq, ◌≡◌, refl, false, [], ◌∷◌}
use volum.Preferences.{Preferences, navigate_to_path}
use volum.Navigation.{NavStack, first_view, navigate_to, reset_to_desktop_view, go_back_to, go_back}

abbrev pub place_of : NavStack → Text
place_of s = Preferences.current_path s.preferences

go_back_to-path : (prev : Text) (s : NavStack) → place_of (go_back_to prev s) ≡ prev
unfolding go_back_to reset_to_desktop_view navigate_to_path
go_back_to-path [] s = refl
go_back_to-path (c ∷ prev) s = refl

go_back_to-stack :
    (prev : Text) (s : NavStack)
    → (NavStack.back_stack (go_back_to prev s) ≡ s.back_stack)
      × (NavStack.active_view (go_back_to prev s) ≡ first_view prev)
unfolding go_back_to reset_to_desktop_view
go_back_to-stack [] s = (refl, refl)
go_back_to-stack (c ∷ prev) s = (refl, refl)

-- After going to another folder, or from the desktop to a folder, going back leads to where one
-- was, with the same stack, and shows the files exactly when that was a folder.
pub go_back-navigate_to :
    (path : Text) (s : NavStack)
    → text_eq (place_of s) path ≡ false
    → (place_of (go_back (navigate_to path s)) ≡ place_of s)
      × (NavStack.back_stack (go_back (navigate_to path s)) ≡ s.back_stack)
      × (NavStack.active_view (go_back (navigate_to path s)) ≡ first_view (place_of s))
unfolding go_back navigate_to
go_back-navigate_to path s h =
    let t = record (navigate_to path s) { back_stack = s.back_stack } in
    rw h (
      go_back_to-path (place_of s) t,
      (go_back_to-stack (place_of s) t).0,
      (go_back_to-stack (place_of s) t).1,
    )
