-- ===== src/Favorites.antt =====
-- Favourite folders: frontend/src/hooks/useFavorites.ts. If the server refuses a change, the list
-- is loaded again; that answer is an argument.
use volum.Base.{
  if◌then◌else◌, or_else, if_cases, filter, Text, text_eq, includes, IsDistinct, IsDistinct-concat,
  not, Option, none, some, List, [], ◌∷◌, ◌++◌,
}

-- The list of the last rendering tells whether the folder is added.
unfoldable pub add_favorite : Text → List Text → List Text → List Text
add_favorite path rendered favorites =
    if includes rendered path then favorites else favorites ++ path ∷ []

unfoldable pub remove_favorite : Text → List Text → List Text
remove_favorite path favorites = filter (λ f. not (text_eq f path)) favorites

-- The `catch` of a change: the server's list, where it answers.
pub reload_favorites : Option (List Text) → List Text → List Text
reload_favorites none favorites = favorites
reload_favorites (some listed) favorites = listed

-- The first load; an error gives the empty list.
pub load_favorites : Option (List Text) → List Text
load_favorites answer = or_else answer []

-- Adding to the list that is rendered keeps the folders distinct.
add_favorite-IsDistinct :
    (path : Text) (favorites : List Text)
    → IsDistinct favorites
    → IsDistinct (add_favorite path favorites favorites)
unfolding add_favorite
add_favorite-IsDistinct path favorites d =
    if_cases IsDistinct (includes favorites path) (λ e. d)
      (λ e. IsDistinct-concat favorites path d e)
