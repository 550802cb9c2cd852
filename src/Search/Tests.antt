-- ===== src/Search/Tests.antt =====
-- A session in which the answer to an older search comes last.
use volum.Base.{
  Text, codes, is_space, drop_while, drop_end_while, trim, ◌≡◌, refl, Option, none, some, List, [],
  ◌∷◌,
}
use volum.Entries.{FileType, SearchResult}
use volum.Search.{handle_global_search, settle_search}
use volum.Search.Latest.{Session, Reach, IsShown, Reach-IsShown}

abbrev result : Text → SearchResult
result name = record {
  name = name;
  path = b'/' ∷ name;
  type = FileType.file;
  size = 1;
  modified_at = [];
  root = codes "/";
  line_match = none;
}

-- A server that finds one file with the name that is looked for.
abbrev server : Text → Option (List SearchResult)
server text = some (result text ∷ [])

program : Unit {0}
unfolding handle_global_search settle_search trim drop_while drop_end_while is_space
program = tt

-- The results for "abc" arrive, then those for "ab".
overtaken :
    (x : Session) × (Reach server x × (x.search.search_results ≡ some (result (codes "abc") ∷ [])))
unfolding program
overtaken = (
  _,
  (
    Reach.answer 1 (1, codes "ab") refl
        (Reach.answer 0 (2, codes "abc") refl
          (Reach.type (codes "abc") (Reach.type (codes "ab") Reach.start))),
    refl,
  ),
)

Reach-IsShown_example : IsShown server (Session.search overtaken.0) (Session.latest overtaken.0)
Reach-IsShown_example = Reach-IsShown server overtaken.1.0
