-- ===== src/SearchView/Tests.antt =====
-- A session on the page of search results, with a server that finds one file with the given name.
use volum.Base.{
  Text, codes, text_eq, includes, is_space, drop_while, drop_end_while, trim, ℕ, ◌≡◌, refl, Option,
  none, some, List, [], ◌∷◌, arith,
}
use volum.Entries.{FileType, SearchResult}
use volum.Paths.{slash}
use volum.SearchView.{
  View, SearchEnd, before_mount, mounted, change_query, initial_query_effect, timer_fired, answered,
  re_searched, re_search, result_meta, selected_results,
}
use volum.SearchView.Late.{searching, answered-initial_query_effect_same, re_searched-late}
use volum.SearchView.Consistent.{IsAnswered}
use volum.SearchView.Shown.{Reach, Reach-IsAnswered}

abbrev result : Text → SearchResult
result name = record {
  name = name;
  path = slash ∷ name;
  type = FileType.file;
  size = 1;
  modified_at = [];
  root = slash ∷ [];
  line_match = none;
}

abbrev server : Text → Option (List SearchResult)
server text = some (result text ∷ [])

-- The page with the results for "abc", of which the first is selected.
abbrev results : View
results = record (before_mount (codes "abc")) {
  results = some (result (codes "abc") ∷ result (codes "abcd") ∷ []);
  selected_paths = codes "/abc" ∷ [];
}

program : Unit {0}
unfolding mounted change_query timer_fired answered result_meta text_eq trim drop_while
    drop_end_while is_space re_search selected_results includes
program = tt

-- "abc" and then "ab" is searched for, and the answer to "abc" comes last.
overtaken : Reach server (record {
  view = answered 2 (SearchEnd.found (server (codes "abc"))) (
      answered 3
        (SearchEnd.found (server (codes "ab")))
        (timer_fired (change_query (codes "ab") (timer_fired (mounted (codes "abc"))))));
  sent = (3, codes "ab") ∷ (2, codes "abc") ∷ [];
})
unfolding program
overtaken =
    Reach.answer 1 (2, codes "abc") refl
      (Reach.answer 0 (3, codes "ab") refl
        (Reach.fire (Reach.change (codes "ab") (Reach.fire (Reach.start (codes "abc"))))))

Reach-IsAnswered_example : IsAnswered server (
    answered 2 (SearchEnd.found (server (codes "abc"))) (
      answered 3
        (SearchEnd.found (server (codes "ab")))
        (timer_fired (change_query (codes "ab") (timer_fired (mounted (codes "abc")))))))
Reach-IsAnswered_example = Reach-IsAnswered server overtaken

answered-initial_query_effect_same_example :
    let loading = timer_fired (mounted (codes "abc")) in
    ((initial_query_effect loading.query loading).timer ≡ loading.timer)
    × ((initial_query_effect loading.query loading).loading ≡ loading.loading)
    × ((request_id : ℕ) (e : SearchEnd)
        → answered request_id e (initial_query_effect loading.query loading)
          ≡ initial_query_effect loading.query loading)
unfolding program
answered-initial_query_effect_same_example =
    answered-initial_query_effect_same (timer_fired (mounted (codes "abc"))) (omega arith)

re_searched-late_example :
    let x = searching (codes "xyz") results in
    let mine = SearchEnd.found (some (result (codes "xyz") ∷ [])) in
    let theirs = SearchEnd.found (some (result (codes "abc") ∷ [])) in
    let late = re_searched theirs (answered x.effect_id mine x) in
    ((answered x.effect_id mine (re_searched theirs x)).results ≡ some (result (codes "xyz") ∷ []))
    × ((late.query ≡ codes "xyz")
        × (late.results ≡ some (result (codes "abc") ∷ []))
        × (result_meta late ≡ some (1, codes "xyz")))
unfolding program
re_searched-late_example =
    re_searched-late results (codes "xyz") refl refl (λ q. result q ∷ []) (codes "abc") refl
