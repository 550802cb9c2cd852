-- ===== src/Search.antt =====
-- The global search of frontend/src/hooks/useFileBrowser.ts.
pub mod Latest
mod Tests
use volum.Base.{
  ltb, ◌==◌, if◌then◌else◌, or_else, length, Text, codes, trim, ℕ, ◌+◌, Bool, true, false, not,
  Option, none, some, List, [],
}
use volum.Entries.{SearchResult}

pub record Search : Type 0 where
  pub search_request : ℕ
  pub query : Text
  pub search_open : Bool
  pub search_results : Option (List SearchResult)
  pub search_loading : Bool
  pub search_error : Option Text

abbrev pub initial : Search
initial = record {
  search_request = 0;
  query = [];
  search_open = false;
  search_results = none;
  search_loading = false;
  search_error = none;
}

-- How the request of a search ends; the message is missing where the error is not an `Error`.
pub data SearchAnswer : Type 0 where
  found : Option (List SearchResult) → SearchAnswer
  unavailable : Option Text → SearchAnswer

-- `handleGlobalSearch`: the request that it sends, with its identifier, and the new state.
unfoldable pub handle_global_search : Text → Search → Option (ℕ × Text) × Search
handle_global_search search_query s =
    let request_id = s.search_request + 1 in
    if ltb (length (trim search_query)) 2
    then (
      none,
      record s {
        search_request = request_id;
        search_results = none;
        search_loading = false;
        search_error = none;
      },
    )
    else (
      some (request_id, trim search_query),
      record s { search_request = request_id; search_loading = true; search_error = none },
    )

-- `then`, `catch` and `finally` of a request that is the current one.
abbrev pub settle_search_current : SearchAnswer → Search → Search
settle_search_current (SearchAnswer.found results) s = record s {
  search_results = some (or_else results []);
  search_loading = false;
}
settle_search_current (SearchAnswer.unavailable message) s = record s {
  search_results = some [];
  search_error = some (or_else message (codes "Search is unavailable"));
  search_loading = false;
}

unfoldable pub settle_search : ℕ → SearchAnswer → Search → Search
settle_search request_id answer s =
    if request_id == s.search_request then settle_search_current answer s else s

-- `resetGlobalSearch`
unfoldable pub reset_global_search : Search → Search
reset_global_search s = record {
  search_request = s.search_request + 1;
  query = [];
  search_results = none;
  search_loading = false;
  search_error = none;
  search_open = false;
}
