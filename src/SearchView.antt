-- ===== src/SearchView.antt =====
-- The page of search results: frontend/src/pages/SearchResultsView.tsx. The effect on the query runs
-- after the rendering that a change of the query brings; the server's answers are arguments.
pub mod Actions
pub mod Consistent
pub mod Shown
pub mod Late
mod Tests
use volum.Base.{
  ltb, leb, ◌==◌, if◌then◌else◌, or_else, is_some, length, filter, any, Text, text_eq, includes,
  trim, ℕ, ◌+◌, Bool, true, false, ◌&&◌, not, Option, none, some, List, [], map,
}
use volum.Entries.{FileEntry, SearchResult, FileType, is_file}
use volum.Preview.{is_previewable_file}
use volum.Transfer.{TransferDialog, Toast}

-- `searchResultToFileEntry`
unfoldable pub search_result_to_file_entry : SearchResult → FileEntry
search_result_to_file_entry result = record {
  name = result.name;
  path = result.path;
  type = result.type;
  size = result.size;
  modified_at = result.modified_at;
  permissions = [];
  owner = [];
  group = [];
  hidden = false;
}

-- `ConfirmDialogState`, by what `onConfirm` does; the text is the query that `reSearch` repeats.
pub data Confirm : Type 0 where
  download : FileEntry → Confirm
  move_to_trash : List SearchResult → Text → Confirm

-- `TextInputDialogState`, by what `onSubmit` does; a rename has the query of `reSearch`, and an
-- archive that is extracted the placeholder.
pub data TextInput : Type 0 where
  rename : FileEntry → Text → TextInput
  create_archive generate_checksum : SearchResult → TextInput
  extract_archive : SearchResult → Text → TextInput

-- The state of the page. `search_request` is `searchRequestRef`, and `effect_id` the identifier of
-- the effect on the query that ran last: any other one is `cancelled`. `timer` is the search that
-- waits for its 200 milliseconds.
pub record View : Type 0 where
  pub query : Text
  pub results : Option (List SearchResult)
  pub loading : Bool
  pub error : Option Text
  pub selected_paths : List Text
  pub context_menu : Option SearchResult
  pub preview_entry : Option FileEntry
  pub info_entry : Option FileEntry
  pub confirm_dialog : Option Confirm
  pub text_input_dialog : Option TextInput
  pub transfer_dialog : Option TransferDialog
  pub share_dialog_path : Option (Text × Text)
  pub search_request : ℕ
  pub effect_id : ℕ
  pub timer : Option (ℕ × Text)
  pub toasts : List Toast

-- The effect on the query: the one before is cleaned up, so that its timer is cleared.
unfoldable pub query_effect : View → View
query_effect v =
    let request_id = v.search_request + 1 in
    if ltb (length (trim v.query)) 2
    then record v {
      search_request = request_id;
      effect_id = request_id;
      timer = none;
      results = none;
      loading = false;
      error = none;
    }
    else record v {
      search_request = request_id;
      effect_id = request_id;
      timer = some (request_id, trim v.query);
    }

-- `setQuery(text)` and what follows: without a change there is no rendering and no effect.
unfoldable pub set_query : Text → View → View
unfolding query_effect
set_query text v = if text_eq text v.query then v else query_effect (record v { query = text })

-- The effect on `initialQuery`
unfoldable pub initial_query_effect : Text → View → View
unfolding set_query
initial_query_effect initial_query v =
    set_query initial_query
      (record v { search_request = v.search_request + 1; selected_paths = [] })

-- The page before its first rendering, and after it.
abbrev pub before_mount : Text → View
before_mount initial_query = record {
  query = initial_query;
  results = none;
  loading = false;
  error = none;
  selected_paths = [];
  context_menu = none;
  preview_entry = none;
  info_entry = none;
  confirm_dialog = none;
  text_input_dialog = none;
  transfer_dialog = none;
  share_dialog_path = none;
  search_request = 0;
  effect_id = 0;
  timer = none;
  toasts = [];
}

unfoldable pub mounted : Text → View
unfolding query_effect
mounted initial_query = query_effect (record (before_mount initial_query) { search_request = 1 })

-- `onChange` of the input
unfoldable pub change_query : Text → View → View
unfolding set_query
change_query text v = set_query text (record v { selected_paths = [] })

-- `handleClearSearch`
unfoldable pub handle_clear_search : View → View
unfolding set_query
handle_clear_search v = set_query [] (record v {
  search_request = v.search_request + 1;
  results = none;
  selected_paths = [];
  error = none;
})

-- The callback of the timer; the request that it sends is the timer's.
abbrev pub fired : Option (ℕ × Text) → View → View
fired none v = v
fired (some request) v = record v { timer = none; loading = true; error = none }

unfoldable pub timer_fired : View → View
timer_fired v = fired v.timer v

-- How a search ends.
pub data SearchEnd : Type 0 where
  found : Option (List SearchResult) → SearchEnd
  unavailable : Text → SearchEnd

-- `!cancelled && requestId === searchRequestRef.current`
unfoldable pub is_current : ℕ → View → Bool
is_current request_id v = request_id == v.effect_id && request_id == v.search_request

abbrev pub receive : SearchEnd → View → View
receive (SearchEnd.found results) v = record v { results = some (or_else results []) }
receive (SearchEnd.unavailable message) v = record v { error = some message }

-- `then`, `catch` and `finally` of the search
unfoldable pub answered : ℕ → SearchEnd → View → View
unfolding is_current
answered request_id e v =
    if is_current request_id v then record (receive e v) { loading = false } else v

-- The request of `reSearch` for a query, and its `then` and `catch`.
unfoldable pub re_search : Text → Option Text
re_search query = if leb 2 (length (trim query)) then some (trim query) else none

unfoldable pub re_searched : SearchEnd → View → View
re_searched e v = receive e v

-- `results ?? []`
abbrev pub shown_results : View → List SearchResult
shown_results v = or_else v.results []

-- `selectedResults` and `selectedEntries`
unfoldable pub selected_results : View → List SearchResult
selected_results v = filter (λ r. includes v.selected_paths r.path) (shown_results v)

unfoldable pub selected_entries : View → List FileEntry
unfolding selected_results
selected_entries v = map search_result_to_file_entry (selected_results v)

-- `previewableEntries`
pub previewable_entries : View → List FileEntry
previewable_entries v =
    map search_result_to_file_entry
      (filter (λ r. is_file r.type && is_previewable_file r.name) (shown_results v))

-- The line over the results: how many there are, and for what.
unfoldable pub result_meta : View → Option (ℕ × Text)
result_meta v =
    if leb 2 (length (trim v.query)) && not v.loading && is_some v.results
    then some (length (shown_results v), trim v.query)
    else none
