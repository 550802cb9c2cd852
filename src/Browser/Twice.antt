-- ===== src/Browser/Twice.antt =====
-- A second call of `loadMoreEntries` before the first one's change is rendered.
use volum.Base.{or_else, length, is_empty, ◌≡◌, true, false, some, [], ◌++◌, arith}
use volum.Browser.{
  file_page_size, Browser, FilesRequest, answered, shown_of, load_more_entries, settle,
  settle_current, receive_more,
}
use volum.Entries.{FileResponse}

-- Both calls send a request for the page at the same offset, both answers are accepted, and the
-- page stands twice in the list.
load_more_entries_unrendered :
    (b : Browser) (r : FileResponse)
    → is_empty b.current_path ≡ false
    → b.loading_more ≡ false
    → b.file_page.has_more ≡ true
    → let (b', first) = load_more_entries (shown_of b) b in
      let (b'', second) = load_more_entries (shown_of b) b' in
      (q : FilesRequest) × (first ≡ some q)
      × (second ≡ some q)
      × ((settle q (answered r) (settle q (answered r) b'')).entries
          ≡ (b.entries ++ or_else r.entries []) ++ or_else r.entries [])
unfolding load_more_entries settle settle_current receive_more
load_more_entries_unrendered b r h k m = (
  record {
    id = b.file_request;
    path = b.current_path;
    hidden = b.show_hidden;
    limit = file_page_size;
    offset = length b.entries;
    is_more = true;
  },
  ground arith,
  ground arith,
  ground arith,
)
