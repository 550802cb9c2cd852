-- ===== src/Browser/Pages.antt =====
-- The browser among its requests: a server that lists folders, and the steps of a session.
use volum.Base.{
  ltb, length, take, drop, Text, ◌+◌, ◌≡◌, Bool, Option, none, some, List, [], ◌∷◌, ◌++◌,
}
use volum.Browser.{
  failed, answered, Shown, open_folder, settle, Browser, FilesRequest, initial, load_more_entries,
  shown_of,
}
use volum.Entries.{FileEntry, FileResponse}

-- The answer of a server whose folders do not change: one page of the folder's listing.
unfoldable pub page_of : (Text → Bool → List FileEntry) → FilesRequest → FileResponse
page_of listing q =
    let all = listing q.path q.hidden in
    record {
      entries = some (take q.limit (drop q.offset all));
      total = some (length all);
      limit = some q.limit;
      offset = some q.offset;
      has_more = some (ltb (q.offset + q.limit) (length all));
    }

pub record Session : Type 0 where
  pub browser : Browser
  pub shown : Shown
  pub pending : List FilesRequest

abbrev pub send : Option FilesRequest → List FilesRequest → List FilesRequest
send none pending = pending
send (some q) pending = q ∷ pending

abbrev pub start : Session
start = record { browser = initial; shown = shown_of initial; pending = [] }

abbrev pub open_step : Text → Bool → Session → Session
open_step path hidden s = record s {
  browser = (open_folder path hidden s.browser).0;
  pending = send (open_folder path hidden s.browser).1 s.pending;
}

abbrev pub scroll_step : Session → Session
scroll_step s = record s {
  browser = (load_more_entries s.shown s.browser).0;
  pending = send (load_more_entries s.shown s.browser).1 s.pending;
}

-- What can happen: a folder is opened or read again, the list is scrolled to its end after a
-- rendering of the last change, the page is rendered, or a pending request is answered, with the
-- page or with an error, whichever one it is.
pub data Step (listing : Text → Bool → List FileEntry) (s : Session) : Session → Type 0 where
  opens : (path : Text) (hidden : Bool) → Step listing s (open_step path hidden s)
  scrolls : s.shown ≡ shown_of s.browser → Step listing s (scroll_step s)
  renders : Step listing s (record s { shown = shown_of s.browser })
  answers :
      (before after : List FilesRequest) (q : FilesRequest)
      → s.pending ≡ before ++ q ∷ after
      → Step listing s (record s {
        browser = settle q (answered (page_of listing q)) s.browser;
        pending = before ++ after;
      })
  fails :
      (before after : List FilesRequest) (q : FilesRequest) (message : Text)
      → s.pending ≡ before ++ q ∷ after
      → Step listing s
          (record s { browser = settle q (failed message) s.browser; pending = before ++ after })

pub data Reach (listing : Text → Bool → List FileEntry) : Session → Type 0 where
  here : Reach listing start
  next : {s t : Session} → Reach listing s → Step listing s t → Reach listing t
