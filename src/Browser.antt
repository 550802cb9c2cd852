-- ===== src/Browser.antt =====
-- Loading the files of a folder, page by page: the file requests of
-- frontend/src/hooks/useFileBrowser.ts. A handler returns the request that it sends; the answers
-- come in any order, later. `Shown` is what the last rendering captured in the callbacks.
pub mod Pages
pub mod Sound
pub mod Reach
pub mod Twice
mod Tests
use volum.Base.{
  ◌==◌, if◌then◌else◌, or_else, length, Text, is_empty, ℕ, ◌+◌, Bool, true, false, ◌||◌, not,
  Option, none, some, List, [], ◌++◌,
}
use volum.Entries.{FileEntry, FileResponse}

-- `FILE_PAGE_SIZE`
abbrev pub file_page_size : ℕ
file_page_size = 600

pub record FilePage : Type 0 where
  pub total : ℕ
  pub limit : ℕ
  pub offset : ℕ
  pub has_more : Bool

pub record Browser : Type 0 where
  pub current_path : Text
  pub show_hidden : Bool
  pub entries : List FileEntry
  pub error : Option Text
  pub loading : Bool
  pub loading_more : Bool
  pub file_page : FilePage
  pub file_request : ℕ

-- What `loadMoreEntries` captured, with `entriesRef.current.length`.
pub record Shown : Type 0 where
  pub current_path : Text
  pub show_hidden : Bool
  pub loading_more : Bool
  pub has_more : Bool
  pub entry_count : ℕ

pub record FilesRequest : Type 0 where
  pub id : ℕ
  pub path : Text
  pub hidden : Bool
  pub limit : ℕ
  pub offset : ℕ
  pub is_more : Bool

pub data Answer : Type 0 where
  answered : FileResponse → Answer
  failed : Text → Answer

abbrev pub no_page : FilePage
no_page = record { total = 0; limit = file_page_size; offset = 0; has_more = false }

abbrev pub initial : Browser
initial = record {
  current_path = [];
  show_hidden = false;
  entries = [];
  error = none;
  loading = true;
  loading_more = false;
  file_page = no_page;
  file_request = 0;
}

abbrev pub shown_of : Browser → Shown
shown_of b = record {
  current_path = b.current_path;
  show_hidden = b.show_hidden;
  loading_more = b.loading_more;
  has_more = b.file_page.has_more;
  entry_count = length b.entries;
}

-- The effect that runs when the folder, the refresh key or the hidden switch changes.
pub open_folder : Text → Bool → Browser → Browser × Option FilesRequest
open_folder path hidden b =
    let id = b.file_request + 1 in
    if is_empty path
    then (
      record b { current_path = path; show_hidden = hidden; file_request = id; loading = false },
      none,
    )
    else (
      record b {
        current_path = path;
        show_hidden = hidden;
        file_request = id;
        loading = true;
        error = none;
        loading_more = false;
        entries = [];
        file_page = no_page;
      },
      some (record {
        id = id;
        path = path;
        hidden = hidden;
        limit = file_page_size;
        offset = 0;
        is_more = false;
      }),
    )

-- `loadMoreEntries`
pub load_more_entries : Shown → Browser → Browser × Option FilesRequest
load_more_entries v b =
    if is_empty v.current_path || v.loading_more || not v.has_more then (b, none) else (
      record b { loading_more = true; error = none },
      some (record {
        id = b.file_request;
        path = v.current_path;
        hidden = v.show_hidden;
        limit = file_page_size;
        offset = v.entry_count;
        is_more = true;
      }),
    )

-- The `then` callback of the first page.
pub receive_first : FileResponse → Browser → Browser
receive_first r b =
    let next = or_else r.entries [] in
    record b {
      entries = next;
      file_page = record {
        total = or_else r.total (length next);
        limit = or_else r.limit file_page_size;
        offset = or_else r.offset 0;
        has_more = or_else r.has_more false;
      };
      error = none;
    }

-- The `then` callback of a further page, which was asked for at an offset.
pub receive_more : ℕ → FileResponse → Browser → Browser
receive_more offset r b =
    let next = or_else r.entries [] in
    record b {
      entries = b.entries ++ next;
      file_page = record {
        total = or_else r.total (offset + length next);
        limit = or_else r.limit file_page_size;
        offset = or_else r.offset offset;
        has_more = or_else r.has_more false;
      };
    }

-- The callbacks of an answer to the current request: `then` or `catch`, and then `finally`.
pub settle_current : FilesRequest → Answer → Browser → Browser
settle_current q (answered r) b =
    if q.is_more
    then record (receive_more q.offset r b) { loading_more = false }
    else record (receive_first r b) { loading = false }
settle_current q (failed message) b =
    if q.is_more
    then record b { error = some message; loading_more = false }
    else record b { error = some message; loading = false }

-- An answer: the callbacks do nothing if another request was made since.
pub settle : FilesRequest → Answer → Browser → Browser
settle q a b = if q.id == b.file_request then settle_current q a b else b
