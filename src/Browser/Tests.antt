-- ===== src/Browser/Tests.antt =====
-- A session with one folder of two files, and the theorems along it.
use volum.Base.{length, take, Text, codes, ◌≤◌, ◌≡◌, refl, Bool, false, List, [], ◌∷◌, ◌++◌}
use volum.Browser.{
  FilesRequest, answered, open_folder, load_more_entries, settle, settle_current, receive_first,
  receive_more,
}
use volum.Entries.{FileEntry, FileType, FileResponse}
use volum.Browser.Pages.{page_of, Session, start, open_step, Step, opens, answers, renders}
use volum.Browser.Sound.{count_current}
use volum.Browser.Reach.{Reach-prefix, Reach-complete, Reach-single_request}
use volum.Browser.Pages

program : Unit {0}
unfolding open_folder load_more_entries settle settle_current receive_first receive_more page_of
program = tt

abbrev entry : Text → FileEntry
entry name = record {
  name = name;
  path = codes "/d/" ++ name;
  type = FileType.file;
  size = 3;
  modified_at = [];
  permissions = [];
  owner = [];
  group = [];
  hidden = false;
}

abbrev listing : Text → Bool → List FileEntry
listing path hidden = entry (codes "a") ∷ entry (codes "b") ∷ []

abbrev opened : Session
opened = open_step (codes "/d") false start

abbrev request : FilesRequest
request = record {
  id = 1;
  path = codes "/d";
  hidden = false;
  limit = 600;
  offset = 0;
  is_more = false;
}

abbrev loaded : Session
loaded = record opened {
  browser = settle request (answered (page_of listing request)) opened.browser;
  pending = [];
}

sent : opened.pending ≡ request ∷ []
unfolding program
sent = refl

loaded-Reach : Pages.Reach listing loaded
loaded-Reach =
    Pages.next (Pages.next Pages.here (opens (codes "/d") false)) (answers [] [] request sent)

shows_both : loaded.browser.entries ≡ listing (codes "/d") false
unfolding program
shows_both = refl

-- An answer to a request for another folder changes nothing.
stale :
    settle request
      (answered (page_of listing request))
      (open_folder (codes "/e") false opened.browser).0
    ≡ (open_folder (codes "/e") false opened.browser).0
unfolding program
stale = refl

Reach-prefix_example :
    loaded.browser.entries
    ≡ take
        (length loaded.browser.entries)
        (listing loaded.browser.current_path loaded.browser.show_hidden)
unfolding program
Reach-prefix_example = Reach-prefix listing loaded-Reach refl

Reach-complete_example :
    loaded.browser.entries ≡ listing loaded.browser.current_path loaded.browser.show_hidden
unfolding program
Reach-complete_example = Reach-complete listing loaded-Reach refl refl refl refl

Reach-single_request_example : count_current loaded.browser.file_request loaded.pending ≤ 1
Reach-single_request_example = Reach-single_request listing loaded-Reach

abbrev answer : FileResponse
answer = page_of listing (record request { offset = 1 })
