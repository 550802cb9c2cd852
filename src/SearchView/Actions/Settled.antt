-- ===== src/SearchView/Actions/Settled.antt =====
-- What deleting and transferring from the page of search results come to.
use volum.Base.{
  or_else, if_cases, All, Text, codes, is_empty, ◌≡◌, refl, ap, Bool, true, false, Option, none,
  some, List, [], ◌∷◌, ◌++◌,
}
use volum.Entries.{SearchResult}
use volum.Paths.{slash}
use volum.Transfer.{Mode, TransferDialog, JobRequest}
use volum.Transfer.Submit.{destinations_of-slashes}
use volum.SearchView.{View, Confirm, re_search, selected_results, selected_entries}
use volum.SearchView.Actions.{handle_transfer, handle_delete}
use volum.SearchView.Actions.Run.{
  Done, delete_entries, after_delete, confirm, handle_transfer_submit,
}

-- The server takes each of the entries, or takes those before one that it refuses.
pub data IsRun (server : SearchResult → Bool) (entries sent : List SearchResult)
    : Bool → Type 0 where
  all_taken : sent ≡ entries → All (λ r. server r ≡ true) entries → IsRun server entries sent true
  refused :
      (taken rest : List SearchResult) (r : SearchResult)
      → entries ≡ taken ++ r ∷ rest
      → sent ≡ taken ++ r ∷ []
      → All (λ r. server r ≡ true) taken
      → server r ≡ false
      → IsRun server entries sent false

IsRun-cons :
    (server : SearchResult → Bool) (r : SearchResult) (rs sent : List SearchResult) (done : Bool)
    → server r ≡ true
    → IsRun server rs sent done
    → IsRun server (r ∷ rs) (r ∷ sent) done
IsRun-cons server r rs sent done h (IsRun.all_taken p a) =
    IsRun.all_taken (ap (λ l. r ∷ l) p) (h, a)
IsRun-cons server r rs sent done h (IsRun.refused taken rest r' p q a k) =
    IsRun.refused (r ∷ taken) rest r' (ap (λ l. r ∷ l) p) (ap (λ l. r ∷ l) q) (h, a) k

delete_entries-IsRun :
    (server : SearchResult → Bool) (entries : List SearchResult)
    → IsRun server entries (delete_entries server entries).0 (delete_entries server entries).1
unfolding delete_entries
delete_entries-IsRun server [] = IsRun.all_taken refl tt
delete_entries-IsRun server (r ∷ rs) =
    if_cases {A = List SearchResult × Bool} (λ p. IsRun server (r ∷ rs) p.0 p.1) (server r)
      (λ h. IsRun-cons server r rs _ _ h (delete_entries-IsRun server rs))
      (λ h. IsRun.refused [] rs r refl refl tt h)

-- How a confirmed deletion ends: with everything taken, nothing is selected and the search is
-- repeated; otherwise the error is set, the selection stays and the search is not repeated.
abbrev pub IsEnd : Option Text → Text → View → Bool → Done → Type 0
IsEnd message query v true d =
    (d.view.selected_paths ≡ []) × (d.view.error ≡ v.error) × (d.searched ≡ re_search query)
IsEnd message query v false d =
    (d.view.selected_paths ≡ v.selected_paths)
    × (d.view.error ≡ some (or_else message (codes "Action failed")))
    × (d.searched ≡ none)

after_delete-IsEnd :
    (message : Option Text) (query : Text) (v : View) (done : Bool)
    → IsEnd message query v done (after_delete message query v done)
unfolding after_delete
after_delete-IsEnd message query v true = (refl, refl, refl)
after_delete-IsEnd message query v false = (refl, refl, refl)

-- When the deletion of the selected results is confirmed, either the server takes all of them, and
-- then nothing is selected and the search is repeated; or it takes those before one that it refuses,
-- and then the error is shown, the selection stays and the search is not repeated, so that the page
-- lists what was deleted.
confirm-handle_delete :
    (server : SearchResult → Bool) (message : Option Text) (v : View)
    → is_empty (selected_results v) ≡ false
    → let w = handle_delete v in
      let dialog = Confirm.move_to_trash (selected_results v) v.query in
      let run = confirm server message dialog w in
      (w.confirm_dialog ≡ some dialog)
      × ((done : Bool) × IsRun server (selected_results v) run.1 done
          × IsEnd message v.query w done run.2)
unfolding confirm handle_delete
confirm-handle_delete server message v some_selected = rw some_selected (
  refl,
  (
    (delete_entries server (selected_results v)).1,
    delete_entries-IsRun server (selected_results v),
    after_delete-IsEnd message v.query
        (record v { confirm_dialog = some (Confirm.move_to_trash (selected_results v) v.query) })
        (delete_entries server (selected_results v)).1,
  ),
)

-- Copying or moving the selected results to the destination that the dialog proposes does nothing:
-- no job is requested, and the dialog stays open without a message.
handle_transfer_submit-handle_transfer :
    (server : JobRequest → Bool) (message : Option Text) (mode : Mode) (policy : Text) (v : View)
    → is_empty (selected_results v) ≡ false
    → let w = handle_transfer mode v in
      let dialog : TransferDialog = record {
        mode = mode;
        entries = selected_entries v;
        initial_destination = slash ∷ [];
      } in
      (w.transfer_dialog ≡ some dialog)
      × (handle_transfer_submit server message w.transfer_dialog dialog.initial_destination policy w
          ≡ ([], record { view = w; searched = none }))
unfolding handle_transfer handle_transfer_submit
handle_transfer_submit-handle_transfer server message kind policy v some_selected =
    rw some_selected (refl, rw (destinations_of-slashes 1) refl)
