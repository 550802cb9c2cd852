-- ===== src/SearchView/Shown.antt =====
-- Which results the page shows when typing, timers and answers come in any order.
use volum.Base.{get_elem?, All-get_elem?, Text, ℕ, ◌≡◌, Option, some, List, []}
use volum.SearchView.Consistent.{
  IsAnswered, IsConsistent, answer-IsConsistent, fail-IsConsistent, change-IsConsistent,
  reopen-IsConsistent, clear-IsConsistent, mounted-IsConsistent, fire-IsConsistent,
}
use volum.Entries.{SearchResult}
use volum.Search.Latest.{send}
use volum.SearchView.{
  View, SearchEnd, mounted, change_query, handle_clear_search, initial_query_effect, timer_fired,
  answered,
}

-- A session: the page, and the searches that were sent.
pub record Session : Type 0 where
  pub view : View
  pub sent : List (ℕ × Text)

module _ (server : Text → Option (List SearchResult)) where
  -- Typing, clearing, a search from outside, the timer, and answers to any search that was sent.
  pub data Reach : Session → Type 0 where
    start : (text : Text) → Reach (record { view = mounted text; sent = [] })
    change :
        {x : Session}
        → (text : Text) → Reach x
        → Reach (record x { view = change_query text x.view })
    clear : {x : Session} → Reach x → Reach (record x { view = handle_clear_search x.view })
    reopen :
        {x : Session}
        → (text : Text) → Reach x
        → Reach (record x { view = initial_query_effect text x.view })
    fire :
        {x : Session}
        → Reach x
        → Reach (record { view = timer_fired x.view; sent = send x.view.timer x.sent })
    answer :
        {x : Session}
        → (k : ℕ) (r : ℕ × Text) → get_elem? x.sent k ≡ some r
        → Reach x
        → Reach (record x { view = answered r.0 (SearchEnd.found (server r.1)) x.view })
    fail :
        {x : Session}
        → (k : ℕ) (r : ℕ × Text) (message : Text) → get_elem? x.sent k ≡ some r
        → Reach x
        → Reach (record x { view = answered r.0 (SearchEnd.unavailable message) x.view })

  Reach-IsConsistent : {x : Session} → Reach x → IsConsistent server x.view x.sent
  unfolding timer_fired
  Reach-IsConsistent (Reach.start text) = mounted-IsConsistent server text
  Reach-IsConsistent (Reach.change {x} text r) =
      change-IsConsistent server text x.view x.sent (Reach-IsConsistent r)
  Reach-IsConsistent (Reach.clear {x} r) =
      clear-IsConsistent server x.view x.sent (Reach-IsConsistent r)
  Reach-IsConsistent (Reach.reopen {x} text r) =
      reopen-IsConsistent server text x.view x.sent (Reach-IsConsistent r)
  Reach-IsConsistent (Reach.fire {x} r) =
      let c = Reach-IsConsistent r in
      fire-IsConsistent server x.view x.view.timer x.sent c.waiting c
  Reach-IsConsistent (Reach.answer {x} k q h r) =
      let c = Reach-IsConsistent r in
      answer-IsConsistent server x.view x.sent q (All-get_elem? _ x.sent k q c.requests h) c
  Reach-IsConsistent (Reach.fail {x} k q message h r) =
      fail-IsConsistent server x.view x.sent q.0 message (Reach-IsConsistent r)

  -- However typing, clearing, searches from outside, timers and answers interleave, the results are
  -- those for the text of the input, unless a search waits or loads, the last one failed, or nothing
  -- is shown; no rename, delete or transfer repeats the search meanwhile.
  pub Reach-IsAnswered : {x : Session} → Reach x → IsAnswered server x.view
  Reach-IsAnswered r = IsConsistent.shown (Reach-IsConsistent r)
