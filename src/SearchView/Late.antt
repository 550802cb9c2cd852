-- ===== src/SearchView/Late.antt =====
-- Where the page shows what does not belong to the text of the input.
use volum.Base.{
  ltb, leb, ◌==◌, if◌then◌else◌, Bool-cases, or_else, length, Text, text_eq, trim, text_eq_refl, ℕ,
  ◌+◌, ◌≤◌, ◌≡◌, refl, sym, ap, subst, inl, inr, true, false, ◌&&◌, Option, none, some, List, [],
  arith,
}
use volum.Entries.{SearchResult}
use volum.SearchView.{
  receive, View, SearchEnd, change_query, initial_query_effect, query_effect, set_query,
  timer_fired, answered, is_current, re_searched, re_search, result_meta,
}

disowned :
    (v : View) (request_id : ℕ)
    → v.effect_id ≤ v.search_request
    → (request_id == v.effect_id && request_id == v.search_request + 1) ≡ false
disowned v request_id h = ground (arith, h)

-- If a search from outside asks for the text that is in the input already, the search that is under
-- way is disowned and no other one starts: whatever is answered changes nothing, so that the page
-- goes on loading if it was.
pub answered-initial_query_effect_same :
    (v : View)
    → v.effect_id ≤ v.search_request
    → ((initial_query_effect v.query v).timer ≡ v.timer)
      × ((initial_query_effect v.query v).loading ≡ v.loading)
      × ((request_id : ℕ) (e : SearchEnd)
          → answered request_id e (initial_query_effect v.query v) ≡ initial_query_effect v.query v)
unfolding initial_query_effect set_query answered is_current
answered-initial_query_effect_same v h =
    rw (text_eq_refl v.query) (refl, refl, λ request_id e. rw (disowned v request_id h) refl)

result_meta_of :
    (v : View) (rs : List SearchResult)
    → ltb (length (trim v.query)) 2 ≡ false
    → v.loading ≡ false
    → v.results ≡ some rs
    → result_meta v ≡ some (length rs, trim v.query)
unfolding result_meta
result_meta_of v rs enough settled shown =
    let long : leb 2 (length (trim v.query)) ≡ true = ground (arith, enough) in
    rw (long, settled, shown) refl

is_current_self : (v : View) → v.effect_id ≡ v.search_request → is_current v.effect_id v ≡ true
unfolding is_current
is_current_self v e = ground (arith, e)

re_search_lem : (query before : Text) → re_search query ≡ some before → before ≡ trim query
unfolding re_search
re_search_lem query before h = elim (Bool-cases (leb 2 (length (trim query)))) [
  | inl e ↦ sym (
      ap (λ o. or_else o (trim query))
        (subst (λ b. (if b then some (trim query) else none) ≡ some before) e h))
  | inr e ↦ absurd (cc (subst (λ b. (if b then some (trim query) else none) ≡ some before) e h))
]

-- The page after a text of two letters was typed, and after its timer has fired.
abbrev typed : Text → View → View
typed text v = record v {
  query = text;
  selected_paths = [];
  search_request = v.search_request + 1;
  effect_id = v.search_request + 1;
  timer = some (v.search_request + 1, trim text);
}

abbrev pub searching : Text → View → View
searching text v = timer_fired (change_query text v)

module _ (v : View) (text : Text) (new : text_eq text v.query ≡ false)
    (enough : ltb (length (trim text)) 2 ≡ false) where
  change_query-typed : change_query text v ≡ typed text v
  unfolding change_query set_query query_effect
  change_query-typed = rw new (rw enough refl)

  answered_searching :
      (e : SearchEnd)
      → answered (searching text v).effect_id e (searching text v)
        ≡ record (receive e (timer_fired (typed text v))) { loading = false }
  unfolding answered timer_fired
  answered_searching e =
      rw change_query-typed (rw (is_current_self (timer_fired (typed text v)) refl) refl)

  module _ (old : List SearchResult) (settled : v.loading ≡ false)
      (shown : v.results ≡ some old) where
    -- While another text waits for its timer, and once its search has failed, the page counts the
    -- results for the text before as results for the new one.
    result_meta-stale :
        (message : Text)
        → (result_meta (change_query text v) ≡ some (length old, trim text))
          × (result_meta (
                answered
                  (searching text v).effect_id
                  (SearchEnd.unavailable message)
                  (searching text v))
              ≡ some (length old, trim text))
    unfolding timer_fired
    result_meta-stale message = (
      rw change_query-typed (result_meta_of (typed text v) old enough settled shown),
      rw (answered_searching (SearchEnd.unavailable message))
          (result_meta_of _ old enough refl shown),
    )

  answered-re_searched :
      (mine theirs : Option (List SearchResult))
      → (answered
          (searching text v).effect_id
          (SearchEnd.found mine)
          (re_searched (SearchEnd.found theirs) (searching text v))).results
        ≡ some (or_else mine [])
  unfolding answered timer_fired re_searched
  answered-re_searched mine theirs =
      let x = re_searched (SearchEnd.found theirs) (timer_fired (typed text v)) in
      rw change_query-typed (rw (is_current_self x refl) refl)

  -- A rename, delete or transfer repeats the search for the text before, and then another text is
  -- typed. If the repeated search is answered before that for the new text, the page shows the results
  -- for the new text; if it is answered after it, the page shows the results for the text before, and
  -- counts them as results for the new text.
  pub re_searched-late :
      (server : Text → List SearchResult) (before : Text)
      → re_search v.query ≡ some before
      → let x = searching text v in
        let mine = SearchEnd.found (some (server (trim text))) in
        let theirs = SearchEnd.found (some (server before)) in
        let late = re_searched theirs (answered x.effect_id mine x) in
        ((answered x.effect_id mine (re_searched theirs x)).results ≡ some (server (trim text)))
        × ((late.query ≡ text)
            × (late.results ≡ some (server (trim v.query)))
            × (result_meta late ≡ some (length (server (trim v.query)), trim text)))
  unfolding timer_fired re_searched
  re_searched-late server before asked =
      let mine = some (server (trim text)) in
      let old : some (server before) ≡ some (server (trim v.query)) =
        ap (λ q. some (server q)) (re_search_lem v.query before asked) in
      (
        answered-re_searched mine (some (server before)),
        rw (answered_searching (SearchEnd.found mine))
            (refl, old, result_meta_of _ (server (trim v.query)) enough refl old),
      )
