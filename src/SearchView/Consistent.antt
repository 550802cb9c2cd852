-- ===== src/SearchView/Consistent.antt =====
-- What every step of the page keeps: the requests are older than the shown search, or are its own,
-- and the results answer the text of the input.
use volum.Base.{
  ltb, or_else, is_some, if_cases, length, All, All-imp, Text, text_eq, trim, ℕ, ◌+◌, ◌≤◌, ◌<◌, ◌≡◌,
  refl, ap, ◌⊎◌, inl, inr, true, Option, none, some, List, [], arith,
}
use volum.Entries.{SearchResult}
use volum.Search.Latest.{send}
use volum.SearchView.{
  View, SearchEnd, mounted, change_query, handle_clear_search, initial_query_effect, query_effect,
  set_query, fired, before_mount, answered, is_current,
}

module _ (server : Text → Option (List SearchResult)) where
  -- A search is waiting or loading, or the last one failed, or nothing is shown, or what is shown is
  -- the answer to the text of the input.
  abbrev pub IsAnswered : View → Type 0
  IsAnswered v =
      (is_some v.timer ≡ true)
      ⊎ (v.loading ≡ true)
      ⊎ (is_some v.error ≡ true)
      ⊎ (v.results ≡ none)
      ⊎ (v.results ≡ some (or_else (server (trim v.query)) []))

  abbrev IsCurrent : ℕ → Text → ℕ × Text → Type 0
  IsCurrent id text r = (r.0 ≡ id) × (r.1 ≡ text)

  abbrev IsOld : ℕ → Text → ℕ × Text → Type 0
  IsOld id text r = (r.0 < id) ⊎ IsCurrent id text r

  abbrev IsWaiting : ℕ → Text → Option (ℕ × Text) → Type 0
  IsWaiting id text none = Unit {0}
  IsWaiting id text (some r) = IsCurrent id text r

  pub record IsConsistent (v : View) (sent : List (ℕ × Text)) : Type 0 where
    pub ordered : v.effect_id ≤ v.search_request
    pub waiting : IsWaiting v.effect_id (trim v.query) v.timer
    pub requests : All (IsOld v.effect_id (trim v.query)) sent
    pub shown : IsAnswered v

  query_effect-IsConsistent :
      (v w : View) (sent : List (ℕ × Text))
      → v.effect_id ≤ w.search_request
      → All (IsOld v.effect_id (trim v.query)) sent
      → IsConsistent (query_effect w) sent
  unfolding query_effect
  query_effect-IsConsistent v w sent h old =
      if_cases (λ u. IsConsistent u sent) (ltb (length (trim w.query)) 2)
        (λ e. record {
          ordered = omega arith;
          waiting = tt;
          requests =
              All-imp (IsOld v.effect_id (trim v.query)) _
                (λ r o. elim o [
                  | inl p ↦ inl (omega (arith, p))
                  | inr p ↦ inl (omega (arith, p.0))
                ])
                sent old;
          shown = inr (inr (inr (inl refl)));
        })
        (λ e. record {
          ordered = omega arith;
          waiting = (refl, refl);
          requests =
              All-imp (IsOld v.effect_id (trim v.query)) _
                (λ r o. elim o [
                  | inl p ↦ inl (omega (arith, p))
                  | inr p ↦ inl (omega (arith, p.0))
                ])
                sent old;
          shown = inl refl;
        })

  -- A change of the text; `w` is the page after what else the handler sets.
  set_query-IsConsistent :
      (v w : View) (text : Text) (sent : List (ℕ × Text))
      → v.effect_id ≤ w.search_request
      → All (IsOld v.effect_id (trim v.query)) sent
      → IsConsistent w sent
      → IsConsistent (set_query text w) sent
  unfolding set_query
  set_query-IsConsistent v w text sent h old c =
      if_cases (λ u. IsConsistent u sent) (text_eq text w.query) (λ e. c)
        (λ e. query_effect-IsConsistent v (record w { query = text }) sent h old)

  pub fire-IsConsistent :
      (v : View) (timer : Option (ℕ × Text)) (sent : List (ℕ × Text))
      → IsWaiting v.effect_id (trim v.query) timer
      → IsConsistent v sent
      → IsConsistent (fired timer v) (send timer sent)
  fire-IsConsistent v none sent w c = c
  fire-IsConsistent v (some r) sent w c = record {
    ordered = c.ordered;
    waiting = tt;
    requests = (inr w, c.requests);
    shown = inr (inl refl);
  }

  text_of_current :
      (v : View) (r : ℕ × Text)
      → IsOld v.effect_id (trim v.query) r
      → is_current r.0 v ≡ true
      → r.1 ≡ trim v.query
  unfolding is_current
  text_of_current v r (inl p) e = absurd (ground (arith, p, e))
  text_of_current v r (inr p) e = p.1

  pub answer-IsConsistent :
      (v : View) (sent : List (ℕ × Text)) (r : ℕ × Text)
      → IsOld v.effect_id (trim v.query) r
      → IsConsistent v sent
      → IsConsistent (answered r.0 (SearchEnd.found (server r.1)) v) sent
  unfolding answered
  answer-IsConsistent v sent r o c =
      if_cases (λ u. IsConsistent u sent) (is_current r.0 v)
        (λ e. record {
          ordered = c.ordered;
          waiting = c.waiting;
          requests = c.requests;
          shown =
              inr (
                inr (inr (inr (ap (λ t. some (or_else (server t) [])) (text_of_current v r o e)))));
        })
        (λ e. c)

  pub fail-IsConsistent :
      (v : View) (sent : List (ℕ × Text)) (id : ℕ) (message : Text)
      → IsConsistent v sent
      → IsConsistent (answered id (SearchEnd.unavailable message) v) sent
  unfolding answered
  fail-IsConsistent v sent id message c =
      if_cases (λ u. IsConsistent u sent) (is_current id v)
        (λ e. record {
          ordered = c.ordered;
          waiting = c.waiting;
          requests = c.requests;
          shown = inr (inr (inl refl));
        })
        (λ e. c)

  pub change-IsConsistent :
      (text : Text) (v : View) (sent : List (ℕ × Text))
      → IsConsistent v sent
      → IsConsistent (change_query text v) sent
  unfolding change_query
  change-IsConsistent text v sent c =
      set_query-IsConsistent v (record v { selected_paths = [] }) text sent c.ordered c.requests
        (record {
          ordered = c.ordered;
          waiting = c.waiting;
          requests = c.requests;
          shown = c.shown;
        })

  pub reopen-IsConsistent :
      (text : Text) (v : View) (sent : List (ℕ × Text))
      → IsConsistent v sent
      → IsConsistent (initial_query_effect text v) sent
  unfolding initial_query_effect
  reopen-IsConsistent text v sent c =
      set_query-IsConsistent v
        (record v { search_request = v.search_request + 1; selected_paths = [] }) text sent
        (omega (arith, c.ordered)) c.requests
        (record {
          ordered = omega (arith, c.ordered);
          waiting = c.waiting;
          requests = c.requests;
          shown = c.shown;
        })

  pub clear-IsConsistent :
      (v : View) (sent : List (ℕ × Text))
      → IsConsistent v sent
      → IsConsistent (handle_clear_search v) sent
  unfolding handle_clear_search
  clear-IsConsistent v sent c =
      set_query-IsConsistent v
        (record v {
          search_request = v.search_request + 1;
          results = none;
          selected_paths = [];
          error = none;
        })
        [] sent (omega (arith, c.ordered)) c.requests
        (record {
          ordered = omega (arith, c.ordered);
          waiting = c.waiting;
          requests = c.requests;
          shown = inr (inr (inr (inl refl)));
        })

  pub mounted-IsConsistent : (text : Text) → IsConsistent (mounted text) []
  unfolding mounted
  mounted-IsConsistent text =
      query_effect-IsConsistent (record (before_mount text) { search_request = 1 })
        (record (before_mount text) { search_request = 1 }) [] (omega arith) tt
