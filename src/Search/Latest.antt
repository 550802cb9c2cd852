-- ===== src/Search/Latest.antt =====
-- Which results the search shows when answers come in any order.
use volum.Base.{
  All-get_elem?, ltb, ◌==◌, or_else, is_some, if_cases, length, get_elem?, All, All-imp, Text, trim,
  ℕ, ◌+◌, ◌<◌, ◌≡◌, refl, ap, ◌⊎◌, inl, inr, true, Option, none, some, List, [], ◌∷◌, arith,
}
use volum.Entries.{SearchResult}
use volum.Search.{
  Search, SearchAnswer, initial, handle_global_search, settle_search, reset_global_search,
}

-- A session: the state, the last text that was searched for, and the requests that were sent.
pub record Session : Type 0 where
  pub search : Search
  pub latest : Text
  pub sent : List (ℕ × Text)

abbrev pub started : Session
started = record { search = initial; latest = []; sent = [] }

-- The request joins those that were sent.
abbrev pub send : Option (ℕ × Text) → List (ℕ × Text) → List (ℕ × Text)
send none sent = sent
send (some r) sent = r ∷ sent

module _ (server : Text → Option (List SearchResult)) where
  -- Searches, resets and answers to any request that was sent, in any order.
  pub data Reach : Session → Type 0 where
    start : Reach started
    type :
        {x : Session}
        → (text : Text) → Reach x
        → Reach (record {
          search = (handle_global_search text x.search).1;
          latest = trim text;
          sent = send (handle_global_search text x.search).0 x.sent;
        })
    reset : {x : Session} → Reach x → Reach (record x { search = reset_global_search x.search })
    answer :
        {x : Session}
        → (k : ℕ) (r : ℕ × Text) → get_elem? x.sent k ≡ some r
        → Reach x
        → Reach (record x { search = settle_search r.0 (SearchAnswer.found (server r.1)) x.search })
    fail :
        {x : Session}
        → (k : ℕ) (r : ℕ × Text) (message : Option Text) → get_elem? x.sent k ≡ some r
        → Reach x
        → Reach
            (record x { search = settle_search r.0 (SearchAnswer.unavailable message) x.search })

  -- The search is still loading, or it failed, or nothing is shown, or what is shown is the answer
  -- to the last text.
  abbrev pub IsShown : Search → Text → Type 0
  IsShown s latest =
      (s.search_loading ≡ true)
      ⊎ (is_some s.search_error ≡ true)
      ⊎ (s.search_results ≡ none)
      ⊎ (s.search_results ≡ some (or_else (server latest) []))

  abbrev IsOld : ℕ → Text → ℕ × Text → Type 0
  IsOld current latest r = (r.0 < current) ⊎ ((r.0 ≡ current) × (r.1 ≡ latest))

  record IsConsistent (x : Session) : Type 0 where
    requests : All (IsOld x.search.search_request x.latest) x.sent
    shown : IsShown x.search x.latest

module _ (server : Text → Option (List SearchResult)) where
  All-IsOld :
      (c : ℕ) (latest next : Text) (sent : List (ℕ × Text))
      → All (IsOld server c latest) sent
      → All (IsOld server (c + 1) next) sent
  All-IsOld c latest next sent h =
      All-imp (IsOld server c latest) (IsOld server (c + 1) next)
        (λ r o. elim o [ inl p ↦ inl (omega (arith, p)) | inr p ↦ inl (omega (arith, p.0)) ]) sent h

  type-IsConsistent :
      (x : Session) (text : Text)
      → IsConsistent server x
      → IsConsistent server (record {
        search = (handle_global_search text x.search).1;
        latest = trim text;
        sent = send (handle_global_search text x.search).0 x.sent;
      })
  unfolding handle_global_search
  type-IsConsistent x text c =
      let older = All-IsOld x.search.search_request x.latest (trim text) x.sent c.requests in
      if_cases {A = Option (ℕ × Text) × Search}
        (λ p.
          IsConsistent server (record { search = p.1; latest = trim text; sent = send p.0 x.sent }))
        (ltb (length (trim text)) 2)
        (λ e. record { requests = older; shown = inr (inr (inl refl)) })
        (λ e. record { requests = (inr (refl, refl), older); shown = inl refl })

  latest_of_current :
      (c : ℕ) (latest : Text) (r : ℕ × Text)
      → IsOld server c latest r
      → (r.0 == c) ≡ true
      → r.1 ≡ latest
  latest_of_current c latest r (inl p) e = absurd (ground (arith, p, e))
  latest_of_current c latest r (inr p) e = p.1

  answer-IsConsistent :
      (x : Session) (k : ℕ) (r : ℕ × Text)
      → get_elem? x.sent k ≡ some r
      → IsConsistent server x
      → IsConsistent server
          (record x { search = settle_search r.0 (SearchAnswer.found (server r.1)) x.search })
  unfolding settle_search
  answer-IsConsistent x k r h c =
      let o =
        All-get_elem? (IsOld server x.search.search_request x.latest) x.sent k r c.requests h in
      if_cases (λ s. IsConsistent server (record x { search = s })) (r.0 == x.search.search_request)
        (λ e. record {
          requests = c.requests;
          shown = inr (
              inr (
                inr (
                  ap (λ t. some (or_else (server t) []))
                    (latest_of_current x.search.search_request x.latest r o e))));
        })
        (λ e. record { requests = c.requests; shown = c.shown })

  fail-IsConsistent :
      (x : Session) (r : ℕ × Text) (message : Option Text)
      → IsConsistent server x
      → IsConsistent server
          (record x { search = settle_search r.0 (SearchAnswer.unavailable message) x.search })
  unfolding settle_search
  fail-IsConsistent x r message c =
      if_cases (λ s. IsConsistent server (record x { search = s })) (r.0 == x.search.search_request)
        (λ e. record { requests = c.requests; shown = inr (inl refl) })
        (λ e. record { requests = c.requests; shown = c.shown })

  reset-IsConsistent :
      (x : Session)
      → IsConsistent server x
      → IsConsistent server (record x { search = reset_global_search x.search })
  unfolding reset_global_search
  reset-IsConsistent x c = record {
    requests = All-IsOld x.search.search_request x.latest x.latest x.sent c.requests;
    shown = inr (inr (inl refl));
  }

  Reach-IsConsistent : {x : Session} → Reach server x → IsConsistent server x
  Reach-IsConsistent Reach.start = record { requests = tt; shown = inr (inr (inl refl)) }
  Reach-IsConsistent (Reach.type {x} text r) = type-IsConsistent x text (Reach-IsConsistent r)
  Reach-IsConsistent (Reach.reset {x} r) = reset-IsConsistent x (Reach-IsConsistent r)
  Reach-IsConsistent (Reach.answer {x} k q h r) = answer-IsConsistent x k q h (Reach-IsConsistent r)
  Reach-IsConsistent (Reach.fail {x} k q message h r) =
      fail-IsConsistent x q message (Reach-IsConsistent r)

  -- However the searches and their answers interleave, the results on the screen are those of the
  -- last text that was searched for, unless the search is loading, has failed, or shows nothing.
  pub Reach-IsShown : {x : Session} → Reach server x → IsShown server x.search x.latest
  Reach-IsShown r = IsConsistent.shown (Reach-IsConsistent r)
