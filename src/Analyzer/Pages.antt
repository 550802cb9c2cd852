-- ===== src/Analyzer/Pages.antt =====
-- Loading all the results of a scan, page by page: the loops of `loadChildren` and
-- `loadDupResults`. The request is a parameter; the loop takes fuel.
use volum.Base.{
  ltb, if◌then◌else◌, ltb→lt, ltb→le, Bool-cases, length, take, drop, length-take, length-drop,
  take-add, take_of_length-le, ℕ, zero, suc, ◌+◌, ◌-◌, ◌*◌, ◌/◌, ◌≤◌, ◌<◌, min, ◌≡◌, sym, ap, ◌∙◌,
  inl, inr, Option, none, some, List, [], ◌++◌, arith,
}
use volum.Jobs.Commands.{Answer}

abbrev pub analysis_page_size : ℕ
analysis_page_size = 500

module _ {A : Type 0} where
  -- A page is appended; a short page is the last one.
  unfoldable pub after_page :
      (List A → Option (Answer (List A))) → List A → Answer (List A) → Option (Answer (List A))
  after_page next results (Answer.failed message) = some (Answer.failed message)
  after_page next results (Answer.answered page) =
      let all_results = results ++ page in
      let rest = next all_results in
      if ltb (length page) analysis_page_size then some (Answer.answered all_results) else rest

  -- The loop with the limit and the offset of its request; missing if the fuel ran out.
  pub load_pages : (ℕ → ℕ → Answer (List A)) → ℕ → ℕ → List A → Option (Answer (List A))
  load_pages request zero offset results = none
  load_pages request (suc fuel) offset results =
      after_page (λ all_results. load_pages request fuel (offset + analysis_page_size) all_results)
        results (request analysis_page_size offset)

  -- The server answers with the slice of the listing that is asked for.
  abbrev pub slices : List A → ℕ → ℕ → Answer (List A)
  slices listing limit offset = Answer.answered (take limit (drop offset listing))

  load_pages-from :
      (listing : List A) (fuel offset : ℕ)
      → offset ≤ length listing
      → length listing < offset + fuel * analysis_page_size
      → load_pages (slices listing) fuel offset (take offset listing)
        ≡ some (Answer.answered listing)
  unfolding load_pages after_page
  load_pages-from listing zero offset b h = absurd (omega (arith, b, h))
  load_pages-from listing (suc fuel) offset b h =
      let page = take analysis_page_size (drop offset listing) in
      let joined : take offset listing ++ page ≡ take (offset + analysis_page_size) listing =
        sym (take-add offset analysis_page_size listing) in
      let n : length page ≡ min analysis_page_size (length listing - offset) =
        length-take analysis_page_size (drop offset listing)
        ∙ ap (λ k. min analysis_page_size k) (length-drop offset listing) in
      elim (Bool-cases (ltb (length page) analysis_page_size)) [
        | inl last ↦
            rw (last, joined)
              (ap (λ xs. some (Answer.answered xs))
                (take_of_length-le (offset + analysis_page_size) listing
                  (omega (arith, n, ltb→lt (length page) analysis_page_size last))))
        | inr full ↦
            rw (full, joined)
              (load_pages-from listing fuel (offset + analysis_page_size)
                (omega (arith, n, ltb→le (length page) analysis_page_size full)) (omega (arith, h)))
      ]

  -- With one round more than there are full pages, the loop returns the whole listing.
  pub load_pages-total :
      (listing : List A)
      → load_pages (slices listing) (suc (length listing / analysis_page_size)) 0 []
        ≡ some (Answer.answered listing)
  load_pages-total listing =
      load_pages-from listing (suc (length listing / analysis_page_size)) 0 (omega arith)
        (omega arith)
