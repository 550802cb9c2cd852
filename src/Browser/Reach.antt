-- ===== src/Browser/Reach.antt =====
-- What a folder's list holds, whatever the order of the answers.
use volum.Base.{
  ltb, ◌==◌, ltb→le, if_cases, length, take, drop, take-add, take_of_length-le, take-length-take,
  Text, is_empty, ◌+◌, ◌≤◌, ◌≡◌, refl, sym, ap, ap₂, subst, ◌∙◌, Bool, true, false, none, some,
  List, ◌∷◌, ◌++◌, arith,
}
use volum.Browser.Pages.{
  next, Reach, page_of, Session, Step, opens, scrolls, renders, answers, fails,
}
use volum.Browser.Sound.{
  count_current, Fits, all_of, IsSound, start-IsSound, open_folder-IsSound,
  load_more_entries-IsSound, IsSound-skip, fitting, IsSound-settled,
}
use volum.Browser.{
  file_page_size, settle, settle_current, receive_first, receive_more, Browser, FilesRequest,
  answered, failed,
}
use volum.Entries.{FileEntry}
use volum.Browser.Pages

module _ (listing : Text → Bool → List FileEntry) (b : Browser) (before after : List FilesRequest)
    (q : FilesRequest) (s : IsSound listing b (before ++ q ∷ after))
    (current : (q.id == b.file_request) ≡ true) where
  fits : Fits listing b q
  fits = fitting listing b before after q s current

  -- The listing that the request asks for is the one on the screen.
  same_listing : listing q.path q.hidden ≡ all_of listing b
  same_listing = ap₂ listing fits.path fits.hidden

  last_page :
      ltb (q.offset + q.limit) (length (listing q.path q.hidden)) ≡ false
      → length (all_of listing b) ≤ q.offset + file_page_size
  last_page e =
      let h = ltb→le _ _ e in
      omega (arith, fits.limit, ap (λ (xs : List FileEntry). length xs) same_listing)

  first-IsSound :
      q.is_more ≡ false
      → IsSound listing
          (record (receive_first (page_of listing q) b) { loading = false })
          (before ++ after)
  unfolding receive_first page_of
  first-IsSound e =
      let zero_offset = (fits.first e).0 in
      let page : take q.limit (drop q.offset (listing q.path q.hidden))
          ≡ take file_page_size (all_of listing b) =
        rw (same_listing, fits.limit, zero_offset) refl in
      IsSound-settled listing b before after q s current _ refl
        (λ h. rw page (take-length-take file_page_size (all_of listing b)))
        (λ h k n m. rw page (
          take_of_length-le file_page_size (all_of listing b)
            (omega (arith, last_page m, zero_offset))))

  more-IsSound :
      q.is_more ≡ true
      → is_empty b.current_path ≡ false
      → IsSound listing
          (record (receive_more q.offset (page_of listing q) b) { loading_more = false })
          (before ++ after)
  unfolding receive_more page_of
  more-IsSound e h =
      let all = all_of listing b in
      let offset = fits.more e in
      let page : take q.limit (drop q.offset (listing q.path q.hidden))
          ≡ take file_page_size (drop (length b.entries) all) =
        rw (same_listing, fits.limit, offset) refl in
      let whole : b.entries ++ take q.limit (drop q.offset (listing q.path q.hidden))
          ≡ take (length b.entries + file_page_size) all =
        ap₂ (λ (xs ys : List FileEntry). xs ++ ys) (s.prefix h) page
        ∙ sym (take-add (length b.entries) file_page_size all) in
      IsSound-settled listing b before after q s current _ refl
        (λ h. rw whole (take-length-take (length b.entries + file_page_size) all))
        (λ h k n m. rw whole (take_of_length-le _ all (omega (arith, last_page m, offset))))

  failed_first-IsSound :
      (message : Text)
      → IsSound listing (record b { error = some message; loading = false }) (before ++ after)
  failed_first-IsSound message =
      IsSound-settled listing b before after q s current _ refl s.prefix (λ h k n m. cc)

  failed_more-IsSound :
      (message : Text)
      → IsSound listing (record b { error = some message; loading_more = false }) (before ++ after)
  failed_more-IsSound message =
      IsSound-settled listing b before after q s current _ refl s.prefix (λ h k n m. cc)

module _ (listing : Text → Bool → List FileEntry) (b : Browser) (before after : List FilesRequest)
    (q : FilesRequest) (s : IsSound listing b (before ++ q ∷ after)) where
  answer-IsSound : IsSound listing (settle q (answered (page_of listing q)) b) (before ++ after)
  unfolding settle settle_current
  answer-IsSound =
      if_cases (λ c. IsSound listing c (before ++ after)) (q.id == b.file_request)
        (λ current.
          if_cases (λ c. IsSound listing c (before ++ after)) q.is_more
            (λ more.
              more-IsSound listing b before after q s current more
                (fitting listing b before after q s current).somewhere)
            (λ first. first-IsSound listing b before after q s current first))
        (λ old. IsSound-skip listing b before after q s old)

  failure-IsSound :
      (message : Text) → IsSound listing (settle q (failed message) b) (before ++ after)
  unfolding settle settle_current
  failure-IsSound message =
      if_cases (λ c. IsSound listing c (before ++ after)) (q.id == b.file_request)
        (λ current.
          if_cases (λ c. IsSound listing c (before ++ after)) q.is_more
            (λ more. failed_more-IsSound listing b before after q s current message)
            (λ first. failed_first-IsSound listing b before after q s current message))
        (λ old. IsSound-skip listing b before after q s old)

module _ (listing : Text → Bool → List FileEntry) where
  Step-IsSound :
      {s t : Session}
      → Step listing s t
      → IsSound listing s.browser s.pending
      → IsSound listing t.browser t.pending
  Step-IsSound {s} (opens path hidden) i =
      open_folder-IsSound listing path hidden s.browser s.pending i
  Step-IsSound {s} (scrolls e) i = rw e (load_more_entries-IsSound listing s.browser s.pending i)
  Step-IsSound renders i = i
  Step-IsSound {s} (answers before after q e) i =
      answer-IsSound listing s.browser before after q (subst (IsSound listing s.browser) e i)
  Step-IsSound {s} (fails before after q message e) i =
      failure-IsSound listing s.browser before after q (subst (IsSound listing s.browser) e i)
        message

  pub Reach-IsSound : {s : Session} → Reach listing s → IsSound listing s.browser s.pending
  Reach-IsSound Pages.here = start-IsSound listing
  Reach-IsSound (Pages.next r st) = Step-IsSound st (Reach-IsSound r)

  -- Whatever folders are opened, however the list is scrolled, and in whatever order and with
  -- whatever errors the requests are answered: the list on the screen is a prefix of the listing of
  -- the current folder, so pages of other folders never show and no page is missed or repeated.
  -- The server's folders are taken not to change, and each change to be rendered before the list
  -- is scrolled again.
  pub Reach-prefix :
      {s : Session}
      → Reach listing s
      → is_empty s.browser.current_path ≡ false
      → s.browser.entries
        ≡ take (length s.browser.entries) (listing s.browser.current_path s.browser.show_hidden)
  Reach-prefix r h = (Reach-IsSound r).prefix h

  -- In such a session, once the first page's loading has ended, no error is shown and the server
  -- has no further page, the list is the whole listing of the folder.
  pub Reach-complete :
      {s : Session}
      → Reach listing s
      → is_empty s.browser.current_path ≡ false
      → s.browser.loading ≡ false
      → s.browser.error ≡ none
      → s.browser.file_page.has_more ≡ false
      → s.browser.entries ≡ listing s.browser.current_path s.browser.show_hidden
  Reach-complete r h k e m = (Reach-IsSound r).total h k e m

  -- In such a session at most one pending request belongs to the current list, so that answers to
  -- all others are ignored.
  pub Reach-single_request :
      {s : Session} → Reach listing s → count_current s.browser.file_request s.pending ≤ 1
  Reach-single_request r = (Reach-IsSound r).single
