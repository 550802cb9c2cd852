-- ===== src/Browser/Sound.antt =====
-- The invariant of a session: which requests can be pending, and what the list holds meanwhile.
use volum.Base.{
  ◌==◌, if◌then◌else◌, ==_iff, Bool-cases, length, take, All, Text, is_empty, ℕ, ◌+◌, ◌≤◌, ◌≡◌,
  refl, inl, inr, Bool, true, false, ◌||◌, not, none, List, [], ◌∷◌, ◌++◌, arith,
}
use volum.Browser.{
  shown_of, load_more_entries, file_page_size, open_folder, Browser, FilesRequest, initial,
}
use volum.Entries.{FileEntry}
use volum.Browser.Pages.{send}

-- The pending requests that are answered to the current list.
pub count_current : ℕ → List FilesRequest → ℕ
count_current id [] = 0
count_current id (q ∷ qs) = (if q.id == id then 1 else 0) + count_current id qs

count_current-middle :
    (id : ℕ) (before after : List FilesRequest) (q : FilesRequest)
    → count_current id (before ++ q ∷ after)
      ≡ (if q.id == id then 1 else 0) + count_current id (before ++ after)
unfolding count_current
count_current-middle id [] after q = refl
count_current-middle id (p ∷ before) after q = omega (arith, count_current-middle id before after q)

All-middle :
    (P : FilesRequest → Type 0) (before after : List FilesRequest) (q : FilesRequest)
    → All P (before ++ q ∷ after)
    → P q × All P (before ++ after)
All-middle P [] after q a = a
All-middle P (p ∷ before) after q (h, a) =
    let (k, rest) = All-middle P before after q a in (k, (h, rest))

-- Requests that are older than the current one do not count.
count_current-old :
    (n : ℕ) (qs : List FilesRequest) → All (λ q. q.id ≤ n) qs → count_current (n + 1) qs ≡ 0
unfolding count_current
count_current-old n [] a = refl
count_current-old n (q ∷ qs) (h, a) = ground (arith, count_current-old n qs a)

All-le-weaken :
    (n : ℕ) (qs : List FilesRequest) → All (λ q. q.id ≤ n) qs → All (λ q. q.id ≤ n + 1) qs
All-le-weaken n [] a = tt
All-le-weaken n (q ∷ qs) (h, a) = (omega arith, All-le-weaken n qs a)

All-newer :
    (n : ℕ) (P : FilesRequest → Type 0) (qs : List FilesRequest)
    → All (λ q. q.id ≤ n) qs
    → All (λ q. q.id ≡ n + 1 → P q) qs
All-newer n P [] a = tt
All-newer n P (q ∷ qs) (h, a) = (λ e. absurd (omega arith), All-newer n P qs a)

All-none :
    (n : ℕ) (P : FilesRequest → Type 0) (qs : List FilesRequest)
    → count_current n qs ≡ 0
    → All (λ q. q.id ≡ n → P q) qs
unfolding count_current
All-none n P [] h = tt
All-none n P (q ∷ qs) h =
    (λ e. absurd (ground (arith, (==_iff q.id n).1 e)), All-none n P qs (omega arith))

count_current-cons :
    (id : ℕ) (q : FilesRequest) (qs : List FilesRequest)
    → count_current id qs ≡ 0
    → count_current id (q ∷ qs) ≤ 1
unfolding count_current
count_current-cons id q qs h = ground arith

module _ (listing : Text → Bool → List FileEntry) where
  -- What a pending request asks for, if it is the current one.
  pub record Fits (b : Browser) (q : FilesRequest) : Type 0 where
    pub somewhere : is_empty b.current_path ≡ false
    pub path : q.path ≡ b.current_path
    pub hidden : q.hidden ≡ b.show_hidden
    pub limit : q.limit ≡ file_page_size
    pub first : q.is_more ≡ false → (q.offset ≡ 0) × (b.entries ≡ [])
    pub more : q.is_more ≡ true → q.offset ≡ length b.entries

  abbrev pub all_of : Browser → List FileEntry
  all_of b = listing b.current_path b.show_hidden

  pub record IsSound (b : Browser) (pending : List FilesRequest) : Type 0 where
    pub known : All (λ q. q.id ≤ b.file_request) pending
    pub fits : All (λ q. q.id ≡ b.file_request → Fits b q) pending
    pub single : count_current b.file_request pending ≤ 1
    pub quiet :
        b.file_page.has_more ≡ true
        → b.loading_more ≡ false
        → count_current b.file_request pending ≡ 0
    pub prefix : is_empty b.current_path ≡ false → b.entries ≡ take (length b.entries) (all_of b)
    pub total :
        is_empty b.current_path ≡ false
        → b.loading ≡ false
        → b.error ≡ none
        → b.file_page.has_more ≡ false
        → b.entries ≡ all_of b

  pub start-IsSound : IsSound initial []
  unfolding count_current
  start-IsSound = record {
    known = tt;
    fits = tt;
    single = omega arith;
    quiet = λ h k. refl;
    prefix = λ h. cc;
    total = λ h. cc;
  }

  pub open_folder-IsSound :
      (path : Text) (hidden : Bool) (b : Browser) (pending : List FilesRequest)
      → IsSound b pending
      → IsSound (open_folder path hidden b).0 (send (open_folder path hidden b).1 pending)
  unfolding open_folder
  open_folder-IsSound [] hidden b pending s = record {
    known = All-le-weaken b.file_request pending s.known;
    fits = All-newer b.file_request _ pending s.known;
    single = omega (arith, count_current-old b.file_request pending s.known);
    quiet = λ h k. count_current-old b.file_request pending s.known;
    prefix = λ h. cc;
    total = λ h. cc;
  }
  open_folder-IsSound (c ∷ path) hidden b pending s = record {
    known = (omega arith, All-le-weaken b.file_request pending s.known);
    fits = (
      λ e. record {
        somewhere = refl;
        path = refl;
        hidden = refl;
        limit = refl;
        first = λ k. (refl, refl);
        more = λ k. cc;
      },
      All-newer b.file_request _ pending s.known,
    );
    single = count_current-cons _ _ pending (count_current-old b.file_request pending s.known);
    quiet = λ h k. cc;
    prefix = λ h. refl;
    total = λ h k. cc;
  }

  pub load_more_entries-IsSound :
      (b : Browser) (pending : List FilesRequest)
      → IsSound b pending
      → IsSound
          (load_more_entries (shown_of b) b).0
          (send (load_more_entries (shown_of b) b).1 pending)
  unfolding load_more_entries
  load_more_entries-IsSound b pending s =
      elim (Bool-cases (is_empty b.current_path || b.loading_more || not b.file_page.has_more)) [
        | inl idle ↦ rw idle s
        | inr free ↦
            let clear = s.quiet (ground arith) (ground arith) in
            rw free (record {
              known = (omega arith, s.known);
              fits = (
                λ e. record {
                  somewhere = ground arith;
                  path = refl;
                  hidden = refl;
                  limit = refl;
                  first = λ k. cc;
                  more = λ k. refl;
                },
                All-none b.file_request _ pending clear,
              );
              single = count_current-cons _ _ pending clear;
              quiet = λ h k. cc;
              prefix = s.prefix;
              total = λ h k e m. ground arith;
            })
      ]

  module _ (b : Browser) (before after : List FilesRequest) (q : FilesRequest)
      (s : IsSound b (before ++ q ∷ after)) where
    -- An answer to an older request.
    pub IsSound-skip : (q.id == b.file_request) ≡ false → IsSound b (before ++ after)
    IsSound-skip other =
        let count = count_current-middle b.file_request before after q in
        let same : count_current b.file_request (before ++ q ∷ after)
            ≡ count_current b.file_request (before ++ after) =
          ground (arith, count) in
        record {
          known = (All-middle _ before after q s.known).1;
          fits = (All-middle _ before after q s.fits).1;
          single = omega (arith, same, s.single);
          quiet = λ h k. omega (arith, same, s.quiet h k);
          prefix = s.prefix;
          total = s.total;
        }

    module _ (current : (q.id == b.file_request) ≡ true) where
      pub fitting : Fits b q
      fitting = (All-middle _ before after q s.fits).0 ((==_iff _ _).0 current)

      pub none_left : count_current b.file_request (before ++ after) ≡ 0
      none_left = ground (arith, count_current-middle b.file_request before after q, s.single)

      -- After the answer to the current request no other one is pending.
      pub IsSound-settled :
          (b' : Browser)
          → b'.file_request ≡ b.file_request
          → (is_empty b'.current_path ≡ false → b'.entries ≡ take (length b'.entries) (all_of b'))
          → (is_empty b'.current_path ≡ false
              → b'.loading ≡ false
              → b'.error ≡ none
              → b'.file_page.has_more ≡ false
              → b'.entries ≡ all_of b')
          → IsSound b' (before ++ after)
      IsSound-settled b' e p t = record {
        known = rw e ((All-middle _ before after q s.known).1);
        fits = rw e (All-none b.file_request _ (before ++ after) none_left);
        single = rw e (omega (arith, none_left));
        quiet = λ h k. rw e none_left;
        prefix = p;
        total = t;
      }
