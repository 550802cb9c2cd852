-- ===== src/Analyzer/Keep.antt =====
-- Whether a copy of each duplicate file is kept.
use volum.Base.{
  ◌==◌, if◌then◌else◌, Bool-cases, Option-cases, is_some, if_cases, filter, any, all, All,
  filter-of_All, All-imp, Text, text_eq, includes, is_empty, text_eq_iff, ℕ, ◌≡◌, refl, sym, ap,
  subst, ◌∙◌, inl, inr, Bool, true, false, ◌||◌, not, Option, List, [], ◌∷◌, map, arith,
}
use volum.Analyzer.Duplicates.{
  settle_pending, trash_selected, set_pending, set_all, queued_of, has_completed, status_of_job,
  paths_with, DuplicateFile, Duplicates, Group, all_selected, removes_every_copy, duplicate_groups,
  request_trash_selected,
}
use volum.Jobs.{Job}
use volum.Analyzer.Groups.{files_of, in_group, files_of-duplicate_groups}

-- The files that are left once the given paths are trashed.
abbrev pub left_of : List Text → List DuplicateFile → List DuplicateFile
left_of trashed results = filter (λ f. not (includes trashed f.path)) results

not_all-files_of :
    (q : List DuplicateFile → Bool) (id : ℕ) (groups : List Group)
    → any (λ g. q g.1) groups ≡ false
    → is_empty (files_of id groups) ≡ false
    → q (files_of id groups) ≡ false
not_all-files_of q id [] h k = absurd (ground (arith, k))
not_all-files_of q id (g ∷ groups) h k = elim (Bool-cases (g.0 == id)) [
  | inl e ↦ rw e (ground (arith, h))
  | inr e ↦ rw e (
      not_all-files_of q id groups (ground (arith, h)) (
        let step : files_of id (g ∷ groups) ≡ files_of id groups = rw e refl in
        ap is_empty (sym step) ∙ k))
]

left_of_not_all :
    (id : ℕ) (selected : List Text) (results : List DuplicateFile)
    → all_selected selected (filter (in_group id) results) ≡ false
    → is_empty (filter (in_group id) (left_of selected results)) ≡ false
left_of_not_all id selected [] h = absurd (ground (arith, h))
left_of_not_all id selected (r ∷ results) h = ground (arith, h, left_of_not_all id selected results)

confirmed_of_kept :
    (s : Duplicates)
    → s.confirm_trash ≡ false
    → Duplicates.confirm_trash (request_trash_selected s) ≡ true
    → removes_every_copy s.dup_results s.dup_selected ≡ false
unfolding request_trash_selected
confirmed_of_kept s before after =
    elim (Bool-cases (removes_every_copy s.dup_results s.dup_selected)) [
      | inl e ↦
          let refused : Duplicates.confirm_trash (request_trash_selected s) ≡ s.confirm_trash =
            rw e refl in
          cc (sym after, refused, before)
      | inr e ↦ e
    ]

-- If the request to trash the selection is let through, each group that has a file keeps one.
pub confirm_trash-keeps :
    (s : Duplicates) (id : ℕ)
    → s.confirm_trash ≡ false
    → Duplicates.confirm_trash (request_trash_selected s) ≡ true
    → is_empty (filter (in_group id) s.dup_results) ≡ false
    → is_empty (filter (in_group id) (left_of s.dup_selected s.dup_results)) ≡ false
unfolding request_trash_selected
confirm_trash-keeps s id before after some_file =
    let kept = confirmed_of_kept s before after in
    let groups =
      not_all-files_of (all_selected s.dup_selected) id (duplicate_groups s.dup_results) kept in
    let same = files_of-duplicate_groups id s.dup_results in
    left_of_not_all id s.dup_selected s.dup_results
      (ap (all_selected s.dup_selected) (sym same) ∙ groups (ap is_empty same ∙ some_file))

abbrev keys : List (Text × Text) → List Text
keys pending = map (λ p. p.0) pending

includes-set_pending :
    (a : Text) (p : Text × Text) (prev : List (Text × Text))
    → (text_eq p.0 a || includes (keys prev) a) ≡ true
    → includes (keys (set_pending p prev)) a ≡ true
unfolding includes
includes-set_pending a p [] h = ground (arith, h)
includes-set_pending a p (q ∷ qs) h = elim (Bool-cases (text_eq q.0 p.0)) [
  | inl e ↦
      let same : text_eq q.0 a ≡ text_eq p.0 a =
        ap (λ t. text_eq t a) ((text_eq_iff q.0 p.0).0 e) in
      rw e (ground (arith, h, same))
  | inr e ↦ rw e (ground (arith, h, includes-set_pending a p qs))
]

includes-set_all :
    (a : Text) (ps prev : List (Text × Text))
    → (includes (keys ps) a || includes (keys prev) a) ≡ true
    → includes (keys (set_all prev ps)) a ≡ true
unfolding includes
includes-set_all a [] prev h = h
includes-set_all a (p ∷ ps) prev h =
    includes-set_all a ps (set_pending p prev) (ground (arith, h, includes-set_pending a p prev))

keys-queued_of :
    (delete_path : Text → Option Text) (ps : List Text)
    → all (λ p. is_some (delete_path p)) ps ≡ true
    → keys (queued_of delete_path ps) ≡ ps
keys-queued_of delete_path [] h = refl
keys-queued_of delete_path (p ∷ ps) h = elim (Option-cases (delete_path p)) [
  | inl e ↦
      let refused : is_some (delete_path p) ≡ false = ap is_some e in
      absurd (ground (arith, h, refused))
  | inr (id, e) ↦
      rw (queued_of, e) (ap (λ l. p ∷ l) (keys-queued_of delete_path ps (ground (arith, h))))
]

none_included : (ps : List Text) (a : Text) → is_empty ps ≡ true → includes ps a ≡ false
unfolding includes
none_included [] a h = refl
none_included (p ∷ ps) a h = absurd (cc)

-- A path that was selected, or waited before, waits once the selection is taken.
pending_of_trashed :
    (delete_path : Text → Option Text) (s : Duplicates) (a : Text)
    → all (λ p. is_some (delete_path p)) s.dup_selected ≡ true
    → (includes s.dup_selected a || includes (keys s.pending_dup_trash) a) ≡ true
    → includes (keys (trash_selected true delete_path s).pending_dup_trash) a ≡ true
unfolding trash_selected includes
pending_of_trashed delete_path s a taken h = elim (Bool-cases (is_empty s.dup_selected)) [
  | inl e ↦ rw e (ground (arith, h, none_included s.dup_selected a e))
  | inr e ↦ rw e (
      includes-set_all a (queued_of delete_path s.dup_selected) s.pending_dup_trash
        (rw (keys-queued_of delete_path s.dup_selected taken) h))
]

dup_results-trash_selected :
    (delete_path : Text → Option Text) (s : Duplicates)
    → (trash_selected true delete_path s).dup_results ≡ s.dup_results
unfolding trash_selected
dup_results-trash_selected delete_path s =
    if_cases {A = Duplicates} (λ t. t.dup_results ≡ s.dup_results) (is_empty s.dup_selected)
      (λ e. refl) (λ e. refl)

none_left :
    (q : DuplicateFile → Bool) (gone : List Text) (results : List DuplicateFile)
    → All (λ f. includes gone f.path ≡ true) (filter q results)
    → filter q (filter (λ r. not (includes gone r.path)) results) ≡ []
none_left q gone [] h = refl
none_left q gone (r ∷ results) h = elim (Bool-cases (q r)) [
  | inl e ↦
      let (here, later) =
        subst
          (λ b.
            All (λ f. includes gone f.path ≡ true)
              (if b then r ∷ filter q results else filter q results))
          e h in
      rw here (none_left q gone results later)
  | inr e ↦
      let later =
        subst
          (λ b.
            All (λ f. includes gone f.path ≡ true)
              (if b then r ∷ filter q results else filter q results))
          e h in
      elim (Bool-cases (includes gone r.path)) [
        | inl g ↦ rw g (none_left q gone results later)
        | inr g ↦ rw (g, e) (none_left q gone results later)
      ]
]

none_left_settled :
    (s : Duplicates) (id : ℕ) (delete_path : Text → Option Text) (jobs : List Job)
    → All
        (λ f. (includes s.dup_selected f.path || includes (keys s.pending_dup_trash) f.path) ≡ true)
        (filter (in_group id) s.dup_results)
    → all (λ p. is_some (delete_path p)) s.dup_selected ≡ true
    → All
        (λ p. has_completed (status_of_job jobs p.1) ≡ true)
        (trash_selected true delete_path s).pending_dup_trash
    → filter (in_group id) (settle_pending jobs (trash_selected true delete_path s)).dup_results
      ≡ []
unfolding settle_pending
none_left_settled s id delete_path jobs whole taken done =
    let t = trash_selected true delete_path s in
    let gone = paths_with has_completed jobs t.pending_dup_trash in
    let all_gone : gone ≡ keys t.pending_dup_trash =
      ap keys
        (filter-of_All (λ p. has_completed (status_of_job jobs p.1)) t.pending_dup_trash done) in
    ap (λ rs. filter (in_group id) (filter (λ r. not (includes gone r.path)) rs))
      (dup_results-trash_selected delete_path s)
    ∙ none_left (in_group id) gone s.dup_results (
        All-imp _ (λ f. includes gone f.path ≡ true)
          (λ f h.
            ap (λ ps. includes ps f.path) all_gone
            ∙ pending_of_trashed delete_path s f.path taken h)
          (filter (in_group id) s.dup_results) whole)

-- If every file of a group is selected or waits to be trashed already, the request is still let
-- through as long as the selection alone holds no whole group; once the selection is taken and all
-- jobs that wait have completed, no file of the group is left.
pub pending_dup_trash-not_kept :
    (s : Duplicates) (id : ℕ) (delete_path : Text → Option Text) (jobs : List Job)
    → removes_every_copy s.dup_results s.dup_selected ≡ false
    → All
        (λ f.
          (includes s.dup_selected f.path || includes (map (λ p. p.0) s.pending_dup_trash) f.path)
          ≡ true)
        (filter (in_group id) s.dup_results)
    → all (λ p. is_some (delete_path p)) s.dup_selected ≡ true
    → All
        (λ p. has_completed (status_of_job jobs p.1) ≡ true)
        (trash_selected true delete_path (request_trash_selected s)).pending_dup_trash
    → let t = trash_selected true delete_path (request_trash_selected s) in
      ((request_trash_selected s).confirm_trash ≡ true)
      × (filter (in_group id) (settle_pending jobs t).dup_results ≡ [])
unfolding request_trash_selected
pending_dup_trash-not_kept s id delete_path jobs kept whole taken done =
    let requested : request_trash_selected s ≡ record s { confirm_trash = true } = rw kept refl in
    rw requested (
      refl,
      none_left_settled (record s { confirm_trash = true }) id delete_path jobs whole taken
          (subst
            (λ u.
              All (λ p. has_completed (status_of_job jobs p.1) ≡ true)
                (trash_selected true delete_path u).pending_dup_trash)
            requested done),
    )
