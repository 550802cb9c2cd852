-- ===== src/Analyzer/Scan/Contents.antt =====
-- Whose contents the tree of a scan shows.
use volum.Base.{
  if◌then◌else◌, Bool-cases, or_else, is_some, if_cases, get_elem?, All, Text, text_eq, text_eq_iff,
  ℕ, ◌≡◌, refl, sym, ap, subst, ◌∙◌, ◌⊎◌, inl, inr, Bool, true, false, ◌&&◌, ◌||◌, not, Option,
  none, some, List, [], ◌∷◌, ◌++◌,
}
use volum.Analyzer.Scan.{
  DiskScan, DiskUsageResult, TreeData, initial, start_scan, scan_started, open_analysis,
  reset_disk_scan, scan_feed, children_loaded, children_of, handle_toggle, find_job,
}
use volum.Jobs.{Job}
use volum.Jobs.Commands.{Answer}

-- The scan, and the requests for contents that wait: the job and the folder.
pub record Session : Type 0 where
  pub scan : DiskScan
  pub sent : List (Text × Text)

abbrev pub request_of : Bool → Option Text → Text → List (Text × Text) → List (Text × Text)
request_of asked none path sent = sent
request_of asked (some id) path sent = if asked then sent ++ (id, path) ∷ [] else sent

module _ (server : Text → Text → List DiskUsageResult) where
  -- Starts and their ends, other analyses that are opened while none starts, resets, events, folders
  -- that are opened, and answers to requests of the scan that is shown.
  pub data Reach : Session → Type 0 where
    opened : (path : Option Text) → Reach (record { scan = initial path; sent = [] })
    started :
        {x : Session}
        → (can_manage : Bool) (path : Text) → Reach x
        → Reach (record x { scan = (start_scan can_manage path x.scan).1 })
    created :
        {x : Session}
        → (a : Answer Text) → x.scan.starting_scan ≡ true
        → Reach x
        → Reach (record x { scan = scan_started a x.scan })
    analysis :
        {x : Session}
        → (job : Job) → x.scan.starting_scan ≡ false
        → Reach x
        → Reach (record x { scan = open_analysis job x.scan })
    reset : {x : Session} → Reach x → Reach (record x { scan = reset_disk_scan x.scan })
    feed :
        {x : Session}
        → (jobs : List Job) → Reach x
        → Reach (record x { scan = scan_feed jobs x.scan })
    root :
        {x : Session}
        → (path : Text) → Reach x
        → Reach (record x { sent = request_of true x.scan.current_job_id path x.sent })
    toggle :
        {x : Session}
        → (path : Text) → Reach x
        → Reach (record {
          scan = (handle_toggle path x.scan).1;
          sent = request_of (handle_toggle path x.scan).0 x.scan.current_job_id path x.sent;
        })
    answer :
        {x : Session}
        → (k : ℕ) (id path : Text) → get_elem? x.sent k ≡ some (id, path)
        → x.scan.current_job_id ≡ some id
        → Reach x
        → Reach (record x { scan = children_loaded path (Answer.answered (server id path)) x.scan })
    fail :
        {x : Session}
        → (path : Text) (message : Option Text) → Reach x
        → Reach (record x { scan = children_loaded path (Answer.failed message) x.scan })

  abbrev IsOf : Option Text → Text × List DiskUsageResult → Type 0
  IsOf none e = ⊥
  IsOf (some id) e = e.1 ≡ server id e.0

  record IsConsistent (s : DiskScan) : Type 0 where
    every : All (IsOf s.current_job_id) s.tree_data
    fresh : (s.starting_scan ≡ false) ⊎ (s.tree_data ≡ [])
    unnamed : (s.starting_scan ≡ false) ⊎ (s.current_job_id ≡ none)

  start_scan-IsConsistent :
      (can_manage : Bool) (path : Text) (s : DiskScan)
      → IsConsistent s
      → IsConsistent (start_scan can_manage path s).1
  unfolding start_scan
  start_scan-IsConsistent can_manage path s c =
      if_cases {A = Bool × DiskScan} (λ r. IsConsistent r.1) (not can_manage || s.starting_scan)
        (λ e. c) (λ e. record { every = tt; fresh = inr refl; unnamed = inr refl })

  scan_started-IsConsistent :
      (a : Answer Text) (s : DiskScan)
      → s.starting_scan ≡ true
      → IsConsistent s
      → IsConsistent (scan_started a s)
  unfolding scan_started
  scan_started-IsConsistent (Answer.answered id) s h c = elim c.fresh [
    | inl e ↦ absurd (cc (h, e))
    | inr e ↦ record {
      every = subst (All (IsOf (some id))) (sym e) tt;
      fresh = inl refl;
      unnamed = inl refl;
    }
  ]
  scan_started-IsConsistent (Answer.failed message) s h c = record {
    every = c.every;
    fresh = inl refl;
    unnamed = inl refl;
  }

  scan_feed-IsConsistent :
      (jobs : List Job) (s : DiskScan) → IsConsistent s → IsConsistent (scan_feed jobs s)
  unfolding scan_feed
  scan_feed-IsConsistent jobs s c =
      if_cases IsConsistent (s.awaiting_scan_feed && is_some (find_job jobs s.current_job_id))
        {x = record s { awaiting_scan_feed = false }} {y = s}
        (λ e. record { every = c.every; fresh = c.fresh; unnamed = c.unnamed }) (λ e. c)

  answer-IsConsistent :
      (id path : Text) (s : DiskScan)
      → s.current_job_id ≡ some id
      → IsConsistent s
      → IsConsistent (children_loaded path (Answer.answered (server id path)) s)
  unfolding children_loaded
  answer-IsConsistent id path s h c = elim c.unnamed [
    | inl e ↦ record {
      every =
          subst (λ o. All (IsOf o) ((path, server id path) ∷ s.tree_data)) (sym h)
            (refl, subst (λ o. All (IsOf o) s.tree_data) h c.every);
      fresh = inl e;
      unnamed = inl e;
    }
    | inr e ↦ absurd (cc (h, e))
  ]

  Reach-IsConsistent : {x : Session} → Reach x → IsConsistent x.scan
  unfolding open_analysis reset_disk_scan handle_toggle children_loaded
  Reach-IsConsistent (Reach.opened path) = record {
    every = tt;
    fresh = inl refl;
    unnamed = inl refl;
  }
  Reach-IsConsistent (Reach.started {x} can_manage path r) =
      start_scan-IsConsistent can_manage path x.scan (Reach-IsConsistent r)
  Reach-IsConsistent (Reach.created {x} a h r) =
      scan_started-IsConsistent a x.scan h (Reach-IsConsistent r)
  Reach-IsConsistent (Reach.analysis {x} job h r) = record {
    every = tt;
    fresh = inr refl;
    unnamed = inl h;
  }
  Reach-IsConsistent (Reach.reset {x} r) = record {
    every = tt;
    fresh = inr refl;
    unnamed = inr refl;
  }
  Reach-IsConsistent (Reach.feed {x} jobs r) =
      scan_feed-IsConsistent jobs x.scan (Reach-IsConsistent r)
  Reach-IsConsistent (Reach.root {x} path r) = Reach-IsConsistent r
  Reach-IsConsistent (Reach.toggle {x} path r) =
      let c = Reach-IsConsistent r in
      record { every = c.every; fresh = c.fresh; unnamed = c.unnamed }
  Reach-IsConsistent (Reach.answer {x} k id path waits current r) =
      answer-IsConsistent id path x.scan current (Reach-IsConsistent r)
  Reach-IsConsistent (Reach.fail {x} path message r) =
      let c = Reach-IsConsistent r in
      record { every = c.every; fresh = c.fresh; unnamed = c.unnamed }

  children_of-IsOf :
      (id path : Text) (results : List DiskUsageResult) (tree : TreeData)
      → All (IsOf (some id)) tree
      → children_of tree path ≡ some results
      → results ≡ server id path
  unfolding children_of
  children_of-IsOf id path results [] h e = absurd (cc)
  children_of-IsOf id path results (p ∷ ps) h e = elim (Bool-cases (text_eq p.0 path)) [
    | inl here ↦
        let found =
          subst (λ b. (if b then some p.1 else children_of ps path) ≡ some results) here e in
        sym (ap (λ o. or_else o p.1) found) ∙ h.0 ∙ ap (server id) ((text_eq_iff p.0 path).0 here)
    | inr other ↦
        children_of-IsOf id path results ps h.1
          (subst (λ b. (if b then some p.1 else children_of ps path) ≡ some results) other e)
  ]

  -- However scans are started, left and reset, other analyses opened, and folders opened in the tree,
  -- if an analysis is opened only while no scan starts, and contents arrive only while the scan for
  -- which they were requested is shown, then the tree shows for a folder what the server has for it in
  -- the scan that is shown.
  pub Reach-children_of :
      {x : Session} (id path : Text) (results : List DiskUsageResult)
      → Reach x
      → x.scan.current_job_id ≡ some id
      → children_of x.scan.tree_data path ≡ some results
      → results ≡ server id path
  Reach-children_of {x} id path results r h e =
      children_of-IsOf id path results x.scan.tree_data
        (subst (λ o. All (IsOf o) x.scan.tree_data) h (IsConsistent.every (Reach-IsConsistent r))) e
