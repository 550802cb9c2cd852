-- ===== src/Analyzer/Attach/Newest.antt =====
-- The job that the page opens by itself.
use volum.Base.{
  if◌then◌else◌, leb→le, Bool-cases, Option-cases, or_else, length, get_elem?, filter, all, All,
  All-imp, Text, is_empty, ℕ, ◌≤◌, ◌≡◌, refl, sym, ap, subst, ◌∙◌, ◌⊎◌, inl, inr, Bool, true, false,
  Option, none, some, List, [], ◌∷◌, arith, sort, insert, length-sort,
}
use volum.Analyzer.Attach.{
  Analyzer, opened, attach_active, attach_newest, newest_active, is_active_analysis, open_job,
  later,
}
use volum.Analyzer.Search.{is_given}
use volum.Jobs.{Job, JobType}

-- Whether a job is one of a list.
abbrev pub IsAmong : Job → List Job → Type 0
IsAmong j [] = ⊥
IsAmong j (k ∷ ks) = (k ≡ j) ⊎ IsAmong j ks

IsAmong-filter :
    (p : Job → Bool) (j : Job) (jobs : List Job)
    → IsAmong j (filter p jobs)
    → (IsAmong j jobs) × (p j ≡ true)
IsAmong-filter p j [] h = absurd h
IsAmong-filter p j (k ∷ ks) h = elim (Bool-cases (p k)) [
  | inl e ↦ elim (subst (λ b. IsAmong j (if b then k ∷ filter p ks else filter p ks)) e h) [
    | inl same ↦ (inl same, ap p (sym same) ∙ e)
    | inr among ↦ let (a, b) = IsAmong-filter p j ks among in (inr a, b)
  ]
  | inr e ↦
      let (a, b) =
        IsAmong-filter p j ks
          (subst (λ b. IsAmong j (if b then k ∷ filter p ks else filter p ks)) e h) in
      (inr a, b)
]

nil_of_length : {A : Type 0} (xs : List A) → length xs ≡ 0 → xs ≡ []
nil_of_length [] h = refl
nil_of_length (x ∷ xs) h = absurd (omega (arith, h))

length_of_none : {A : Type 0} (xs : List A) → get_elem? xs 0 ≡ none → length xs ≡ 0
length_of_none [] h = refl
length_of_none (x ∷ xs) h = absurd (cc)

opened-flag :
    (type : JobType) (job : Job) (a : Analyzer)
    → (opened type job a).active_job_attached ≡ a.active_job_attached
opened-flag JobType.disk_analyze job a = refl
opened-flag JobType.duplicate_find job a = refl
opened-flag type job a = refl

open_job-flag :
    (job : Job) (a : Analyzer) → (open_job job a).active_job_attached ≡ a.active_job_attached
unfolding open_job
open_job-flag job a = opened-flag job.type job a

module _ (time : Text → ℕ) where
  abbrev IsFirst : Job → List Job → Type 0
  IsFirst j jobs = IsAmong j jobs × All (λ k. time k.updated_at ≤ time j.updated_at) jobs

  IsFirst-add :
      (x j k : Job) (xs : List Job)
      → j ≡ k
      → (x ≡ j) ⊎ IsAmong j xs
      → time x.updated_at ≤ time j.updated_at
      → All (λ i. time i.updated_at ≤ time j.updated_at) xs
      → IsFirst k (x ∷ xs)
  IsFirst-add x j k xs same among h all = subst (λ i. IsFirst i (x ∷ xs)) same (among, (h, all))

  -- One step of the sort keeps that the first element is the newest.
  insert-IsFirst :
      (x : Job) (xs ys : List Job)
      → ((j : Job) → get_elem? ys 0 ≡ some j → IsFirst j xs)
      → length ys ≡ length xs
      → (j : Job) → get_elem? (insert (later time) x ys) 0 ≡ some j
      → IsFirst j (x ∷ xs)
  insert-IsFirst x [] [] first n j h =
      IsFirst-add x x j [] (ap (λ o. or_else o x) h) (inl refl) (omega arith) tt
  insert-IsFirst x (z ∷ zs) [] first n j h = absurd (omega (arith, n))
  insert-IsFirst x xs (y ∷ ys) first n j h = elim (Bool-cases (later time x y)) [
    | inl e ↦
        let older = leb→le (time y.updated_at) (time x.updated_at) e in
        let all =
          All-imp (λ k. time k.updated_at ≤ time y.updated_at)
            (λ k. time k.updated_at ≤ time x.updated_at) (λ k b. omega (arith, b, older)) xs
            (first y refl).1 in
        IsFirst-add x x j xs
          (ap (λ o. or_else o x)
            (subst
              (λ b. get_elem? (if b then x ∷ y ∷ ys else y ∷ insert (later time) x ys) 0 ≡ some j) e
              h))
          (inl refl) (omega arith) all
    | inr e ↦
        IsFirst-add x y j xs
          (ap (λ o. or_else o y)
            (subst
              (λ b. get_elem? (if b then x ∷ y ∷ ys else y ∷ insert (later time) x ys) 0 ≡ some j) e
              h))
          (inr (first y refl).0) (ground (arith, e)) (first y refl).1
  ]

  sort-IsFirst :
      (jobs : List Job) (j : Job) → get_elem? (sort (later time) jobs) 0 ≡ some j → IsFirst j jobs
  unfolding sort
  sort-IsFirst [] j h = absurd (cc)
  sort-IsFirst (x ∷ xs) j h =
      insert-IsFirst x xs (sort (later time) xs) (sort-IsFirst xs) (length-sort (later time) xs) j h

  -- The job is an active analysis of the list, and none was updated after it.
  pub record IsNewest (j : Job) (jobs : List Job) : Type 0 where
    pub among : IsAmong j jobs
    pub active : is_active_analysis j ≡ true
    pub newest : All (λ k. time k.updated_at ≤ time j.updated_at) (filter is_active_analysis jobs)

  -- What the effect makes of the page.
  pub data Attached (jobs : List Job) (a : Analyzer) : Analyzer → Type 0 where
    nothing :
        filter is_active_analysis jobs ≡ []
        → Attached jobs a (record a { active_job_attached = true })
    shown :
        (j : Job)
        → IsNewest j jobs
        → Attached jobs a (open_job j (record a { active_job_attached = true }))

  newest_active-IsNewest :
      (jobs : List Job) (j : Job) → newest_active time jobs ≡ some j → IsNewest j jobs
  unfolding newest_active
  newest_active-IsNewest jobs j h =
      let (among, newest) = sort-IsFirst (filter is_active_analysis jobs) j h in
      let (listed, active) = IsAmong-filter is_active_analysis j jobs among in
      record { among = listed; active = active; newest = newest }

  newest_active-none :
      (jobs : List Job) → newest_active time jobs ≡ none → filter is_active_analysis jobs ≡ []
  unfolding newest_active
  newest_active-none jobs h = nil_of_length (filter is_active_analysis jobs) (
      sym (length-sort (later time) (filter is_active_analysis jobs))
      ∙ length_of_none (sort (later time) (filter is_active_analysis jobs)) h)

  attach_newest-flag :
      (found : Option Job) (a : Analyzer)
      → (attach_newest time found a).active_job_attached ≡ a.active_job_attached
  attach_newest-flag none a = refl
  attach_newest-flag (some job) a = open_job-flag job a

  attach_active_again :
      (jobs : List Job) (a : Analyzer)
      → a.active_job_attached ≡ true
      → attach_active time none none jobs a ≡ a
  unfolding attach_active
  attach_active_again jobs a h = ground (arith, h)

  attach_newest-Attached :
      (jobs : List Job) (a : Analyzer)
      → Attached jobs a
          (attach_newest time (newest_active time jobs) (record a { active_job_attached = true }))
  attach_newest-Attached jobs a = elim (Option-cases (newest_active time jobs)) [
    | inl e ↦ rw e (Attached.nothing (newest_active-none jobs e))
    | inr (j, e) ↦ rw e (Attached.shown j (newest_active-IsNewest jobs j e))
  ]

  attach_active-first :
      (a : Analyzer) (jobs : List Job)
      → is_given a.disk.current_job_id ≡ false
      → is_given a.search.dup_job_id ≡ false
      → a.active_job_attached ≡ false
      → is_empty jobs ≡ false
      → attach_active time none none jobs a
        ≡ attach_newest time (newest_active time jobs) (record a { active_job_attached = true })
  unfolding attach_active
  attach_active-first a jobs disk search flag some_job = rw (disk, search, flag, some_job) refl

  -- With no job and no folder asked for, no analysis shown and none opened before, the first list of
  -- jobs that is not empty opens an active analysis than which no other one was updated later, or
  -- none where none is active; no later list opens another one.
  pub attach_active-Attached :
      (a : Analyzer) (jobs jobs' : List Job)
      → is_given a.disk.current_job_id ≡ false
      → is_given a.search.dup_job_id ≡ false
      → a.active_job_attached ≡ false
      → is_empty jobs ≡ false
      → Attached jobs a (attach_active time none none jobs a)
        × (attach_active time none none jobs' (attach_active time none none jobs a)
            ≡ attach_active time none none jobs a)
  attach_active-Attached a jobs jobs' disk search flag some_job =
      let opening : Analyzer = record a { active_job_attached = true } in
      let found = newest_active time jobs in
      rw (attach_active-first a jobs disk search flag some_job) (
        attach_newest-Attached jobs a,
        attach_active_again jobs' (attach_newest time found opening)
            (attach_newest-flag found opening),
      )
