-- ===== src/Jobs/Replay.antt =====
-- Which events of the server refresh the files and notify.
use mathlib.Core.List.{append-nil}
use volum.Base.{
  if◌then◌else◌, or_else, length, get_elem?, filter, All, length-append, filter-append, All-imp,
  Text, text_eq, includes, IsDistinct, text_eq_refl, ℕ, zero, suc, ◌+◌, ◌≤◌, ◌≡◌, refl, ap, ◌∙◌,
  Bool, true, false, ◌&&◌, not, Option, none, some, List, [], ◌∷◌, ◌++◌, map, arith,
}
use volum.Jobs.{Job, JobStatus, is_completed, same_status, refreshes_files}
use volum.Jobs.Events.{
  Effect, Jobs, get, statuses_of, listed, jobs_loaded, refresh_effect, notify_effect, job_effects,
  jobs_event,
}

-- No two jobs have the same identifier.
abbrev pub HasDistinctIds : List Job → Type 0
HasDistinctIds jobs = IsDistinct (map Job.id jobs)

if_false_of : (b : Bool) (status : JobStatus) → b ≡ false → (if b then some status else none) ≡ none
if_false_of b status h = rw h refl

get-statuses_of_new :
    (jobs : List Job) (id : Text)
    → includes (map Job.id jobs) id ≡ false
    → get (statuses_of jobs) id ≡ none
unfolding get includes
get-statuses_of_new [] id h = refl
get-statuses_of_new (j ∷ jobs) id h =
    rw (get-statuses_of_new jobs id (ground (arith, h)))
      (if_false_of (text_eq j.id id) j.status (ground (arith, h)))

IsKnown : List (Text × JobStatus) → Job → Type 0
IsKnown statuses j = get statuses j.id ≡ some j.status

-- Each of the jobs is known with its status.
statuses_of-IsKnown :
    (jobs : List Job) → HasDistinctIds jobs → All (IsKnown (statuses_of jobs)) jobs
unfolding get IsKnown
statuses_of-IsKnown [] d = tt
statuses_of-IsKnown (j ∷ jobs) d = (
  rw (get-statuses_of_new jobs j.id d.0, text_eq_refl j.id) refl,
  All-imp (IsKnown (statuses_of jobs)) (IsKnown (statuses_of (j ∷ jobs))) (λ x h. rw h refl) jobs
      (statuses_of-IsKnown jobs d.1),
)

same_status_refl : (a : JobStatus) → same_status a a ≡ true
unfolding same_status
same_status_refl a = ground arith

refresh_effect_of_same : (j : Job) → refresh_effect (some j.status) j ≡ []
unfolding refresh_effect
refresh_effect_of_same j = ground arith

notify_effect_of_same : (granted : Bool) (j : Job) → notify_effect granted (some j.status) j ≡ []
unfolding notify_effect
notify_effect_of_same false j = refl
notify_effect_of_same true j = rw (same_status_refl j.status) refl

effects_of_known :
    (granted : Bool) (statuses : List (Text × JobStatus)) (jobs : List Job)
    → All (IsKnown statuses) jobs
    → job_effects granted statuses jobs ≡ []
unfolding job_effects IsKnown
effects_of_known granted statuses [] h = refl
effects_of_known granted statuses (j ∷ jobs) (h, k) =
    rw (h, refresh_effect_of_same j, notify_effect_of_same granted j)
      (effects_of_known granted statuses jobs k)

-- An event with the jobs that `getJobs` answered has no effect, and the state stays.
jobs_event-jobs_loaded :
    (granted : Bool) (response : Option (List Job)) (s : Jobs)
    → HasDistinctIds (listed response)
    → jobs_event granted (some response) (jobs_loaded response s) ≡ ([], jobs_loaded response s)
unfolding jobs_event jobs_loaded
jobs_event-jobs_loaded granted response s d =
    rw
      (effects_of_known granted (statuses_of (listed response)) (listed response)
        (statuses_of-IsKnown (listed response) d))
      refl

-- An event that comes twice has effects once: the second time neither refreshes nor notifies.
jobs_event_twice :
    (granted : Bool) (response : Option (List Job)) (s : Jobs)
    → HasDistinctIds (listed response)
    → let t = (jobs_event granted (some response) s).1 in
      jobs_event granted (some response) t ≡ ([], t)
unfolding jobs_event
jobs_event_twice granted response s d =
    rw
      (effects_of_known granted (statuses_of (listed response)) (listed response)
        (statuses_of-IsKnown (listed response) d))
      refl

abbrev pub is_refresh : Effect → Bool
is_refresh Effect.refresh = true
is_refresh effect = false

abbrev pub known_completed : Option JobStatus → Bool
known_completed none = false
known_completed (some status) = is_completed status

-- The job is completed and was not known to be, and its type changes files.
abbrev pub is_news : List (Text × JobStatus) → Job → Bool
is_news statuses j =
    refreshes_files j && is_completed j.status && not (known_completed (get statuses j.id))

refresh_effect-is_refresh :
    (previous : Option JobStatus) (j : Job)
    → length (filter is_refresh (refresh_effect previous j)) ≡ (
        if refreshes_files j && is_completed j.status && not (known_completed previous)
        then 1
        else 0)
unfolding refresh_effect
refresh_effect-is_refresh none j = ground arith
refresh_effect-is_refresh (some previous) j = ground arith

notify_effect-is_refresh :
    (granted : Bool) (previous : Option JobStatus) (j : Job)
    → filter is_refresh (notify_effect granted previous j) ≡ []
unfolding notify_effect
notify_effect-is_refresh granted none j = refl
notify_effect-is_refresh granted (some previous) j = ground arith

length-filter-append :
    (a b c : List Effect)
    → filter is_refresh b ≡ []
    → length (filter is_refresh (a ++ b ++ c))
      ≡ length (filter is_refresh a) + length (filter is_refresh c)
length-filter-append a b c h =
    let q = filter is_refresh in
    let e : q (a ++ b ++ c) ≡ q a ++ q c =
      filter-append is_refresh (a ++ b) c
      ∙ ap (λ t. t ++ q c)
          (filter-append is_refresh a b ∙ ap (λ t. q a ++ t) h ∙ append-nil (q a)) in
    ap (λ t. length t) e ∙ length-append (q a) (q c)

count_cons :
    (b : Bool) (n m : ℕ) (j : Job) (js : List Job)
    → n ≡ (if b then 1 else 0)
    → m ≡ length js
    → n + m ≡ length (if b then j ∷ js else js)
count_cons false n m j js h k = omega (arith, h, k)
count_cons true n m j js h k = omega (arith, h, k)

job_effects-is_refresh :
    (granted : Bool) (statuses : List (Text × JobStatus)) (jobs : List Job)
    → length (filter is_refresh (job_effects granted statuses jobs))
      ≡ length (filter (is_news statuses) jobs)
unfolding job_effects
job_effects-is_refresh granted statuses [] = refl
job_effects-is_refresh granted statuses (j ∷ jobs) =
    length-filter-append (refresh_effect (get statuses j.id) j)
      (notify_effect granted (get statuses j.id) j) (job_effects granted statuses jobs)
      (notify_effect-is_refresh granted (get statuses j.id) j)
    ∙ count_cons (is_news statuses j)
        (length (filter is_refresh (refresh_effect (get statuses j.id) j)))
        (length (filter is_refresh (job_effects granted statuses jobs))) j
        (filter (is_news statuses) jobs) (refresh_effect-is_refresh (get statuses j.id) j)
        (job_effects-is_refresh granted statuses jobs)

-- An event refreshes the files once for each job that it newly shows as completed and whose
-- type changes files, and for no other.
jobs_event-is_refresh :
    (granted : Bool) (response : Option (List Job)) (s : Jobs)
    → length (filter is_refresh (jobs_event granted (some response) s).0)
      ≡ length (filter (is_news s.job_statuses) (listed response))
unfolding jobs_event
jobs_event-is_refresh granted response s =
    job_effects-is_refresh granted s.job_statuses (listed response)

any_of_filter :
    (p : Job → Bool) (jobs : List Job) (k : ℕ) (j : Job)
    → get_elem? jobs k ≡ some j
    → p j ≡ true
    → 1 ≤ length (filter p jobs)
any_of_filter p [] k j h t = absurd (cc)
any_of_filter p (x ∷ jobs) zero j h t =
    let here : p x ≡ true = ap (λ o. p (or_else o x)) h ∙ t in ground (arith, here)
any_of_filter p (x ∷ jobs) (suc k) j h t = ground (arith, any_of_filter p jobs k j h t)

-- An event refreshes the files if one of its jobs is completed, changes files, and was not known as
-- completed.
jobs_event-refreshes :
    (granted : Bool) (now : List Job) (k : ℕ) (j : Job) (s : Jobs)
    → get_elem? now k ≡ some j
    → is_completed j.status ≡ true
    → refreshes_files j ≡ true
    → known_completed (get s.job_statuses j.id) ≡ false
    → 1 ≤ length (filter is_refresh (jobs_event granted (some (some now)) s).0)
jobs_event-refreshes granted now k j s h done refreshes unknown =
    rw (jobs_event-is_refresh granted (some now) s)
      (any_of_filter (is_news s.job_statuses) now k j h (rw (done, refreshes, unknown) refl))

-- An event shows a job as completed whose completion refreshes the files and was not known: the files
-- are refreshed. If the same event comes again, it has no effect. But if an older answer of `getJobs`,
-- in which the job is not completed, comes in between, the event refreshes the files once more.
pub jobs_event-jobs_loaded_late :
    (granted : Bool) (now older : List Job) (k : ℕ) (j : Job) (s : Jobs)
    → HasDistinctIds now
    → get_elem? now k ≡ some j
    → is_completed j.status ≡ true
    → refreshes_files j ≡ true
    → known_completed (get s.job_statuses j.id) ≡ false
    → known_completed (get (statuses_of older) j.id) ≡ false
    → let e = some (some now) in
      let first = jobs_event granted e s in
      (1 ≤ length (filter is_refresh first.0))
      × (jobs_event granted e first.1 ≡ ([], first.1))
      × (1 ≤ length (filter is_refresh (jobs_event granted e (jobs_loaded (some older) first.1)).0))
unfolding jobs_loaded
jobs_event-jobs_loaded_late granted now older k j s distinct h done refreshes unknown before =
    let late = jobs_loaded (some older) (jobs_event granted (some (some now)) s).1 in
    (
      jobs_event-refreshes granted now k j s h done refreshes unknown,
      jobs_event_twice granted (some now) s distinct,
      jobs_event-refreshes granted now k j late h done refreshes before,
    )
