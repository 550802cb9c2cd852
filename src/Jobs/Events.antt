-- ===== src/Jobs/Events.antt =====
-- The state of frontend/src/hooks/useJobs.ts and its handlers of the server's events.
-- The calls of the hook's callbacks, and the browser's notifications, are a list of effects.
use volum.Base.{
  if◌then◌else◌, or_else, or_option, Text, codes, text_eq, Bool, true, false, ◌&&◌, not, Option,
  none, some, List, [], ◌∷◌, ◌++◌, map,
}
use volum.Jobs.{
  Job, JobStatus, is_completed, is_failed, same_status, make_job_label, refreshes_files,
}

pub data Variant : Type 0 where
  success error : Variant

pub data Effect : Type 0 where
  refresh : Effect
  toast : Text → Variant → Option Text → Effect
  notification : Text → Text → Effect

pub record Jobs : Type 0 where
  pub job_statuses : List (Text × JobStatus)
  pub jobs : List Job
  pub loading : Bool
  pub error : Option Text

-- `new Map(...)` keeps the last pair of a key, so `get` looks for that.
unfoldable pub get : List (Text × JobStatus) → Text → Option JobStatus
get [] id = none
get (p ∷ ps) id = or_option (get ps id) (if text_eq p.0 id then some p.1 else none)

-- `new Map(jobs.map((j) => [j.id, j.status]))`
abbrev pub statuses_of : List Job → List (Text × JobStatus)
statuses_of jobs = map (λ j. (j.id, j.status)) jobs

-- `response.jobs ?? []`
abbrev pub listed : Option (List Job) → List Job
listed response = or_else response []

-- The start of the effect, whether the session is loading and whether it lacks the sign-in that it
-- needs: whether the jobs are requested and the events listened to, and the new state.
pub start_jobs : Bool → Bool → Jobs → Bool × Jobs
start_jobs session_loading signed_out s =
    if session_loading
    then (false, record s { loading = true })
    else if signed_out
    then (false, record s { loading = false; error = none })
    else (true, record s { loading = true; error = none })

-- The answer of `getJobs` when the hook starts: `then` or `catch`, then `finally`.
unfoldable pub jobs_loaded : Option (List Job) → Jobs → Jobs
jobs_loaded response s = record {
  job_statuses = statuses_of (listed response);
  jobs = listed response;
  loading = false;
  error = none;
}

pub jobs_failed : Option Text → Jobs → Jobs
jobs_failed message s = record s {
  error = some (or_else message (codes "Failed to load jobs"));
  loading = false;
}

-- `job.status === 'completed' && previousStatus !== 'completed' && refreshesFiles(job)`
unfoldable pub refresh_effect : Option JobStatus → Job → List Effect
refresh_effect none job =
    if is_completed job.status && refreshes_files job then refresh ∷ [] else []
refresh_effect (some previous) job =
    if is_completed job.status && not (is_completed previous) && refreshes_files job
    then refresh ∷ []
    else []

-- The notification of a change of the status; the test is whether notifications are switched on,
-- known to the browser and granted.
unfoldable pub notify_effect : Bool → Option JobStatus → Job → List Effect
unfolding make_job_label same_status
notify_effect granted none job = []
notify_effect granted (some previous) job =
    if granted && not (same_status previous job.status)
    then (if is_completed job.status
        then notification (make_job_label job.type (codes "completed"))
            (or_else job.source_path job.id)
          ∷ []
        else if is_failed job.status
        then notification (make_job_label job.type (codes "failed"))
            (or_else job.error_message job.id)
          ∷ []
        else [])
    else []

-- The loop over the jobs of an event.
unfoldable pub job_effects : Bool → List (Text × JobStatus) → List Job → List Effect
unfolding get refresh_effect notify_effect
job_effects granted statuses [] = []
job_effects granted statuses (job ∷ jobs) =
    refresh_effect (get statuses job.id) job
    ++ notify_effect granted (get statuses job.id) job
    ++ job_effects granted statuses jobs

-- The listener of `jobs`; the data is missing where it could not be parsed.
unfoldable pub jobs_event : Bool → Option (Option (List Job)) → Jobs → List Effect × Jobs
unfolding job_effects
jobs_event granted none s = ([], s)
jobs_event granted (some response) s = (
  job_effects granted s.job_statuses (listed response),
  (record {
    job_statuses = statuses_of (listed response);
    jobs = listed response;
    loading = false;
    error = none;
  }),
)
