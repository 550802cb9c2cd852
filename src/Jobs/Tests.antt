-- ===== src/Jobs/Tests.antt =====
-- Runs of the handlers of events and commands, and their theorems at concrete jobs.
use volum.Base.{
  length, filter, Text, codes, text_eq, includes, ◌≤◌, ◌≡◌, refl, true, none, some, List, [], ◌∷◌,
}
use volum.Jobs.Events.{get, Jobs, jobs_loaded, jobs_event}
use volum.Jobs.{JobType, JobStatus, Job}
use volum.Jobs.Replay.{is_refresh, jobs_event-jobs_loaded_late}

abbrev job : Text → JobStatus → Job
job id status = record {
  id = id;
  type = JobType.copy;
  status = status;
  source_path = none;
  destination_path = none;
  total_bytes = 9;
  processed_bytes = 9;
  total_items = 1;
  processed_items = 1;
  error_message = none;
  conflict_policy = codes "ask";
  verify_mode = [];
  created_at = [];
  updated_at = [];
}

abbrev starting : Jobs
starting = record { job_statuses = []; jobs = []; loading = true; error = none }

abbrev now : List Job
now = job (codes "2") JobStatus.running ∷ job (codes "1") JobStatus.completed ∷ []

jobs_event-jobs_loaded_late_example :
    let e = some (some now) in
    let first = jobs_event true e starting in
    let older = job (codes "1") JobStatus.running ∷ [] in
    (1 ≤ length (filter is_refresh first.0))
    × (jobs_event true e first.1 ≡ ([], first.1))
    × (1 ≤ length (filter is_refresh (jobs_event true e (jobs_loaded (some older) first.1)).0))
unfolding get text_eq includes
jobs_event-jobs_loaded_late_example =
    jobs_event-jobs_loaded_late true now (job (codes "1") JobStatus.running ∷ []) 1
      (job (codes "1") JobStatus.completed) starting (refl, (refl, tt)) refl refl refl refl refl
