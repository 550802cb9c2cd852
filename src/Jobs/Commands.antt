-- ===== src/Jobs/Commands.antt =====
-- The commands on jobs of frontend/src/hooks/useJobs.ts, with the requests of
-- frontend/src/api/client-jobs.ts, and the listener of health events.
use volum.Base.{
  if◌then◌else◌, or_else, Text, codes, text_eq, Bool, Option, none, some, List, [], ◌∷◌, ◌++◌,
}
use volum.Jobs.{Job, JobType, make_job_label}
use volum.Jobs.Events.{Variant, Effect, Jobs, listed}

-- What a request comes back with; the message is missing where the error is not an `Error`.
pub data Answer {ℓ} (A : Type ℓ) : Type ℓ where
  answered : A → Answer A
  failed : Option Text → Answer A

pub data Command : Type 0 where
  cancel_job retry_job pause_job resume_job : Text → Option JobType → Command
  retry_item : Text → Text → Command
  clear_completed clear_failed : Command

-- The method and the path of the request.
abbrev pub endpoint : Command → Text × Text
endpoint (Command.cancel_job id type) = (codes "POST", codes "/api/jobs/" ++ id ++ codes "/cancel")
endpoint (Command.retry_job id type) = (codes "POST", codes "/api/jobs/" ++ id ++ codes "/retry")
endpoint (Command.pause_job id type) = (codes "POST", codes "/api/jobs/" ++ id ++ codes "/pause")
endpoint (Command.resume_job id type) = (codes "POST", codes "/api/jobs/" ++ id ++ codes "/resume")
endpoint (Command.retry_item id item) =
    (codes "POST", codes "/api/jobs/" ++ id ++ codes "/items/" ++ item ++ codes "/retry")
endpoint Command.clear_completed = (codes "DELETE", codes "/api/jobs/clear-completed")
endpoint Command.clear_failed = (codes "DELETE", codes "/api/jobs/clear-failed")

-- `jobType ? makeJobLabel(jobType, action) : otherwise`
pub label_of : Option JobType → Text → Text → Text
unfolding make_job_label
label_of none action otherwise = otherwise
label_of (some type) action otherwise = make_job_label type action

unfoldable pub success_title : Command → Text
unfolding label_of
success_title (Command.cancel_job id type) =
    label_of type (codes "cancelled") (codes "Job cancelled")
success_title (Command.retry_job id type) =
    label_of type (codes "queued for retry") (codes "Job retried")
success_title (Command.pause_job id type) = label_of type (codes "paused") (codes "Job paused")
success_title (Command.resume_job id type) = label_of type (codes "resumed") (codes "Job resumed")
success_title (Command.retry_item id item) = codes "Item queued for retry"
success_title Command.clear_completed = codes "Completed jobs cleared"
success_title Command.clear_failed = codes "Failed jobs cleared"

-- `catch` of `runWithToast`
abbrev pub action_failed : Option Text → List Effect
action_failed message =
    Effect.toast (codes "Action failed") Variant.error
      (some (or_else message (codes "Action failed")))
    ∷ []

-- `runWithToast` with the answers of the command's request and of `getJobs`, which is sent only
-- after the first was answered.
unfoldable pub run_with_toast :
    Answer (Unit {0}) → Answer (Option (List Job)) → Text → Jobs → List Effect × Jobs
run_with_toast (Answer.failed message) listing title s = (action_failed message, s)
run_with_toast (Answer.answered done) (Answer.failed message) title s = (action_failed message, s)
run_with_toast (Answer.answered done) (Answer.answered response) title s = (
  Effect.toast title Variant.success none ∷ Effect.refresh ∷ [],
  record s { jobs = listed response },
)

-- `handleCancelJob` and the handlers after it, against what answers the requests.
unfoldable pub handle :
    (Text × Text → Answer (Unit {0}))
    → Answer (Option (List Job))
    → Command
    → Jobs
    → List Effect × Jobs
unfolding run_with_toast success_title
handle server listing command s =
    run_with_toast (server (endpoint command)) listing (success_title command) s

abbrev pub resolve_failed : Option Text → List Effect
resolve_failed message =
    Effect.toast (codes "Failed to resolve conflicts") Variant.error
      (some (or_else message (codes "Failed to resolve conflicts")))
    ∷ []

-- `handleResolveConflicts`: the first request answers whether the job was resumed.
unfoldable pub handle_resolve_conflicts :
    Answer Bool → Answer (Option (List Job)) → Jobs → List Effect × Jobs
handle_resolve_conflicts (Answer.failed message) listing s = (resolve_failed message, s)
handle_resolve_conflicts (Answer.answered resumed) (Answer.failed message) s =
    (resolve_failed message, s)
handle_resolve_conflicts (Answer.answered resumed) (Answer.answered response) s = (
  Effect.toast
        (if resumed then codes "Conflicts resolved, job resumed" else codes "Conflicts resolved")
        Variant.success none
      ∷ [],
  record s { jobs = listed response },
)

pub data Health : Type 0 where
  healthy unhealthy : Health

pub record ServiceHealth : Type 0 where
  pub service_id : Text
  pub status : Health
  pub error : Option Text

-- The identifiers and names of the services.
abbrev pub service_name : List (Text × Text) → Text → Text
service_name [] id = id
service_name (s ∷ services) id = if text_eq s.0 id then s.1 else service_name services id

unfoldable pub health_effects : Bool → Text → Option Health → ServiceHealth → Health → List Effect
health_effects granted name (some Health.healthy) current Health.unhealthy =
    Effect.toast (name ++ codes " health check failed") Variant.error none
    ∷ (if granted
        then Effect.notification (name ++ codes " health check failed")
            (or_else current.error (codes "Service is unreachable"))
          ∷ []
        else [])
health_effects granted name (some Health.unhealthy) current Health.healthy =
    Effect.toast (name ++ codes " recovered") Variant.success none ∷ []
health_effects granted name previous current status = []

abbrev pub status_of : Option ServiceHealth → Option Health
status_of none = none
status_of (some h) = some h.status

-- The listener of `health` on data that could be parsed.
unfoldable pub health_event :
    Bool → List (Text × Text) → Option ServiceHealth → Option ServiceHealth → Text → List Effect
unfolding health_effects
health_event granted services previous none id = []
health_event granted services previous (some current) id =
    health_effects granted (service_name services id) (status_of previous) current current.status
