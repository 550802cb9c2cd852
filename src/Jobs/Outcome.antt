-- ===== src/Jobs/Outcome.antt =====
-- What the commands on jobs and the health events show.
use volum.Base.{
  if◌then◌else◌, length, filter, any, Text, ℕ, ◌≡◌, refl, Bool, true, false, ◌&&◌, Option, none,
  some, List, [],
}
use volum.Jobs.Commands.{
  service_name, success_title, Answer, Command, endpoint, Health, ServiceHealth, status_of, handle,
  run_with_toast, health_event, health_effects,
}
use volum.Jobs.{Job}
use volum.Jobs.Events.{Variant, Effect, Jobs, listed}

abbrev pub is_answered {ℓ} : {A : Type ℓ} → Answer A → Bool
is_answered (Answer.answered a) = true
is_answered (Answer.failed message) = false

abbrev pub is_toast : Effect → Bool
is_toast (Effect.toast title variant message) = true
is_toast effect = false

abbrev pub is_success : Effect → Bool
is_success (Effect.toast title Variant.success message) = true
is_success effect = false

abbrev pub is_refresh_effect : Effect → Bool
is_refresh_effect Effect.refresh = true
is_refresh_effect effect = false

-- What the user sees of a command: one message, of success exactly when both requests were
-- answered, in which case the files are refreshed and the list is the one that was answered;
-- otherwise the list stays and nothing is refreshed.
pub record IsReported (both : Bool) (response : List Job) (s : Jobs) (result : List Effect × Jobs)
    : Type 0 where
  pub one : length (filter is_toast result.0) ≡ 1
  pub success : any is_success result.0 ≡ both
  pub refreshed : any is_refresh_effect result.0 ≡ both
  pub shown : result.1 ≡ (if both then record s { jobs = response } else s)

abbrev pub answered_jobs : Answer (Option (List Job)) → List Job
answered_jobs (Answer.answered response) = listed response
answered_jobs (Answer.failed message) = []

run_with_toast-IsReported :
    (done : Answer (Unit {0})) (listing : Answer (Option (List Job))) (title : Text) (s : Jobs)
    → IsReported
        (is_answered done && is_answered listing)
        (answered_jobs listing)
        s
        (run_with_toast done listing title s)
unfolding run_with_toast
run_with_toast-IsReported (Answer.failed message) (Answer.failed other) title s = record {
  one = refl;
  success = refl;
  refreshed = refl;
  shown = refl;
}
run_with_toast-IsReported (Answer.failed message) (Answer.answered response) title s = record {
  one = refl;
  success = refl;
  refreshed = refl;
  shown = refl;
}
run_with_toast-IsReported (Answer.answered done) (Answer.failed message) title s = record {
  one = refl;
  success = refl;
  refreshed = refl;
  shown = refl;
}
run_with_toast-IsReported (Answer.answered done) (Answer.answered response) title s = record {
  one = refl;
  success = refl;
  refreshed = refl;
  shown = refl;
}

-- However the server answers, a command shows one message, which is one of success exactly when
-- the command's request and the listing were both answered; then the files are refreshed and the
-- answered list is shown, and otherwise the state stays.
handle-IsReported :
    (server : Text × Text → Answer (Unit {0})) (listing : Answer (Option (List Job)))
    (command : Command) (s : Jobs)
    → IsReported
        (is_answered (server (endpoint command)) && is_answered listing)
        (answered_jobs listing)
        s
        (handle server listing command s)
unfolding handle
handle-IsReported server listing command s =
    run_with_toast-IsReported (server (endpoint command)) listing (success_title command) s

abbrev pub changed : Option Health → Option Health → Bool
changed (some Health.healthy) (some Health.unhealthy) = true
changed (some Health.unhealthy) (some Health.healthy) = true
changed previous current = false

abbrev pub recovers : Option Health → Option Health → Bool
recovers (some Health.unhealthy) (some Health.healthy) = true
recovers previous current = false

health_effects-is_toast :
    (granted : Bool) (name : Text) (previous : Option Health) (current : ServiceHealth)
    (status : Health)
    → (length (filter is_toast (health_effects granted name previous current status))
        ≡ (if changed previous (some status) then 1 else 0))
      × (any is_success (health_effects granted name previous current status)
          ≡ recovers previous (some status))
unfolding health_effects
health_effects-is_toast granted name none current Health.healthy = (refl, refl)
health_effects-is_toast granted name none current Health.unhealthy = (refl, refl)
health_effects-is_toast granted name (some Health.healthy) current Health.healthy = (refl, refl)
health_effects-is_toast false name (some Health.healthy) current Health.unhealthy = (refl, refl)
health_effects-is_toast true name (some Health.healthy) current Health.unhealthy = (refl, refl)
health_effects-is_toast granted name (some Health.unhealthy) current Health.healthy = (refl, refl)
health_effects-is_toast granted name (some Health.unhealthy) current Health.unhealthy = (refl, refl)

none_unchanged :
    (h : Health)
    → (◌≡◌ {A = ℕ} 0 (if changed (some h) none then 1 else 0)) × (false ≡ recovers (some h) none)
none_unchanged Health.healthy = (refl, refl)
none_unchanged Health.unhealthy = (refl, refl)

-- A health event shows one message when the service's status changed and none otherwise, and a
-- message of success exactly when the service recovered.
health_event-is_toast :
    (granted : Bool) (services : List (Text × Text)) (previous current : Option ServiceHealth)
    (id : Text)
    → (length (filter is_toast (health_event granted services previous current id))
        ≡ (if changed (status_of previous) (status_of current) then 1 else 0))
      × (any is_success (health_event granted services previous current id)
          ≡ recovers (status_of previous) (status_of current))
unfolding health_event
health_event-is_toast granted services none none id = (refl, refl)
health_event-is_toast granted services (some previous) none id = none_unchanged previous.status
health_event-is_toast granted services previous (some current) id =
    health_effects-is_toast granted (service_name services id) (status_of previous) current
      current.status
