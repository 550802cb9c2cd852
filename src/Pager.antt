-- ===== src/Pager.antt =====
-- The list of jobs: frontend/src/pages/JobsPage.tsx, its pages, its filters and the actions that
-- it offers.
pub mod Parts
use volum.Base.{
  ltb, if◌then◌else◌, length, take, drop, any, ℕ, ◌+◌, ◌-◌, ◌*◌, ◌/◌, min, max, Bool, ◌&&◌, ◌||◌,
  List, [], ◌∷◌, ◌++◌,
}
use volum.Jobs.{same_status, Job, JobStatus}
mod Tests

abbrev pub page_size : ℕ
page_size = 25

-- `Math.max(1, Math.ceil(jobs.length / pageSize))`
unfoldable pub total_pages : List Job → ℕ
total_pages jobs = max 1 ((length jobs + page_size - 1) / page_size)

-- The effect on the current page.
unfoldable pub clamp_page : List Job → ℕ → ℕ
unfolding total_pages
clamp_page jobs current_page =
    if ltb (total_pages jobs) current_page then total_pages jobs else current_page

-- `pageJobs`
unfoldable pub page_jobs : List Job → ℕ → List Job
page_jobs jobs current_page = take page_size (drop ((current_page - 1) * page_size) jobs)

pub has_completed : List Job → Bool
has_completed jobs =
    any (λ j. same_status j.status JobStatus.completed || same_status j.status JobStatus.cancelled)
      jobs

pub has_failed : List Job → Bool
has_failed jobs = any (λ j. same_status j.status JobStatus.failed) jobs

pub data Variant : Type 0 where
  success warning danger disabled active : Variant

-- `jobVariant`
pub job_variant : JobStatus → Variant
job_variant JobStatus.completed = Variant.success
job_variant JobStatus.running = Variant.warning
job_variant JobStatus.failed = Variant.danger
job_variant JobStatus.needs_attention = Variant.active
job_variant status = Variant.disabled

-- `Math.round((done / total) * 100)`, the quotient taken exactly.
abbrev pub percent : ℕ → ℕ → ℕ
percent done total = (done * 200 + total) / (total * 2)

-- `progress`
unfoldable pub progress : Job → ℕ
progress j =
    if same_status j.status JobStatus.completed
    then 100
    else if ltb 0 j.total_bytes
    then percent j.processed_bytes j.total_bytes
    else if ltb 0 j.total_items
    then percent j.processed_items j.total_items
    else 0

abbrev pub can_cancel : JobStatus → Bool
can_cancel status =
    same_status status JobStatus.queued
    || same_status status JobStatus.running
    || same_status status JobStatus.paused
    || same_status status JobStatus.needs_attention

abbrev pub can_pause : JobStatus → Bool
can_pause status = same_status status JobStatus.running

abbrev pub can_resume : JobStatus → Bool
can_resume status = same_status status JobStatus.paused

abbrev pub can_retry : JobStatus → Bool
can_retry status = same_status status JobStatus.failed || same_status status JobStatus.cancelled

abbrev pub needs_resolve : JobStatus → Bool
needs_resolve status = same_status status JobStatus.needs_attention

-- The actions whose buttons are shown.
pub data Action : Type 0 where
  open_analysis resolve pause resume cancel retry : Action

abbrev shown_if : Bool → Action → List Action
shown_if b a = if b then a ∷ [] else []

unfoldable pub job_actions : Bool → Bool → Bool → JobStatus → List Action
job_actions is_analysis can_open can_manage status =
    shown_if (is_analysis && can_open) Action.open_analysis
    ++ shown_if (can_manage && needs_resolve status) Action.resolve
    ++ shown_if (can_manage && can_pause status) Action.pause
    ++ shown_if (can_manage && can_resume status) Action.resume
    ++ shown_if (can_manage && can_cancel status) Action.cancel
    ++ shown_if (can_manage && can_retry status) Action.retry

-- Whether a job can get the focus: `tabIndex`.
pub is_focusable : Bool → Bool → JobStatus → Bool
is_focusable is_analysis can_manage status =
    is_analysis
    || can_manage
      && (can_pause status
          || can_resume status
          || can_cancel status
          || can_retry status
          || needs_resolve status)

-- `handleJobListKeyDown`: the index of the job that gets the focus.
pub next_job : Bool → ℕ → ℕ → ℕ
next_job down idx count = if down then min (idx + 1) (count - 1) else idx - 1
