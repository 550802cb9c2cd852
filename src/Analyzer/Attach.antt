-- ===== src/Analyzer/Attach.antt =====
-- Which analysis the page shows: the jobs that it opens by itself, and those that it offers.
pub mod Newest
use volum.Base.{
  leb, if◌then◌else◌, or_else, get_elem?, take, filter, find, Text, text_eq, is_empty, ℕ, ◌-◌, Bool,
  true, ◌&&◌, ◌||◌, not, Option, none, some, List, [], sort,
}
use volum.Analyzer.Scan.{DiskScan, open_analysis}
use volum.Analyzer.Search.{DupScan, open_duplicates, is_given}
use volum.Jobs.{Job, JobType, JobStatus, same_status, is_analysis_job, type_name}

pub data Section : Type 0 where
  disk_usage duplicates : Section

-- The state of the page.
pub record Analyzer : Type 0 where
  pub section : Section
  pub disk : DiskScan
  pub search : DupScan
  pub initial_job_attached : Option Text
  pub active_job_attached : Bool

abbrev pub opened : JobType → Job → Analyzer → Analyzer
opened JobType.disk_analyze job a = record a {
  section = Section.disk_usage;
  disk = open_analysis job a.disk;
}
opened JobType.duplicate_find job a = record a {
  section = Section.duplicates;
  search = open_duplicates job a.search;
}
opened type job a = a

-- `openAnalysis`
unfoldable pub open_job : Job → Analyzer → Analyzer
open_job job a = opened job.type job a

abbrev attach_found : Option Job → Text → Analyzer → Analyzer
attach_found none id a = a
attach_found (some job) id a = open_job job (record a { initial_job_attached = some id })

-- The effect on `initialJobId`.
unfoldable pub attach_initial : Option Text → List Job → Analyzer → Analyzer
attach_initial none jobs a = a
attach_initial (some id) jobs a =
    if is_empty id || text_eq (or_else a.initial_job_attached []) id
    then a
    else attach_found (find (λ (j : Job). text_eq j.id id) jobs) id a

-- The test of the jobs that are opened.
unfoldable pub is_active_analysis : Job → Bool
is_active_analysis job =
    is_analysis_job job
    && (same_status job.status JobStatus.queued
        || same_status job.status JobStatus.running
        || same_status job.status JobStatus.paused)

abbrev pub type_of_section : Section → JobType
type_of_section Section.disk_usage = JobType.disk_analyze
type_of_section Section.duplicates = JobType.duplicate_find

-- The time of a date, `new Date(date).getTime()`, is a parameter.
module _ (time : Text → ℕ) where
  -- `(a, b) => time(b) - time(a)`
  abbrev pub later : Job → Job → Bool
  later a b = leb (time b.updated_at) (time a.updated_at)

  -- `active`
  unfoldable pub newest_active : List Job → Option Job
  newest_active jobs = get_elem? (sort later (filter is_active_analysis jobs)) 0

  abbrev pub attach_newest : Option Job → Analyzer → Analyzer
  attach_newest none a = a
  attach_newest (some job) a = open_job job a

  -- The effect that opens an active job, once.
  unfoldable pub attach_active : Option Text → Option Text → List Job → Analyzer → Analyzer
  attach_active initial_job_id preselected_path jobs a =
      if is_given initial_job_id
        || is_given preselected_path
        || is_given a.disk.current_job_id
        || is_given a.search.dup_job_id
        || a.active_job_attached
        || is_empty jobs
      then a
      else attach_newest (newest_active jobs) (record a { active_job_attached = true })

  -- `recent` of `RecentAnalyses`
  unfoldable pub recent_analyses : Section → List Job → List Job
  recent_analyses section jobs = take 5 (
      sort later (
        filter (λ (j : Job). text_eq (type_name j.type) (type_name (type_of_section section)))
          jobs))
