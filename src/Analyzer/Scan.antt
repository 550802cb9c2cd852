-- ===== src/Analyzer/Scan.antt =====
-- The scan of a folder: its start, its results, and the folders that are open.
pub mod Nodes
pub mod Starts
pub mod Contents
use volum.Base.{
  if◌then◌else◌, or_else, is_some, filter, all, Text, codes, text_eq, includes, is_empty, ℕ, Bool,
  true, false, ◌&&◌, ◌||◌, not, Option, none, some, List, [], ◌∷◌, ◌++◌,
}
use volum.Jobs.{Job, JobType, JobStatus, same_status}
use volum.Jobs.Commands.{Answer}

-- `DiskUsageResult`
pub record DiskUsageResult : Type 0 where
  pub job_id : Text
  pub path : Text
  pub parent_path : Text
  pub name : Text
  pub is_dir : Bool
  pub size_bytes : ℕ
  pub file_count : ℕ
  pub dir_count : ℕ

-- `DiskUsageSummary`
pub record DiskUsageSummary : Type 0 where
  pub job_id : Text
  pub total_bytes : ℕ
  pub file_count : ℕ
  pub directory_count : ℕ
  pub skipped_count : ℕ

abbrev pub TreeData : Type 0
TreeData = List (Text × List DiskUsageResult)

pub record DiskScan : Type 0 where
  pub scan_path : Option Text
  pub current_job_id : Option Text
  pub tree_data : TreeData
  pub expanded_paths : List Text
  pub summary : Option DiskUsageSummary
  pub loading : Bool
  pub awaiting_scan_feed : Bool
  pub error : Option Text
  pub starting_scan : Bool

abbrev pub initial : Option Text → DiskScan
initial preselected_path = record {
  scan_path = preselected_path;
  current_job_id = none;
  tree_data = [];
  expanded_paths = [];
  summary = none;
  loading = false;
  awaiting_scan_feed = false;
  error = none;
  starting_scan = false;
}

-- `startScan` up to its request: whether `createJob` is called, and the new state.
unfoldable pub start_scan : Bool → Text → DiskScan → Bool × DiskScan
start_scan can_manage path s = if not can_manage || s.starting_scan then (false, s) else (
  true,
  record {
    scan_path = some path;
    current_job_id = none;
    tree_data = [];
    expanded_paths = [];
    summary = none;
    loading = true;
    awaiting_scan_feed = false;
    error = none;
    starting_scan = true;
  },
)

-- Its end: `createJob` answers with the job's identifier, or fails.
unfoldable pub scan_started : Answer Text → DiskScan → DiskScan
scan_started (Answer.answered id) s = record s {
  current_job_id = some id;
  awaiting_scan_feed = true;
  starting_scan = false;
  loading = false;
}
scan_started (Answer.failed message) s = record s {
  error = some (or_else message (codes "Failed to start scan"));
  starting_scan = false;
  loading = false;
}

-- `openAnalysis` for a scan of a folder.
unfoldable pub open_analysis : Job → DiskScan → DiskScan
open_analysis job s = record s {
  scan_path = if is_empty (or_else job.source_path []) then none else job.source_path;
  current_job_id = some job.id;
  tree_data = [];
  expanded_paths = [];
  summary = none;
  awaiting_scan_feed = false;
  error = none;
}

-- `resetDiskScan`
unfoldable pub reset_disk_scan : DiskScan → DiskScan
reset_disk_scan s = record s {
  scan_path = none;
  current_job_id = none;
  tree_data = [];
  expanded_paths = [];
  summary = none;
  awaiting_scan_feed = false;
  error = none;
}

-- `currentJob`
abbrev pub find_job : List Job → Option Text → Option Job
find_job jobs none = none
find_job [] (some id) = none
find_job (j ∷ jobs) (some id) = if text_eq j.id id then some j else find_job jobs (some id)

-- The effect that ends the wait for the job's first event.
unfoldable pub scan_feed : List Job → DiskScan → DiskScan
scan_feed jobs s =
    if s.awaiting_scan_feed && is_some (find_job jobs s.current_job_id)
    then record s { awaiting_scan_feed = false }
    else s

-- `isScanActive` and `isScanDone`
abbrev pub is_scan_active : Option Job → Bool
is_scan_active none = false
is_scan_active (some j) =
    same_status j.status JobStatus.queued
    || same_status j.status JobStatus.running
    || same_status j.status JobStatus.paused

abbrev pub is_scan_done : Option Job → Bool
is_scan_done none = false
is_scan_done (some j) =
    same_status j.status JobStatus.completed
    || same_status j.status JobStatus.failed
    || same_status j.status JobStatus.cancelled

-- `treeData.get(path)`
unfoldable pub children_of : TreeData → Text → Option (List DiskUsageResult)
children_of [] path = none
children_of (p ∷ ps) path = if text_eq p.0 path then some p.1 else children_of ps path

-- The end of `loadChildren`, with what all its pages hold.
unfoldable pub children_loaded : Text → Answer (List DiskUsageResult) → DiskScan → DiskScan
children_loaded parent_path (Answer.answered results) s = record s {
  tree_data = (parent_path, results) ∷ s.tree_data;
}
children_loaded parent_path (Answer.failed message) s = record s {
  error = some (or_else message (codes "Failed to load scan contents"));
}

-- The end of `loadSummary`.
unfoldable pub summary_loaded : Answer DiskUsageSummary → DiskScan → DiskScan
summary_loaded (Answer.answered summary) s = record s { summary = some summary }
summary_loaded (Answer.failed message) s = record s {
  error = some (or_else message (codes "Failed to load scan summary"));
}

-- `handleToggle`: whether the folder's contents are loaded, and the new state.
unfoldable pub handle_toggle : Text → DiskScan → Bool × DiskScan
unfolding children_of
handle_toggle path s = (
  not (is_some (children_of s.tree_data path)),
  record s {
    expanded_paths =
        if includes s.expanded_paths path
        then filter (λ p. not (text_eq p path)) s.expanded_paths
        else s.expanded_paths ++ path ∷ [];
  },
)

-- `retry`: whether the results are loaded again, or the path whose scan is started.
unfoldable pub retry : DiskScan → Bool × Option Text × DiskScan
retry s = (
  is_some s.current_job_id && is_some s.scan_path,
  (if is_some s.current_job_id then none else s.scan_path),
  record s { error = none },
)

-- The end of `cancelCurrentScan` for this section.
unfoldable pub cancel_answered : Answer (Unit {0}) → DiskScan → DiskScan
cancel_answered (Answer.answered done) s = s
cancel_answered (Answer.failed message) s = record s {
  error = some (or_else message (codes "Failed to cancel scan"));
}
