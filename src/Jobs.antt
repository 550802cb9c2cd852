-- ===== src/Jobs.antt =====
-- Jobs, with the predicates and labels of frontend/src/utils/jobs.ts.
pub mod Events
pub mod Commands
pub mod Replay
pub mod Outcome
mod Tests
use volum.Base.{
  leb, ◌==◌, if◌then◌else◌, length, filter, Text, codes, text_eq, trim, ℕ, ◌+◌, ◌-◌, Bool, true,
  false, ◌&&◌, ◌||◌, Option, List, [], ◌∷◌, ◌++◌,
}

pub data JobType : Type 0 where
  copy move upload extract archive checksum trash restore disk_analyze duplicate_find : JobType

pub data JobStatus : Type 0 where
  queued running paused completed failed cancelled needs_attention : JobStatus

pub record Job : Type 0 where
  pub id : Text
  pub type : JobType
  pub status : JobStatus
  pub source_path : Option Text
  pub destination_path : Option Text
  pub total_bytes : ℕ
  pub processed_bytes : ℕ
  pub total_items : ℕ
  pub processed_items : ℕ
  pub error_message : Option Text
  pub conflict_policy : Text
  pub verify_mode : Text
  pub created_at : Text
  pub updated_at : Text

abbrev pub type_name : JobType → Text
type_name JobType.copy = codes "copy"
type_name JobType.move = codes "move"
type_name JobType.upload = codes "upload"
type_name JobType.extract = codes "extract"
type_name JobType.archive = codes "archive"
type_name JobType.checksum = codes "checksum"
type_name JobType.trash = codes "trash"
type_name JobType.restore = codes "restore"
type_name JobType.disk_analyze = codes "disk_analyze"
type_name JobType.duplicate_find = codes "duplicate_find"

abbrev pub is_completed : JobStatus → Bool
is_completed JobStatus.completed = true
is_completed status = false

abbrev pub is_failed : JobStatus → Bool
is_failed JobStatus.failed = true
is_failed status = false

abbrev pub status_index : JobStatus → ℕ
status_index JobStatus.queued = 0
status_index JobStatus.running = 1
status_index JobStatus.paused = 2
status_index JobStatus.completed = 3
status_index JobStatus.failed = 4
status_index JobStatus.cancelled = 5
status_index JobStatus.needs_attention = 6

-- `a === b`
unfoldable pub same_status : JobStatus → JobStatus → Bool
same_status a b = status_index a == status_index b

-- `type.charAt(0).toUpperCase() + type.slice(1)` for the names of types, which are ASCII.
abbrev pub capitalize : Text → Text
capitalize [] = []
capitalize (c ∷ s) = (if leb b'a' c && leb c b'z' then c - 32 else c) ∷ s

abbrev pub label_name : JobType → Text
label_name JobType.duplicate_find = codes "Duplicate Finder"
label_name JobType.disk_analyze = codes "Disk Analyzer"
label_name type = capitalize (type_name type)

-- `makeJobLabel`
unfoldable pub make_job_label : JobType → Text → Text
make_job_label type action = trim (label_name type ++ codes " " ++ action)

-- `isActiveTransferJob`
abbrev pub is_active_transfer_job : Job → Bool
is_active_transfer_job job =
    same_status job.status JobStatus.running
    || same_status job.status JobStatus.queued
    || same_status job.status JobStatus.paused

-- `countActiveTransfers`
pub count_active_transfers : List Job → ℕ
count_active_transfers jobs = length (filter is_active_transfer_job jobs)

-- `isAnalysisJob`
unfoldable pub is_analysis_job : Job → Bool
is_analysis_job job =
    text_eq (type_name job.type) (codes "disk_analyze")
    || text_eq (type_name job.type) (codes "duplicate_find")

abbrev pub type_refreshes_files : JobType → Bool
type_refreshes_files JobType.copy = true
type_refreshes_files JobType.move = true
type_refreshes_files JobType.upload = true
type_refreshes_files JobType.archive = true
type_refreshes_files JobType.extract = true
type_refreshes_files JobType.trash = true
type_refreshes_files JobType.restore = true
type_refreshes_files type = false

-- `refreshesFiles`
abbrev pub refreshes_files : Job → Bool
refreshes_files job = type_refreshes_files job.type
