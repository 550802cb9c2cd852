-- ===== src/Analyzer/Search.antt =====
-- The search for duplicate files: its start, its results, and its reset.
use volum.Base.{
  if◌then◌else◌, or_else, is_some, Text, codes, is_empty, ℕ, Bool, true, false, ◌&&◌, ◌||◌, not,
  Option, none, some, List, [],
}
use volum.Analyzer.Duplicates.{Duplicates, DuplicateFile}
use volum.Analyzer.Pages.{load_pages}
use volum.Analyzer.Scan.{find_job}
use volum.Jobs.{Job, JobStatus, same_status}
use volum.Jobs.Commands.{Answer}

-- `DuplicateSummary`
pub record DuplicateSummary : Type 0 where
  pub job_id : Text
  pub group_count : ℕ
  pub file_count : ℕ
  pub reclaimable_bytes : ℕ
  pub skipped_count : ℕ

-- The state of the section: that of the files, and that of the search.
pub record DupScan : Type 0 where
  pub files : Duplicates
  pub dup_job_id : Option Text
  pub dup_path : Option Text
  pub dup_summary : Option DuplicateSummary
  pub dup_loading : Bool
  pub awaiting_dup_feed : Bool
  pub starting_dup_scan : Bool

abbrev pub initial : DupScan
initial = record {
  files = record {
    dup_results = [];
    dup_error = none;
    dup_selected = [];
    pending_dup_trash = [];
    dup_trashing = false;
    confirm_trash = false;
  };
  dup_job_id = none;
  dup_path = none;
  dup_summary = none;
  dup_loading = false;
  awaiting_dup_feed = false;
  starting_dup_scan = false;
}

-- `setDupResults([])` and the other calls that start and reset share.
abbrev pub without_files : Duplicates → Duplicates
without_files d = record d {
  dup_results = [];
  dup_error = none;
  dup_selected = [];
  pending_dup_trash = [];
}

-- `startDupScan` up to its request: whether `createJob` is called, and the new state.
unfoldable pub start_dup_scan : Bool → Text → DupScan → Bool × DupScan
start_dup_scan can_manage path s = if not can_manage || s.starting_dup_scan then (false, s) else (
  true,
  record {
    files = without_files s.files;
    dup_job_id = none;
    dup_path = some path;
    dup_summary = none;
    dup_loading = true;
    awaiting_dup_feed = false;
    starting_dup_scan = true;
  },
)

abbrev pub with_error : Option Text → DupScan → DupScan
with_error error s = record s { files = record s.files { dup_error = error } }

-- Its end: `createJob` answers with the job's identifier, or fails.
unfoldable pub dup_scan_started : Answer Text → DupScan → DupScan
dup_scan_started (Answer.answered id) s = record s {
  dup_job_id = some id;
  awaiting_dup_feed = true;
  starting_dup_scan = false;
  dup_loading = false;
}
dup_scan_started (Answer.failed message) s =
    record (with_error (some (or_else message (codes "Failed to start duplicate scan"))) s) {
      starting_dup_scan = false;
      dup_loading = false;
    }

-- `openAnalysis` for a search for duplicates: the files that wait to be trashed are kept.
unfoldable pub open_duplicates : Job → DupScan → DupScan
open_duplicates job s = record s {
  files = record s.files { dup_results = []; dup_error = none; dup_selected = [] };
  dup_path = if is_empty (or_else job.source_path []) then none else job.source_path;
  dup_job_id = some job.id;
  dup_summary = none;
  awaiting_dup_feed = false;
}

-- `resetDuplicateScan`
unfoldable pub reset_duplicate_scan : DupScan → DupScan
reset_duplicate_scan s = record s {
  files = without_files s.files;
  dup_job_id = none;
  dup_path = none;
  dup_summary = none;
  awaiting_dup_feed = false;
}

-- The effect that ends the wait for the job's first event.
unfoldable pub dup_feed : List Job → DupScan → DupScan
dup_feed jobs s =
    if s.awaiting_dup_feed && is_some (find_job jobs s.dup_job_id)
    then record s { awaiting_dup_feed = false }
    else s

-- `Promise.all`: where both requests fail, the message is that of the one that fails first.
abbrev pub together : {A B : Type 0} → Bool → Answer A → Answer B → Answer (A × B)
together first_first (Answer.answered a) (Answer.answered b) = Answer.answered (a, b)
together first_first (Answer.answered a) (Answer.failed message) = Answer.failed message
together first_first (Answer.failed message) (Answer.answered b) = Answer.failed message
together first_first (Answer.failed m) (Answer.failed n) =
    Answer.failed (if first_first then m else n)

-- The end of `loadDupResults`, with what both requests have given.
unfoldable pub dup_results_loaded :
    Answer (List DuplicateFile × DuplicateSummary) → DupScan → DupScan
dup_results_loaded (Answer.answered (results, summary)) s = record s {
  files = record s.files { dup_results = results };
  dup_summary = some summary;
}
dup_results_loaded (Answer.failed message) s =
    with_error (some (or_else message (codes "Failed to load duplicate results"))) s

-- `getDuplicateResults` and `getDuplicateSummary`, and which one fails first if both fail.
pub record Server : Type 0 where
  pub results : Text → ℕ → ℕ → Answer (List DuplicateFile)
  pub summary : Text → Answer DuplicateSummary
  pub results_first : Bool

-- `loadDupResults` on fuel for its pages, with nothing in between; missing if the fuel ran out.
unfoldable pub load_dup_results : Server → ℕ → DupScan → Option DupScan
load_dup_results server fuel s = elim s.dup_job_id [
  | none ↦ some s
  | some id ↦ if is_empty id then some s else elim (load_pages (server.results id) fuel 0 []) [
    | none ↦ none
    | some results ↦
        some (dup_results_loaded (together server.results_first results (server.summary id)) s)
  ]
]

-- `dupJobStatus === 'completed' || dupJobStatus === 'failed'`
abbrev pub loads_results : Option Job → Bool
loads_results none = false
loads_results (some j) =
    same_status j.status JobStatus.completed || same_status j.status JobStatus.failed

-- `!!text`
abbrev pub is_given : Option Text → Bool
is_given text = not (is_empty (or_else text []))

-- `retryDup`: whether the results are loaded again, or the path whose search is started.
unfoldable pub retry_dup : DupScan → Bool × Option Text × DupScan
retry_dup s = (
  is_given s.dup_job_id,
  (if is_given s.dup_job_id || not (is_given s.dup_path) then none else s.dup_path),
  with_error none s,
)

-- The end of `cancelCurrentScan` for this section.
unfoldable pub dup_cancel_answered : Answer (Unit {0}) → DupScan → DupScan
dup_cancel_answered (Answer.answered done) s = s
dup_cancel_answered (Answer.failed message) s =
    with_error (some (or_else message (codes "Failed to cancel scan"))) s
