-- ===== src/Analyzer/Tests.antt =====
-- The theorems on the storage analyzer at concrete scans and files.
use Prim.Native.Nat.{suc, ℕ}
use volum.Base.{
  length, filter, Text, codes, text_eq, includes, is_empty, ℕ, suc, ◌/◌, ◌≤◌, ◌≡◌, refl, true,
  false, none, some, List, [], ◌∷◌, ◌++◌, arith, sort,
}
use volum.Analyzer.Scan.{
  DiskScan, handle_toggle, children_of, children_loaded, scan_started, initial, DiskUsageResult,
  TreeData, start_scan,
}
use volum.Analyzer.Scan.Contents.{Reach-children_of}
use volum.Analyzer.Pages.{load_pages-total, analysis_page_size, slices, load_pages}
use volum.Analyzer.Attach.Newest.{attach_active-Attached, Attached}
use volum.Analyzer.Attach.{Analyzer, Section, attach_active}
use volum.Jobs.Commands.{Answer}
use volum.Analyzer.Scan.Starts.{Reach-single_start, sent, Reach, Session}
use volum.Analyzer.Keep.{confirm_trash-keeps, pending_dup_trash-not_kept, left_of}
use volum.Analyzer.Groups.{files_of-duplicate_groups, in_group, files_of}
use volum.Analyzer.Duplicates.{
  trash_selected, settle_pending, DuplicateFile, duplicate_groups, Duplicates,
  request_trash_selected,
}
use volum.Analyzer.Scan.Nodes.{is_whole-build_node, build_node, is_whole}
use volum.Jobs.{JobStatus, JobType, Job}
use volum.Analyzer.Scan.Contents
use volum.Analyzer.Search

load_pages-total_example :
    load_pages {A = ℕ} (slices (1 ∷ 2 ∷ 3 ∷ [])) (suc (3 / analysis_page_size)) 0 []
    ≡ some (Answer.answered (1 ∷ 2 ∷ 3 ∷ []))
load_pages-total_example = load_pages-total (1 ∷ 2 ∷ 3 ∷ [])

abbrev file : ℕ → Text → DuplicateFile
file group_id path = record {
  job_id = codes "7";
  group_id = group_id;
  path = path;
  size_bytes = 4096;
  checksum = codes "ab";
  modified_at = none;
}

abbrev three_files : List DuplicateFile
three_files = file 1 (codes "/a") ∷ file 2 (codes "/c") ∷ file 1 (codes "/b") ∷ []

files_of-duplicate_groups_example :
    files_of 1 (duplicate_groups three_files) ≡ filter (in_group 1) three_files
files_of-duplicate_groups_example = files_of-duplicate_groups 1 three_files

abbrev one_selected : Duplicates
one_selected = record {
  dup_results = three_files;
  dup_error = none;
  dup_selected = codes "/b" ∷ [];
  pending_dup_trash = [];
  dup_trashing = false;
  confirm_trash = false;
}

confirm_trash-keeps_example :
    is_empty (filter (in_group 1) (left_of (codes "/b" ∷ []) three_files)) ≡ false
unfolding request_trash_selected duplicate_groups sort includes text_eq
confirm_trash-keeps_example = confirm_trash-keeps one_selected 1 refl refl refl

abbrev trash_job : Text → Job
trash_job id = record {
  id = id;
  type = JobType.trash;
  status = JobStatus.completed;
  source_path = none;
  destination_path = none;
  total_bytes = 9;
  processed_bytes = 9;
  total_items = 1;
  processed_items = 1;
  error_message = none;
  conflict_policy = codes "ask";
  verify_mode = [];
  created_at = [];
  updated_at = [];
}

abbrev one_waits : Duplicates
one_waits = record one_selected { pending_dup_trash = (codes "/a", codes "1") ∷ [] }

abbrev trash_jobs : List Job
trash_jobs = trash_job (codes "1") ∷ trash_job (codes "2") ∷ []

pending_dup_trash-not_kept_example :
    let t = trash_selected true (λ p. some (codes "2")) (request_trash_selected one_waits) in
    ((request_trash_selected one_waits).confirm_trash ≡ true)
    × (filter (in_group 1) (settle_pending trash_jobs t).dup_results ≡ [])
unfolding request_trash_selected duplicate_groups trash_selected sort includes text_eq
pending_dup_trash-not_kept_example =
    pending_dup_trash-not_kept one_waits 1 (λ p. some (codes "2")) trash_jobs refl
      (refl, (refl, tt)) refl (refl, (refl, tt))

abbrev folder : Text → DiskUsageResult
folder path = record {
  job_id = codes "7";
  path = path;
  parent_path = codes "/";
  name = codes "a";
  is_dir = true;
  size_bytes = 10;
  file_count = 1;
  dir_count = 1;
}

abbrev two_levels : TreeData
two_levels = (codes "/", folder (codes "/a") ∷ []) ∷ (codes "/a", folder (codes "/a/b") ∷ []) ∷ []

is_whole-build_node_example :
    is_whole (build_node 5 two_levels (codes "/a" ∷ []) 10 (folder (codes "/"))) ≡ true
is_whole-build_node_example =
    is_whole-build_node 4 two_levels (codes "/a" ∷ []) 10 (folder (codes "/"))
      (((omega arith, omega arith), tt), (((omega arith, omega arith), tt), tt)) (omega arith)

abbrev started_twice : Session
started_twice =
    let once = (start_scan true (codes "/a") (initial none)).1 in
    record { scan = (start_scan true (codes "/b") once).1; waiting = 1 }

started_twice-Reach : Reach started_twice
unfolding start_scan
started_twice-Reach =
    Reach.started true (codes "/b") (Reach.started true (codes "/a") (Reach.opened none))

Reach-single_start_example :
    (started_twice.waiting ≤ 1) × (started_twice.waiting ≡ sent started_twice.scan.loading)
Reach-single_start_example = Reach-single_start started_twice-Reach

abbrev empty_page : Analyzer
empty_page = record {
  section = Section.disk_usage;
  disk = initial none;
  search = Search.initial;
  initial_job_attached = none;
  active_job_attached = false;
}

abbrev running_search : Job
running_search = record (trash_job (codes "7")) {
  type = JobType.duplicate_find;
  status = JobStatus.running;
}

attach_active-Attached_example :
    let jobs = trash_job (codes "1") ∷ running_search ∷ [] in
    Attached length jobs empty_page (attach_active length none none jobs empty_page)
    × (attach_active length none none [] (attach_active length none none jobs empty_page)
        ≡ attach_active length none none jobs empty_page)
attach_active-Attached_example =
    attach_active-Attached length empty_page (trash_job (codes "1") ∷ running_search ∷ []) [] refl
      refl refl refl

-- A scan is started and its folder opened; it is left for another scan, in which the folder is opened
-- as well and answered.
abbrev contents : Text → Text → List DiskUsageResult
contents id path = folder (path ++ id) ∷ []

abbrev scanned : Text → DiskScan → DiskScan
scanned id s = scan_started (Answer.answered id) (start_scan true (codes "/") s).1

abbrev second_scan : DiskScan
second_scan =
    (handle_toggle (codes "/a")
      (scanned (codes "8") (handle_toggle (codes "/a") (scanned (codes "7") (initial none))).1)).1

second_scan-Reach : Contents.Reach contents (record {
  scan =
      children_loaded
        (codes "/a")
        (Answer.answered (contents (codes "8") (codes "/a")))
        second_scan;
  sent = (codes "7", codes "/a") ∷ (codes "8", codes "/a") ∷ [];
})
unfolding start_scan scan_started handle_toggle children_of text_eq
second_scan-Reach =
    let open_folder = codes "/a" in
    Contents.Reach.answer 1 (codes "8") open_folder refl refl (
      Contents.Reach.toggle open_folder (
        Contents.Reach.created (Answer.answered (codes "8")) refl (
          Contents.Reach.started true (codes "/") (
            Contents.Reach.toggle open_folder (
              Contents.Reach.created (Answer.answered (codes "7")) refl
                (Contents.Reach.started true (codes "/") (Contents.Reach.opened none)))))))

Reach-children_of_example : contents (codes "8") (codes "/a") ≡ contents (codes "8") (codes "/a")
unfolding start_scan scan_started handle_toggle children_loaded children_of text_eq
Reach-children_of_example =
    Reach-children_of contents (codes "8") (codes "/a") (folder (codes "/a8") ∷ [])
      second_scan-Reach refl refl
