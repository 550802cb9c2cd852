-- ===== src/Analyzer/Duplicates.antt =====
-- The duplicate files of a scan: their groups, the selection, and the files that wait to be
-- trashed. Sets and maps of JavaScript keep the order of insertion; here they are lists.
use volum.Base.{
  leb, ◌==◌, if◌then◌else◌, is_some, length, filter, any, all, Text, codes, text_eq, includes,
  is_empty, print, ℕ, Bool, true, false, ◌||◌, not, Option, none, some, List, [], ◌∷◌, ◌++◌, map,
  sort,
}
use volum.Jobs.{Job, JobStatus, is_completed}

-- `DuplicateFileEntry`
pub record DuplicateFile : Type 0 where
  pub job_id : Text
  pub group_id : ℕ
  pub path : Text
  pub size_bytes : ℕ
  pub checksum : Text
  pub modified_at : Option Text

-- The state of the section, without the scan's own, which is the same as that of the other.
pub record Duplicates : Type 0 where
  pub dup_results : List DuplicateFile
  pub dup_error : Option Text
  pub dup_selected : List Text
  pub pending_dup_trash : List (Text × Text)
  pub dup_trashing : Bool
  pub confirm_trash : Bool

abbrev pub Group : Type 0
Group = ℕ × List DuplicateFile

-- `g.push(r)`, or `groups.set(r.groupId, [r])` where there is none.
abbrev pub add_to_group : DuplicateFile → List Group → List Group
add_to_group r [] = (r.group_id, r ∷ []) ∷ []
add_to_group r (g ∷ groups) =
    if g.0 == r.group_id then (g.0, g.1 ++ r ∷ []) ∷ groups else g ∷ add_to_group r groups

abbrev pub groups_from : List Group → List DuplicateFile → List Group
groups_from groups [] = groups
groups_from groups (r ∷ rs) = groups_from (add_to_group r groups) rs

-- `(a, b) => b[0] - a[0]`
abbrev pub later_group : Group → Group → Bool
later_group a b = leb b.0 a.0

-- `duplicateGroups`
unfoldable pub duplicate_groups : List DuplicateFile → List Group
unfolding sort
duplicate_groups results = sort later_group (groups_from [] results)

-- `next.has(path) ? next.delete(path) : next.add(path)`
abbrev pub toggle_path : Text → List Text → List Text
toggle_path path prev =
    if includes prev path then filter (λ p. not (text_eq p path)) prev else prev ++ path ∷ []

-- `handleSelectDup`
unfoldable pub select_dup : Text → Duplicates → Duplicates
select_dup path s =
    if includes (map (λ p. p.0) s.pending_dup_trash) path
    then s
    else record s { dup_selected = toggle_path path s.dup_selected }

-- A group of which every file is selected.
abbrev pub all_selected : List Text → List DuplicateFile → Bool
all_selected selected files = all (λ f. includes selected f.path) files

abbrev pub removes_every_copy : List DuplicateFile → List Text → Bool
removes_every_copy results selected =
    any (λ g. all_selected selected g.1) (duplicate_groups results)

-- `requestTrashSelected`
unfoldable pub request_trash_selected : Duplicates → Duplicates
request_trash_selected s =
    if removes_every_copy s.dup_results s.dup_selected
    then record s { dup_error = some (codes "Keep at least one copy from every duplicate group.") }
    else record s { confirm_trash = true }

-- The calls of `deletePath`: a job's identifier, or missing where the call is rejected.
abbrev pub queued_of : (Text → Option Text) → List Text → List (Text × Text)
queued_of delete_path [] = []
queued_of delete_path (p ∷ ps) = elim (delete_path p) [
  | none ↦ queued_of delete_path ps
  | some id ↦ (p, id) ∷ queued_of delete_path ps
]

-- `map.set(path, id)`: an old key keeps its place.
abbrev pub set_pending : Text × Text → List (Text × Text) → List (Text × Text)
set_pending p [] = p ∷ []
set_pending p (q ∷ qs) = if text_eq q.0 p.0 then p ∷ qs else q ∷ set_pending p qs

abbrev pub set_all : List (Text × Text) → List (Text × Text) → List (Text × Text)
set_all prev [] = prev
set_all prev (p ∷ ps) = set_all (set_pending p prev) ps

-- `handleTrashSelected`, run to its end.
unfoldable pub trash_selected : Bool → (Text → Option Text) → Duplicates → Duplicates
trash_selected can_manage delete_path s =
    let failed = filter (λ p. not (is_some (delete_path p))) s.dup_selected in
    if not can_manage || is_empty s.dup_selected then s else record s {
      pending_dup_trash = set_all s.pending_dup_trash (queued_of delete_path s.dup_selected);
      dup_selected = failed;
      dup_error =
          if is_empty failed
          then s.dup_error
          else some
              (codes "Failed to queue " ++ print (length failed) ++ codes " file(s) for Trash.");
      dup_trashing = false;
    }

-- `jobs.find((candidate) => candidate.id === jobId)?.status`
abbrev pub status_of_job : List Job → Text → Option JobStatus
status_of_job [] id = none
status_of_job (j ∷ jobs) id = if text_eq j.id id then some j.status else status_of_job jobs id

abbrev pub has_completed : Option JobStatus → Bool
has_completed none = false
has_completed (some status) = is_completed status

abbrev pub has_failed : Option JobStatus → Bool
has_failed none = false
has_failed (some JobStatus.failed) = true
has_failed (some JobStatus.cancelled) = true
has_failed (some status) = false

-- The paths whose jobs have completed, or have failed.
abbrev pub paths_with : (Option JobStatus → Bool) → List Job → List (Text × Text) → List Text
paths_with test jobs pending = map (λ p. p.0) (filter (λ p. test (status_of_job jobs p.1)) pending)

-- The effect of new jobs on the files that wait.
unfoldable pub settle_pending : List Job → Duplicates → Duplicates
settle_pending jobs s =
    let completed = paths_with has_completed jobs s.pending_dup_trash in
    let failed = paths_with has_failed jobs s.pending_dup_trash in
    record s {
      dup_results = filter (λ r. not (includes completed r.path)) s.dup_results;
      dup_error =
          if is_empty failed
          then s.dup_error
          else some (codes "Failed to trash " ++ print (length failed) ++ codes " file(s).");
      pending_dup_trash =
          filter (λ p. not (includes completed p.0 || includes failed p.0)) s.pending_dup_trash;
    }
