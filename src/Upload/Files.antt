-- ===== src/Upload/Files.antt =====
-- Several uploads after one another: `uploadFilesWithResume` of frontend/src/utils/upload.ts.
use volum.Base.{if◌then◌else◌, Text, ℕ, ◌+◌, Option, none, some, List, [], ◌∷◌}
use volum.Upload.{
  File, Failure, upload_cancelled, upload_paused, other_error, ok, throw, Network, Event,
  file_complete, Interruption, FileResult, Run, upload_file_with_resume,
}

-- `UploadResult`
pub record UploadResult : Type 0 where
  pub job_id : Option Text
  pub completed : ℕ
  pub interrupted : Option Interruption

-- The `catch` block: `jobId` is that of the file before.
abbrev pub caught : {W : Type 0} → Failure → Option Text → ℕ → W → List Event → Run W UploadResult
caught upload_cancelled last completed w log = some (
  ok (record { job_id = last; completed = completed; interrupted = some Interruption.cancelled }),
  w,
  log,
)
caught upload_paused last completed w log = some (
  ok (record { job_id = last; completed = completed; interrupted = some Interruption.paused }),
  w,
  log,
)
caught other_error last completed w log = some (throw other_error, w, log)

-- What follows one file; `next` goes on with the other files.
unfoldable pub after_file :
    {W : Type 0}
    → File
    → Option Text
    → ℕ
    → (Option Text → ℕ → W → List Event → Run W UploadResult)
    → Run W FileResult
    → Run W UploadResult
after_file f last completed next none = none
after_file f last completed next (some (throw e, w, log)) = caught e last completed w log
after_file f last completed next (some (ok r, w, log)) = elim r.interrupted [
  | some i ↦
      some (ok (record { job_id = r.job_id; completed = completed; interrupted = some i }), w, log)
  | none ↦
      if r.complete
      then next r.job_id (completed + 1) w (file_complete f.name ∷ log)
      else next r.job_id completed w log
]

module _ {W : Type 0} (net : Network W) (path : Text) (fuel : ℕ) where
  -- The `for` loop of `uploadFilesWithResume`, with fuel for each file.
  unfoldable pub upload_files : List File → Option Text → ℕ → W → List Event → Run W UploadResult
  upload_files [] last completed w log =
      some (ok (record { job_id = last; completed = completed; interrupted = none }), w, log)
  upload_files (f ∷ fs) last completed w log =
      if net.aborted w
      then some (
        ok (record {
          job_id = last;
          completed = completed;
          interrupted = some Interruption.aborted;
        }),
        w,
        log,
      )
      else after_file f last completed (upload_files fs)
          (upload_file_with_resume net path fuel f w log)

  -- `uploadFilesWithResume`
  unfoldable pub upload_files_with_resume : List File → W → List Event → Run W UploadResult
  upload_files_with_resume fs w log = upload_files fs none 0 w log
