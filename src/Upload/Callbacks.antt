-- ===== src/Upload/Callbacks.antt =====
-- How often upload.ts reports a job's start, whatever the network answers.
use volum.Base.{
  ℕ, suc, ◌+◌, ◌≤◌, ◌≡◌, Bool, true, false, some, List, [], ◌∷◌, Text, arith, or_option,
}
use volum.Upload.Rule.{Keeps, upload_file_rule}
use volum.Upload.{
  File, Outcome, Network, Event, job_started, progress, file_complete, FileResult, Transfer,
  UploadChunkResponse, UploadStatus, report_job_id, receive, resume, upload_file_with_resume,
}

-- The number of calls of `onJobStarted` in a log.
abbrev pub count_started : List Event → ℕ
count_started [] = 0
count_started (job_started name id ∷ es) = suc (count_started es)
count_started (progress name received total ∷ es) = count_started es
count_started (file_complete name ∷ es) = count_started es

-- How many calls may still come.
abbrev left : Bool → ℕ
left true = 0
left false = 1

module _ {W : Type 0} where
  abbrev budget : Transfer W → ℕ
  budget t = count_started t.log + left t.reported

  report_job_id-budget : (name : Text) (t : Transfer W) → budget (report_job_id name t) ≤ budget t
  unfolding report_job_id
  report_job_id-budget name t = ground arith

  receive-budget :
      (f : File) (r : UploadChunkResponse) (t : Transfer W) → budget (receive f r t) ≤ budget t
  unfolding receive
  receive-budget f r t =
      omega (arith, report_job_id-budget f.name (record t { job_id = or_option r.job_id t.job_id }))

  resume-budget :
      (f : File) (s : UploadStatus) (w : W) (log : List Event)
      → budget (resume f s w log) ≤ count_started log + 1
  unfolding resume
  resume-budget f s w log = omega (
    arith,
    report_job_id-budget f.name
        (record { job_id = s.job_id; offset = s.received; reported = false; world = w; log = log }),
  )

  Keeps-budget :
      (f : File) (n : ℕ) → Keeps {W = W} f (λ t. budget t ≤ n) (λ o log. count_started log ≤ n)
  Keeps-budget f n = record {
    receives = λ r w t h. omega (arith, receive-budget f r (record t { world = w }));
    finishes = λ t h. omega arith;
    stops = λ t h. omega arith;
    throws = λ e t h. omega arith;
  }

-- However the network answers, and however an upload ends, `onJobStarted` is called at most once
-- for a file.
pub upload_file_with_resume-count_started :
    {W : Type 0} (net : Network W) (path : Text) (fuel : ℕ) (f : File) (w : W) (log : List Event)
    {o : Outcome FileResult} {w' : W} {log' : List Event}
    → upload_file_with_resume net path fuel f w log ≡ some (o, w', log')
    → count_started log' ≤ count_started log + 1
upload_file_with_resume-count_started net path fuel f w log =
    upload_file_rule f _ _ (Keeps-budget f (count_started log + 1)) net path fuel w log
      (λ e. omega arith) (λ s u. resume-budget f s u log)
