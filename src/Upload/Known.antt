-- ===== src/Upload/Known.antt =====
-- A file of which the server has as many bytes as it is long, an empty file among them.
use volum.Base.{ℕ, ◌≤◌, ◌≡◌, true, none, some, List, Text, arith}
use volum.Upload.{
  File, size, ok, Network, Event, UploadStatus, report_job_id, resume, after_status,
  get_upload_status, read_status, upload_file_with_resume,
}

-- If the server says that it has at least as many bytes as the file is long, then the upload
-- returns as complete with the server's job, and the world is the one that the status request
-- left: no chunk is sent. So an empty file counts as uploaded although nothing was sent for it.
upload_file_with_resume_known :
    {W : Type 0} (net : Network W) (path : Text) (fuel : ℕ) (f : File) (w : W) (log : List Event)
    (s : UploadStatus) (w' : W)
    → net.fetch_status w path f.name ≡ (some (record { status = 200; body = some s }), w')
    → size f ≤ s.received
    → (log' : List Event) × (upload_file_with_resume net path fuel f w log
        ≡ some (ok (record { job_id = s.job_id; complete = true; interrupted = none }), w', log'))
unfolding upload_file_with_resume get_upload_status read_status after_status resume report_job_id
upload_file_with_resume_known net path fuel f w log s w' e h =
    ((resume f s w' log).log, rw e (ground arith))
