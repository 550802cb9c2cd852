-- ===== src/Upload/Tests.antt =====
-- Runs of the upload against concrete servers, and the theorems at concrete inputs.
use volum.Base.{
  ℕ, ◌+◌, ◌≤◌, ◌≡◌, refl, true, false, none, some, List, [], ◌∷◌, ◌++◌, codes, arith, leb, length,
}
use volum.Upload.{
  File, Outcome, ok, Network, Event, job_started, progress, file_complete, FileResult, Interruption,
  read_status, read_chunk, report_job_id, next_chunk, receive, resume, after_chunk, after_status,
  get_upload_status, upload_chunk, upload_loop, upload_file_with_resume, is_unsupported,
}
use volum.Upload.Files.{after_file, upload_files, upload_files_with_resume}
use volum.Upload.Callbacks.{count_started, upload_file_with_resume-count_started}
use volum.Upload.Storage.{KeepsBytes, IsUploaded, upload_file_with_resume-IsUploaded}
use volum.Upload.Batch.{IsTally, upload_files_with_resume-IsTally}

program : Unit {0}
unfolding read_status read_chunk report_job_id next_chunk receive resume after_chunk after_status
    get_upload_status upload_chunk upload_loop upload_file_with_resume after_file upload_files
    upload_files_with_resume is_unsupported
program = tt

-- A server that appends every chunk to the bytes that it holds.
abbrev keeping : Network (List ℕ)
keeping = record {
  fetch_status = λ w path name. (
    some (record { status = 200; body = some (record { received = length w; job_id = none }) }),
    w,
  );
  fetch_chunk = λ w q. (
    some (record {
      status = 200;
      body = some (record {
        received = q.offset + length q.chunk;
        complete = leb q.total_size (q.offset + length q.chunk);
        job_id = some (codes "j1");
      });
    }),
    w ++ q.chunk,
  );
  aborted = λ w. false;
}

abbrev notes : File
notes = record { name = codes "a.txt"; content = 1 ∷ 2 ∷ 3 ∷ 4 ∷ 5 ∷ [] }

abbrev empty : File
empty = record { name = codes "e"; content = [] }

keeping-KeepsBytes : KeepsBytes keeping (codes "/d") notes (λ w. w)
keeping-KeepsBytes = record {
  never_aborted = λ w. refl;
  knows = λ w. record {
    response = record { received = length w; job_id = none };
    after = w;
    answered = refl;
    unchanged = refl;
    counted = refl;
  };
  appends = λ w q _ _ _ _ _ _ _. record {
    response = record {
      received = q.offset + length q.chunk;
      complete = leb q.total_size (q.offset + length q.chunk);
      job_id = some (codes "j1");
    };
    after = w ++ q.chunk;
    answered = refl;
    appended = refl;
    counted = refl;
    completed = refl;
  };
}

-- Two bytes were sent before; the other three go in one chunk.
abbrev resumed_log : List Event
resumed_log = progress (codes "a.txt") 5 5 ∷ job_started (codes "a.txt") (codes "j1") ∷ []

resumed :
    upload_file_with_resume keeping (codes "/d") 4 notes (1 ∷ 2 ∷ []) []
    ≡ some (
      ok (record { job_id = some (codes "j1"); complete = true; interrupted = none }),
      1 ∷ 2 ∷ 3 ∷ 4 ∷ 5 ∷ [],
      resumed_log,
    )
unfolding program
resumed = refl

-- A paused job is answered by 409.
abbrev pausing : Network (List ℕ)
pausing = record keeping { fetch_chunk = λ w q. (some (record { status = 409; body = none }), w) }

paused_batch :
    upload_files_with_resume pausing (codes "/d") 9 (empty ∷ notes ∷ []) [] []
    ≡ some (
      ok (record { job_id = none; completed = 1; interrupted = some Interruption.paused }),
      [],
      file_complete (codes "e") ∷ [],
    )
unfolding program
paused_batch = refl

unsupported : is_unsupported (λ s. s) (record { name = codes "x.app"; content = [] }) ≡ true
unfolding program
unsupported = refl

upload_file_with_resume-count_started_example : count_started resumed_log ≤ 1
upload_file_with_resume-count_started_example =
    upload_file_with_resume-count_started keeping (codes "/d") 4 notes (1 ∷ 2 ∷ []) [] resumed

upload_file_with_resume-IsUploaded_example :
    (o : Outcome FileResult) × (w : List ℕ) × (log : List Event) × (upload_file_with_resume keeping
        (codes "/d")
        4
        notes
        (1 ∷ 2 ∷ [])
        []
      ≡ some (o, w, log))
    × IsUploaded keeping (codes "/d") notes (λ w. w) o w
upload_file_with_resume-IsUploaded_example =
    upload_file_with_resume-IsUploaded keeping (codes "/d") notes (λ w. w) keeping-KeepsBytes 4
      (1 ∷ 2 ∷ []) [] refl (omega arith)

upload_files_with_resume-IsTally_example :
    IsTally
      (empty ∷ notes ∷ [])
      0
      []
      (record { job_id = none; completed = 1; interrupted = some Interruption.paused })
      (file_complete (codes "e") ∷ [])
upload_files_with_resume-IsTally_example =
    upload_files_with_resume-IsTally pausing (codes "/d") 9 (empty ∷ notes ∷ []) [] [] paused_batch
