-- ===== src/Upload.antt =====
-- Resumable uploads: frontend/src/utils/upload.ts, and the two requests that it makes through
-- frontend/src/api/client-files.ts. The network is a parameter (`Network`), the world that it acts
-- on is passed along, and the callbacks are recorded in a log, newest first.
pub mod Files
pub mod Rule
pub mod Chunks
pub mod Callbacks
pub mod Storage
pub mod Batch
pub mod Known
mod Tests
use volum.Base.{
  ℕ, zero, suc, ◌+◌, ◌-◌, ◌*◌, min, Bool, true, false, ◌&&◌, ◌||◌, not, Option, none, some, List,
  [], ◌∷◌, Text, codes, if◌then◌else◌, ltb, leb, ◌==◌, length, take, drop, is_empty, ends_with,
  or_option,
}

-- `CHUNK_SIZE`, in bytes.
abbrev pub chunk_size : ℕ
chunk_size = 1024 * 1024

-- A browser `File`: its name and its bytes.
pub record File : Type 0 where
  pub name : Text
  pub content : List ℕ

abbrev pub size : File → ℕ
size f = length f.content

-- The three ways in which a request can throw.
pub data Failure : Type 0 where
  upload_cancelled upload_paused other_error : Failure

pub data Outcome (A : Type 0) : Type 0 where
  ok : A → Outcome A
  throw : Failure → Outcome A

-- The parts of `getUploadStatus`'s answer that are read.
pub record UploadStatus : Type 0 where
  pub received : ℕ
  pub job_id : Option Text

pub record UploadChunkResponse : Type 0 where
  pub received : ℕ
  pub complete : Bool
  pub job_id : Option Text

pub record ChunkRequest : Type 0 where
  pub path : Text
  pub filename : Text
  pub offset : ℕ
  pub total_size : ℕ
  pub chunk : List ℕ
  pub job_id : Option Text

-- An HTTP answer; the body is missing if it is not the JSON that is expected.
pub record Response (B : Type 0) : Type 0 where
  pub status : ℕ
  pub body : Option B

-- `fetch` at the two URLs, missing if it rejects, and the abort signal.
pub record Network (W : Type 0) : Type 0 where
  pub fetch_status : W → Text → Text → Option (Response UploadStatus) × W
  pub fetch_chunk : W → ChunkRequest → Option (Response UploadChunkResponse) × W
  pub aborted : W → Bool

-- `response.ok`
abbrev response_ok : ℕ → Bool
response_ok status = leb 200 status && leb status 299

abbrev json : {B : Type 0} → Option B → Outcome B
json none = throw other_error
json (some b) = ok b

-- What `getUploadStatus` makes of an answer.
pub read_status : Option (Response UploadStatus) → Outcome UploadStatus
read_status none = throw other_error
read_status (some r) = if response_ok r.status then json r.body else throw other_error

-- What `uploadChunk` makes of an answer.
pub read_chunk : Option (Response UploadChunkResponse) → Outcome UploadChunkResponse
read_chunk none = throw other_error
read_chunk (some r) =
    if r.status == 410
    then throw upload_cancelled
    else if r.status == 409
    then throw upload_paused
    else if response_ok r.status
    then json r.body
    else throw other_error

pub data Event : Type 0 where
  job_started : Text → Text → Event
  progress : Text → ℕ → ℕ → Event
  file_complete : Text → Event

pub data Interruption : Type 0 where
  aborted cancelled paused : Interruption

-- `UploadFileResult`
pub record FileResult : Type 0 where
  pub job_id : Option Text
  pub complete : Bool
  pub interrupted : Option Interruption

-- The variables of `uploadFileWithResume`, with the world and the log.
pub record Transfer (W : Type 0) : Type 0 where
  pub job_id : Option Text
  pub offset : ℕ
  pub reported : Bool
  pub world : W
  pub log : List Event

-- `unsupportedUploadReason`: whether there is a reason. Lower-casing is a parameter.
pub is_unsupported : (Text → Text) → File → Bool
unfolding ends_with
is_unsupported lower f = ends_with (lower f.name) (codes ".app")

-- `reportJobId(jobId)`
pub report_job_id : {W : Type 0} → Text → Transfer W → Transfer W
report_job_id name t = elim t.job_id [
  | none ↦ t
  | some id ↦
      if is_empty id || t.reported
      then t
      else record t { reported = true; log = job_started name id ∷ t.log }
]

-- The request for the next chunk: `file.slice(offset, end)`.
pub next_chunk : {W : Type 0} → Text → File → Transfer W → ChunkRequest
next_chunk path f t =
    let end = min (t.offset + chunk_size) (size f) in
    record {
      path = path;
      filename = f.name;
      offset = t.offset;
      total_size = size f;
      chunk = take (end - t.offset) (drop t.offset f.content);
      job_id = t.job_id;
    }

-- The rest of the loop's body, after a chunk was answered.
pub receive : {W : Type 0} → File → UploadChunkResponse → Transfer W → Transfer W
receive f r t =
    let t' = report_job_id f.name (record t { job_id = or_option r.job_id t.job_id }) in
    record t' { offset = r.received; log = progress f.name r.received (size f) ∷ t'.log }

abbrev finished : {W : Type 0} → Transfer W → FileResult
finished t = record { job_id = t.job_id; complete = true; interrupted = none }

abbrev stopped : {W : Type 0} → Transfer W → FileResult
stopped t = record { job_id = t.job_id; complete = false; interrupted = some Interruption.aborted }

-- The rest of a round, once `uploadChunk` has returned or thrown; `next` is the next round.
pub after_chunk :
    {W : Type 0}
    → File
    → Transfer W
    → (Transfer W → Option (Outcome FileResult × Transfer W))
    → Outcome UploadChunkResponse × W
    → Option (Outcome FileResult × Transfer W)
after_chunk f t next (throw e, w) = some (throw e, record t { world = w })
after_chunk f t next (ok r, w) =
    let t' = receive f r (record t { world = w }) in
    if r.complete then some (ok (finished t'), t') else next t'

-- The state in which the loop starts, once the status is known.
pub resume : {W : Type 0} → File → UploadStatus → W → List Event → Transfer W
resume f s w log =
    report_job_id f.name
      (record { job_id = s.job_id; offset = s.received; reported = false; world = w; log = log })

-- An outcome with the world and the log that it leaves behind; `none` when the fuel ran out.
abbrev pub Run : Type 0 → Type 0 → Type 0
Run W A = Option (Outcome A × W × List Event)

abbrev pub leave : {W : Type 0} → Option (Outcome FileResult × Transfer W) → Run W FileResult
leave none = none
leave (some (o, t)) = some (o, t.world, t.log)

-- What follows the status request; `loop` is the `while` loop.
pub after_status :
    {W : Type 0}
    → File
    → List Event
    → (Transfer W → Option (Outcome FileResult × Transfer W))
    → Outcome UploadStatus × W
    → Run W FileResult
after_status f log loop (throw e, w) = some (throw e, w, log)
after_status f log loop (ok s, w) =
    let t = resume f s w log in
    leave (if leb (size f) t.offset then some (ok (finished t), t) else loop t)

module _ {W : Type 0} (net : Network W) (path : Text) where
  -- `getUploadStatus`
  pub get_upload_status : File → W → Outcome UploadStatus × W
  get_upload_status f w =
      let (answer, w') = net.fetch_status w path f.name in (read_status answer, w')

  -- `uploadChunk`
  pub upload_chunk : W → ChunkRequest → Outcome UploadChunkResponse × W
  upload_chunk w q = let (answer, w') = net.fetch_chunk w q in (read_chunk answer, w')

  -- The `while` loop on fuel; `none` means that the fuel ran out.
  pub upload_loop : ℕ → File → Transfer W → Option (Outcome FileResult × Transfer W)
  upload_loop zero f t = none
  upload_loop (suc fuel) f t =
      let more =
        after_chunk f t (upload_loop fuel f) (upload_chunk t.world (next_chunk path f t)) in
      if ltb t.offset (size f)
      then (if net.aborted t.world then some (ok (stopped t), t) else more)
      else some (ok (finished t), t)

  -- `uploadFileWithResume`
  pub upload_file_with_resume : ℕ → File → W → List Event → Run W FileResult
  upload_file_with_resume fuel f w log =
      after_status f log (upload_loop fuel f) (get_upload_status f w)
