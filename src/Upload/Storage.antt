-- ===== src/Upload/Storage.antt =====
-- What upload.ts achieves against a server that keeps the bytes it is sent.
use volum.Base.{
  ℕ, zero, suc, ◌+◌, ◌≤◌, ◌<◌, ◌≡◌, refl, sym, ap, ◌∙◌, true, false, Option, none, some, List, ◌++◌,
  Text, arith, length, take, ltb, leb, ltb→lt, ltb→le, leb→le, if_cases, Bool-cases, length-take,
  take_of_length-le, inl, inr, or_option,
}
use volum.Upload.{
  Run, leave, File, size, chunk_size, Outcome, ok, Network, Event, FileResult, Transfer,
  UploadStatus, UploadChunkResponse, ChunkRequest, read_chunk, read_status, after_chunk,
  after_status, upload_chunk, get_upload_status, report_job_id, receive, next_chunk, finished,
  upload_loop, resume, upload_file_with_resume,
}
use volum.Upload.Chunks.{length-next_chunk, next_chunk_bounds, take-next_chunk}

module _ {W : Type 0} (net : Network W) (path : Text) (f : File) (stored : W → List ℕ) where
  -- The answer to a chunk that starts where the stored bytes end.
  pub record Appends (w : W) (q : ChunkRequest) : Type 0 where
    pub response : UploadChunkResponse
    pub after : W
    pub answered :
        net.fetch_chunk w q ≡ (some (record { status = 200; body = some response }), after)
    pub appended : stored after ≡ stored w ++ q.chunk
    pub counted : response.received ≡ q.offset + length q.chunk
    pub completed : response.complete ≡ leb q.total_size response.received

  -- The answer to a question for the state of the upload.
  pub record Knows (w : W) : Type 0 where
    pub response : UploadStatus
    pub after : W
    pub answered :
        net.fetch_status w path f.name
        ≡ (some (record { status = 200; body = some response }), after)
    pub unchanged : stored after ≡ stored w
    pub counted : response.received ≡ length (stored w)

  -- The documented behaviour of the server, with no abort on this side: it says how many bytes it
  -- has, and appends a chunk of a legal size that starts there.
  pub record KeepsBytes : Type 0 where
    pub never_aborted : (w : W) → net.aborted w ≡ false
    pub knows : (w : W) → Knows w
    pub appends :
        (w : W) (q : ChunkRequest)
        → q.path ≡ path
        → q.filename ≡ f.name
        → q.total_size ≡ size f
        → q.offset ≡ length (stored w)
        → 0 < length q.chunk
        → length q.chunk ≤ chunk_size
        → q.offset + length q.chunk ≤ size f
        → Appends w q

  -- The server holds the part of the file below the offset.
  pub record InStep (t : Transfer W) : Type 0 where
    pub prefix : stored t.world ≡ take t.offset f.content
    pub within : t.offset ≤ size f

  -- An upload that ended well.
  pub record IsUploaded (o : Outcome FileResult) (w : W) : Type 0 where
    pub result : FileResult
    pub returned : o ≡ ok result
    pub complete : result.complete ≡ true
    pub uninterrupted : result.interrupted ≡ none
    pub whole : stored w ≡ f.content

  InStep-length : (t : Transfer W) → InStep t → t.offset ≡ length (stored t.world)
  InStep-length t s = rw s.prefix (omega (arith, length-take t.offset f.content, s.within))

  report_job_id-world : (name : Text) (t : Transfer W) → (report_job_id name t).world ≡ t.world
  unfolding report_job_id
  report_job_id-world name t = ground arith

  receive-world : (r : UploadChunkResponse) (t : Transfer W) → (receive f r t).world ≡ t.world
  unfolding receive
  receive-world r t = report_job_id-world f.name (record t { job_id = or_option r.job_id t.job_id })

  module _ (t : Transfer W) (a : Appends t.world (next_chunk path f t)) where
    received_offset :
        (receive f a.response (record t { world = a.after })).offset
        ≡ t.offset + length (next_chunk path f t).chunk
    unfolding receive next_chunk
    received_offset = a.counted

    received_prefix :
        InStep t
        → t.offset < size f
        → stored (receive f a.response (record t { world = a.after })).world
          ≡ take (receive f a.response (record t { world = a.after })).offset f.content
    received_prefix s h =
        ap stored (receive-world a.response (record t { world = a.after }))
        ∙ a.appended
        ∙ ap (λ xs. xs ++ (next_chunk path f t).chunk) s.prefix
        ∙ take-next_chunk path f t
        ∙ ap (λ n. take n f.content) (omega (arith, received_offset, length-next_chunk path f t))

  module _ (server : KeepsBytes) where
    next_chunk-Appends :
        (t : Transfer W) → InStep t → t.offset < size f → Appends t.world (next_chunk path f t)
    unfolding next_chunk
    next_chunk-Appends t s h =
        let (a, b, c) = next_chunk_bounds path f t h in
        server.appends t.world (next_chunk path f t) refl refl refl (InStep-length t s) a b c

    receive-InStep :
        (t : Transfer W)
        → InStep t
        → t.offset < size f
        → (a : Appends t.world (next_chunk path f t))
        → InStep (receive f a.response (record t { world = a.after }))
          × (t.offset < (receive f a.response (record t { world = a.after })).offset)
    receive-InStep t s h a =
        let (positive, bounded, inside) = next_chunk_bounds path f t h in
        let moved = received_offset t a in
        (record { prefix = received_prefix t a s h; within = omega arith }, omega arith)

    ended :
        (t : Transfer W)
        → InStep t
        → t.offset < size f
        → (a : Appends t.world (next_chunk path f t)) → a.response.complete ≡ true
        → size f ≤ (receive f a.response (record t { world = a.after })).offset
    unfolding receive next_chunk
    ended t s h a last = ground (arith, a.completed)

    -- How the loop ends when it ends well.
    record Ends (out : Option (Outcome FileResult × Transfer W)) : Type 0 where
      result : FileResult
      last : Transfer W
      returned : out ≡ some (ok result, last)
      complete : result.complete ≡ true
      uninterrupted : result.interrupted ≡ none
      whole : stored last.world ≡ f.content

    finish : (t : Transfer W) → InStep t → size f ≤ t.offset → Ends (some (ok (finished t), t))
    finish t s h = record {
      result = finished t;
      last = t;
      returned = refl;
      complete = refl;
      uninterrupted = refl;
      whole = s.prefix ∙ take_of_length-le t.offset f.content h;
    }

    after_chunk-Ends :
        (t : Transfer W) (next : Transfer W → Option (Outcome FileResult × Transfer W))
        → InStep t
        → t.offset < size f
        → ((u : Transfer W) → InStep u → t.offset < u.offset → Ends (next u))
        → Ends (after_chunk f t next (upload_chunk net path t.world (next_chunk path f t)))
    unfolding upload_chunk after_chunk read_chunk
    after_chunk-Ends t next s h k =
        let a = next_chunk-Appends t s h in
        let (s', further) = receive-InStep t s h a in
        rw a.answered (elim (Bool-cases a.response.complete) [
          | inl last ↦ rw last (finish _ s' (ended t s h a last))
          | inr more ↦ rw more (k _ s' further)
        ])

    upload_loop-Ends :
        (fuel : ℕ) (t : Transfer W)
        → InStep t
        → size f < fuel + t.offset
        → Ends (upload_loop net path fuel f t)
    unfolding upload_loop
    upload_loop-Ends zero t s h = absurd (omega (arith, s.within))
    upload_loop-Ends (suc fuel) t s h = elim (Bool-cases (ltb t.offset (size f))) [
      | inr done ↦ rw (done, upload_loop) (finish t s (ltb→le _ _ done))
      | inl more ↦
          rw (more, server.never_aborted t.world, upload_loop)
            (after_chunk-Ends t (upload_loop net path fuel f) s (ltb→lt _ _ more)
              (λ u s' further. upload_loop-Ends fuel u s' (omega arith)))
    ]

    resume-world : (s : UploadStatus) (w : W) (log : List Event) → (resume f s w log).world ≡ w
    unfolding resume
    resume-world s w log =
        report_job_id-world f.name (record {
          job_id = s.job_id;
          offset = s.received;
          reported = false;
          world = w;
          log = log;
        })

    resume-offset :
        (s : UploadStatus) (w : W) (log : List Event) → (resume f s w log).offset ≡ s.received
    unfolding resume report_job_id
    resume-offset s w log = ground arith

    module _ (w : W) (log : List Event) (k : Knows w)
        (h : stored w ≡ take (length (stored w)) f.content) where
      resume_offset : (resume f k.response k.after log).offset ≡ length (stored w)
      resume_offset = resume-offset k.response k.after log ∙ k.counted

      resume-InStep : InStep (resume f k.response k.after log)
      resume-InStep = record {
        prefix =
            ap stored (resume-world k.response k.after log)
            ∙ k.unchanged
            ∙ h
            ∙ ap (λ n. take n f.content) (sym resume_offset);
        within = omega (
          arith,
          resume_offset,
          ap (λ (xs : List ℕ). length xs) h,
          length-take (length (stored w)) f.content,
        );
      }

    abbrev Lands : Run W FileResult → Type 0
    Lands m =
        (o : Outcome FileResult) × (w : W) × (log : List Event) × (m ≡ some (o, w, log))
        × IsUploaded o w

    leave-Lands : (m : Option (Outcome FileResult × Transfer W)) → Ends m → Lands (leave m)
    leave-Lands m e = (
      ok e.result,
      e.last.world,
      e.last.log,
      ap leave e.returned,
      record {
        result = e.result;
        returned = refl;
        complete = e.complete;
        uninterrupted = e.uninterrupted;
        whole = e.whole;
      },
    )

    -- Against a server that keeps what it is sent, and with no abort, an upload that starts where
    -- a prefix of the file is stored ends: it returns a complete, uninterrupted result, and the
    -- server then holds the file's bytes exactly. The fuel that is needed is one more than the
    -- number of bytes that are left.
    pub upload_file_with_resume-IsUploaded :
        (fuel : ℕ) (w : W) (log : List Event)
        → stored w ≡ take (length (stored w)) f.content
        → size f < fuel + length (stored w)
        → (o : Outcome FileResult) × (w' : W) × (log' : List Event) × (upload_file_with_resume net
              path fuel f w log
            ≡ some (o, w', log'))
          × IsUploaded o w'
    unfolding upload_file_with_resume get_upload_status read_status after_status
    upload_file_with_resume-IsUploaded fuel w log h enough =
        let k = server.knows w in
        let s = resume-InStep w log k h in
        rw k.answered (
          leave-Lands _ (
            if_cases Ends (leb (size f) (resume f k.response k.after log).offset)
              (λ done. finish _ s (leb→le _ _ done))
              (λ more. upload_loop-Ends fuel _ s (omega (arith, resume_offset w log k h)))))
