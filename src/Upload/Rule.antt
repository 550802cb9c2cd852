-- ===== src/Upload/Rule.antt =====
-- A rule for `uploadFileWithResume`: what holds at the start and survives each answered chunk
-- holds when it returns or throws, whatever the network does.
use volum.Base.{ℕ, zero, suc, ◌≡◌, subst, Option, none, some, List, Text, ltb, leb, if_cases}
use volum.Upload.{
  File, size, Failure, Outcome, ok, throw, Network, Event, FileResult, Transfer, UploadStatus,
  UploadChunkResponse, receive, finished, stopped, after_chunk, Run, resume, leave, after_status,
  upload_chunk, next_chunk, get_upload_status, upload_loop, upload_file_with_resume,
}

module _ {W : Type 0} (f : File) (Q : Transfer W → Type 0)
    (R : Outcome FileResult → List Event → Type 0) where
  -- `Q` survives a round, and gives `R` wherever the function ends.
  pub record Keeps : Type 0 where
    pub receives :
        (r : UploadChunkResponse) (w : W) (t : Transfer W)
        → Q t
        → Q (receive f r (record t { world = w }))
    pub finishes : (t : Transfer W) → Q t → R (ok (finished t)) t.log
    pub stops : (t : Transfer W) → Q t → R (ok (stopped t)) t.log
    pub throws : (e : Failure) (t : Transfer W) → Q t → R (throw e) t.log

  module _ (keeps : Keeps) where
    abbrev Post : Option (Outcome FileResult × Transfer W) → Type 0
    Post none = Unit
    Post (some (o, t)) = R o t.log

    after_chunk-Post :
        (t : Transfer W) (next : Transfer W → Option (Outcome FileResult × Transfer W))
        (a : Outcome UploadChunkResponse × W)
        → Q t
        → ((u : Transfer W) → Q u → Post (next u))
        → Post (after_chunk f t next a)
    unfolding after_chunk
    after_chunk-Post t next (throw e, w) q h = keeps.throws e t q
    after_chunk-Post t next (ok r, w) q h =
        let kept = keeps.receives r w t q in
        if_cases Post r.complete (λ _. keeps.finishes _ kept) (λ _. h _ kept)

    upload_loop-Post :
        (net : Network W) (path : Text) (fuel : ℕ) (t : Transfer W)
        → Q t
        → Post (upload_loop net path fuel f t)
    unfolding upload_loop
    upload_loop-Post net path zero t q = tt
    upload_loop-Post net path (suc fuel) t q =
        if_cases Post (ltb t.offset (size f))
          (λ _.
            if_cases Post (net.aborted t.world) (λ _. keeps.stops t q)
              (λ _.
                after_chunk-Post t (upload_loop net path fuel f)
                  (upload_chunk net path t.world (next_chunk path f t)) q
                  (λ u. upload_loop-Post net path fuel u)))
          (λ _. keeps.finishes t q)

    abbrev Left : Run W FileResult → Type 0
    Left none = Unit
    Left (some (o, w, log)) = R o log

    leave-Left : (m : Option (Outcome FileResult × Transfer W)) → Post m → Left (leave m)
    leave-Left none p = tt
    leave-Left (some (o, t)) p = p

    after_status-Left :
        (log : List Event) (loop : Transfer W → Option (Outcome FileResult × Transfer W))
        (a : Outcome UploadStatus × W)
        → ((e : Failure) → R (throw e) log)
        → ((s : UploadStatus) (w : W) → Q (resume f s w log))
        → ((t : Transfer W) → Q t → Post (loop t))
        → Left (after_status f log loop a)
    unfolding after_status
    after_status-Left log loop (throw e, w) fails starts loops = fails e
    after_status-Left log loop (ok s, w) fails starts loops = leave-Left _ (
        if_cases Post (leb (size f) (resume f s w log).offset) (λ _. keeps.finishes _ (starts s w))
          (λ _. loops _ (starts s w)))

    pub upload_file_rule :
        (net : Network W) (path : Text) (fuel : ℕ) (w : W) (log : List Event)
        {o : Outcome FileResult} {w' : W} {log' : List Event}
        → ((e : Failure) → R (throw e) log)
        → ((s : UploadStatus) (w : W) → Q (resume f s w log))
        → upload_file_with_resume net path fuel f w log ≡ some (o, w', log')
        → R o log'
    unfolding upload_file_with_resume
    upload_file_rule net path fuel w log fails starts e = subst Left e (
        after_status-Left log (upload_loop net path fuel f) (get_upload_status net path f w) fails
          starts (upload_loop-Post net path fuel))
