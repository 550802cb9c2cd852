-- ===== src/Upload/Batch.antt =====
-- What the result of `uploadFilesWithResume` says of the files, whatever the network answers.
use mathlib.Core.List.{reverse-cons, append_assoc}
use volum.Base.{
  ℕ, suc, ◌+◌, ◌≤◌, ◌<◌, ◌≡◌, ◌≢◌, ◌⊎◌, inl, inr, refl, subst, ◌∙◌, true, false, Option, none, some,
  List, [], ◌∷◌, ◌++◌, map, reverse, Text, arith, length, take, if_cases, or_option,
}
use volum.Upload.{
  File, Failure, upload_cancelled, upload_paused, other_error, Outcome, ok, throw, Network, Event,
  job_started, progress, file_complete, Interruption, FileResult, Transfer, Run, report_job_id,
  receive, resume, upload_file_with_resume,
}
use volum.Upload.Files.{UploadResult, after_file, caught, upload_files, upload_files_with_resume}
use volum.Upload.Rule.{Keeps, upload_file_rule}

-- The files for which `onFileComplete` was called, newest first.
abbrev pub completions : List Event → List Text
completions [] = []
completions (job_started name id ∷ es) = completions es
completions (progress name received total ∷ es) = completions es
completions (file_complete name ∷ es) = name ∷ completions es

-- A file's upload that returns is complete or was interrupted.
abbrev IsDecided : Outcome FileResult → Type 0
IsDecided (throw e) = Unit
IsDecided (ok r) =
    ((r.complete ≡ true) × (r.interrupted ≡ none)) ⊎ (r.interrupted ≡ some Interruption.aborted)

module _ {W : Type 0} where
  report_job_id-completions :
      (name : Text) (t : Transfer W) → completions (report_job_id name t).log ≡ completions t.log
  unfolding report_job_id
  report_job_id-completions name t = ground arith

  Keeps-completions :
      (f : File) (cs : List Text)
      → Keeps {W = W} f
          (λ t. completions t.log ≡ cs)
          (λ o log. (completions log ≡ cs) × IsDecided o)
  unfolding receive
  Keeps-completions f cs = record {
    receives = λ r w t h.
        report_job_id-completions f.name
          (record t { world = w; job_id = or_option r.job_id t.job_id })
        ∙ h;
    finishes = λ t h. (h, inl (refl, refl));
    stops = λ t h. (h, inr refl);
    throws = λ e t h. (h, tt);
  }

  -- One file: nothing is added to the completed files, and the result is complete or interrupted.
  upload_file-IsDecided :
      (net : Network W) (path : Text) (fuel : ℕ) (f : File) (w : W) (log : List Event)
      {o : Outcome FileResult} {w' : W} {log' : List Event}
      → upload_file_with_resume net path fuel f w log ≡ some (o, w', log')
      → (completions log' ≡ completions log) × IsDecided o
  unfolding resume
  upload_file-IsDecided net path fuel f w log =
      upload_file_rule f _ _ (Keeps-completions f (completions log)) net path fuel w log
        (λ e. (refl, tt))
        (λ s u. report_job_id-completions f.name (record {
          job_id = s.job_id;
          offset = s.received;
          reported = false;
          world = u;
          log = log;
        }))

-- How a result counts the files: the first `done` of them were completed, in order, and all of
-- them unless something interrupted the batch.
pub record IsTally (files : List File) (before : ℕ) (names : List Text) (r : UploadResult)
    (log : List Event) : Type 0 where
  pub done : ℕ
  pub counted : r.completed ≡ before + done
  pub within : done ≤ length files
  pub named : completions log ≡ reverse (map (λ f. f.name) (take done files)) ++ names
  pub ended :
      ((r.interrupted ≡ none) × (done ≡ length files))
      ⊎ ((r.interrupted ≢ none) × (done < length files))

abbrev Counts : {W : Type 0} → List File → ℕ → List Text → Run W UploadResult → Type 0
Counts files before names none = Unit
Counts files before names (some (throw e, w, log)) = Unit
Counts files before names (some (ok r, w, log)) = IsTally files before names r log

-- Nothing more was completed.
IsTally-stop :
    (f : File) (fs : List File) (before : ℕ) (r : UploadResult) (log : List Event)
    → r.completed ≡ before
    → r.interrupted ≢ none
    → IsTally (f ∷ fs) before (completions log) r log
IsTally-stop f fs before r log h k = record {
  done = 0;
  counted = omega arith;
  within = omega arith;
  named = refl;
  ended = inr (k, omega arith);
}

-- One more file was completed before the others.
IsTally-cons :
    (f : File) (fs : List File) (before : ℕ) (names : List Text) (r : UploadResult)
    (log : List Event)
    → IsTally fs (before + 1) (f.name ∷ names) r log
    → IsTally (f ∷ fs) before names r log
IsTally-cons f fs before names r log t = record {
  done = suc t.done;
  counted = omega (arith, t.counted);
  within = omega (arith, t.within);
  named = t.named ∙ (simp (reverse-cons, append_assoc));
  ended = elim t.ended [ inl (e, h) ↦ inl (e, omega arith) | inr (e, h) ↦ inr (e, omega arith) ];
}

module _ {W : Type 0} (f : File) (fs : List File) where
  Counts-cons :
      (before : ℕ) (names : List Text) (m : Run W UploadResult)
      → Counts fs (before + 1) (f.name ∷ names) m
      → Counts (f ∷ fs) before names m
  Counts-cons before names none c = tt
  Counts-cons before names (some (throw e, w, log)) c = tt
  Counts-cons before names (some (ok r, w, log)) c = IsTally-cons f fs before names r log c

  caught-Counts :
      (e : Failure) (last : Option Text) (before : ℕ) (w : W) (log : List Event)
      → Counts (f ∷ fs) before (completions log) (caught e last before w log)
  caught-Counts upload_cancelled last before w log = IsTally-stop f fs before _ log refl (λ e. cc)
  caught-Counts upload_paused last before w log = IsTally-stop f fs before _ log refl (λ e. cc)
  caught-Counts other_error last before w log = tt

  module _ (last : Option Text) (before : ℕ)
      (next : Option Text → ℕ → W → List Event → Run W UploadResult)
      (k : (last : Option Text) (done : ℕ) (w : W) (log : List Event)
        → Counts fs done (completions log) (next last done w log)) where
    after_decided-Counts :
        (r : FileResult) (w : W) (log : List Event)
        → IsDecided (ok r)
        → Counts
            (f ∷ fs)
            before
            (completions log)
            (after_file f last before next (some (ok r, w, log)))
    unfolding after_file
    after_decided-Counts r w log (inl (complete, free)) =
        rw (free, complete, after_file)
          (Counts-cons before (completions log) _
            (k r.job_id (before + 1) w (file_complete f.name ∷ log)))
    after_decided-Counts r w log (inr halted) =
        rw (halted, after_file) (IsTally-stop f fs before _ log refl (λ e. cc))

    after_file-Counts :
        (log : List Event) (m : Run W FileResult)
        → ((o : Outcome FileResult) (w : W) (log' : List Event)
            → m ≡ some (o, w, log')
            → (completions log' ≡ completions log) × IsDecided o)
        → Counts (f ∷ fs) before (completions log) (after_file f last before next m)
    unfolding after_file
    after_file-Counts log none h = tt
    after_file-Counts log (some (throw e, w, log')) h =
        rw (← (h (throw e) w log' refl).0) (caught-Counts e last before w log')
    after_file-Counts log (some (ok r, w, log')) h =
        let (same, decided) = h (ok r) w log' refl in
        rw (← same) (after_decided-Counts r w log' decided)

upload_files-Counts :
    {W : Type 0} (net : Network W) (path : Text) (fuel : ℕ) (files : List File) (last : Option Text)
    (before : ℕ) (w : W) (log : List Event)
    → Counts files before (completions log) (upload_files net path fuel files last before w log)
unfolding upload_files
upload_files-Counts net path fuel [] last before w log = record {
  done = 0;
  counted = omega arith;
  within = omega arith;
  named = refl;
  ended = inl (refl, refl);
}
upload_files-Counts net path fuel (f ∷ fs) last before w log =
    if_cases (Counts (f ∷ fs) before (completions log)) (net.aborted w)
      (λ halted. IsTally-stop f fs before _ log refl (λ e. cc))
      (λ live.
        after_file-Counts f fs last before (upload_files net path fuel fs)
          (upload_files-Counts net path fuel fs) log (upload_file_with_resume net path fuel f w log)
          (λ o w' log'. upload_file-IsDecided net path fuel f w log))

-- However the network answers: if the batch returns, then `completed` counts the files for which
-- `onFileComplete` was called, these are the first ones of the list in their order, and they are
-- all of the files exactly when no interruption is reported.
pub upload_files_with_resume-IsTally :
    {W : Type 0} (net : Network W) (path : Text) (fuel : ℕ) (files : List File) (w : W)
    (log : List Event) {r : UploadResult} {w' : W} {log' : List Event}
    → upload_files_with_resume net path fuel files w log ≡ some (ok r, w', log')
    → IsTally files 0 (completions log) r log'
unfolding upload_files_with_resume
upload_files_with_resume-IsTally net path fuel files w log e =
    subst (Counts files 0 (completions log)) e
      (upload_files-Counts net path fuel files none 0 w log)
