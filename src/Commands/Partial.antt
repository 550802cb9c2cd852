-- ===== src/Commands/Partial.antt =====
-- Actions that fail half-way.
use volum.Base.{
  if◌then◌else◌, is_some, length, length-append, suc, ◌<◌, ◌≡◌, refl, Bool, ◌&&◌, not, Option, none,
  List, [], ◌∷◌, ◌++◌, arith,
}
use volum.Commands.{CommandState}
use volum.Commands.Run.{is_answered}
use volum.Commands.Uploads.{upload_ended}
use volum.Transfer.{Toast}
use volum.Upload.{File}
use volum.Upload.Files.{UploadResult}
use volum.Jobs.{Job}
use volum.Jobs.Commands.{Answer}

-- The end of an upload's action.
pub record IsEnded (both : Bool) (s t : CommandState) : Type 0 where
  stopped : t.upload_progress ≡ none
  refreshed : t.refreshes ≡ (if both then suc s.refreshes else s.refreshes)
  cleared : is_some t.error ≡ not both
  shown : length s.transfers.toasts < length t.transfers.toasts

longer : (ts : List Toast) (t : Toast) → length ts < length (ts ++ t ∷ [])
longer ts t = omega (arith, length-append ts (t ∷ []))

longer_twice : (ts : List Toast) (t u : Toast) → length ts < length ((ts ++ t ∷ []) ++ u ∷ [])
longer_twice ts t u =
    omega (arith, length-append ts (t ∷ []), length-append (ts ++ t ∷ []) (u ∷ []))

-- However the upload and the listing of the jobs after it end, its progress is no longer shown and
-- a message is; the files are loaded again, and no error is shown, exactly if both were answered.
upload_ended-IsEnded :
    (files : List File) (uploaded : Answer UploadResult) (listing : Answer (Option (List Job)))
    → (s : CommandState)
    → IsEnded
        (is_answered uploaded && is_answered listing)
        s
        (upload_ended files uploaded listing s)
unfolding upload_ended
upload_ended-IsEnded files (Answer.failed message) listing s = record {
  stopped = refl;
  refreshed = refl;
  cleared = refl;
  shown = longer s.transfers.toasts _;
}
upload_ended-IsEnded files (Answer.answered r) (Answer.failed message) s = record {
  stopped = refl;
  refreshed = refl;
  cleared = refl;
  shown = longer_twice s.transfers.toasts _ _;
}
upload_ended-IsEnded files (Answer.answered r) (Answer.answered jobs) s = record {
  stopped = refl;
  refreshed = refl;
  cleared = refl;
  shown = longer s.transfers.toasts _;
}
