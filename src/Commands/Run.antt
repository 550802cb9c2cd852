-- ===== src/Commands/Run.antt =====
-- `runAction` of frontend/src/hooks/useFileCommands.ts.
use volum.Base.{or_else, Text, codes, suc, Bool, true, false, Option, none, some}
use volum.Transfer.{ToastVariant}
use volum.Commands.{CommandState, show_toast}
use volum.Jobs.Commands.{Answer}

-- The end of an action that was answered.
abbrev pub succeed : Option Text → CommandState → CommandState
succeed none s = record s { error = none; refreshes = suc s.refreshes }
succeed (some title) s =
    let shown = show_toast title none ToastVariant.success s in
    record shown { error = none; refreshes = suc s.refreshes }

-- The end of one that was rejected; the message is missing where the error is not an `Error`.
abbrev pub fail : Text → Text → Option Text → CommandState → CommandState
fail title otherwise message s =
    let text = or_else message otherwise in
    let shown = show_toast title (some text) ToastVariant.error s in
    record shown { error = some text }

-- `runAction`; the answer holds what the action itself sets.
unfoldable pub run_action :
    Answer (CommandState → CommandState) → Option Text → CommandState → CommandState
run_action (Answer.answered change) title s = succeed title (change s)
run_action (Answer.failed message) title s =
    fail (codes "Action failed") (codes "Action failed") message s

abbrev pub is_answered {ℓ} : {A : Type ℓ} → Answer A → Bool
is_answered (Answer.answered a) = true
is_answered (Answer.failed message) = false

-- An answer without a value.
abbrev pub unchanged : Answer (Unit {0}) → Answer (CommandState → CommandState)
unchanged (Answer.answered done) = Answer.answered (λ s. s)
unchanged (Answer.failed message) = Answer.failed message
