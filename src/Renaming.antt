-- ===== src/Renaming.antt =====
-- Renaming several entries at once: frontend/src/components/overlay/BatchRenameModal.tsx. The changes
-- of case are the browser's, and arguments.
pub mod Replaced
use volum.Base.{
  ltb, ◌==◌, if◌then◌else◌, or_else, length, take, drop, Text, codes, text_eq, starts_with,
  is_empty, split, ℕ, zero, suc, ◌-◌, Bool, true, false, not, Option, none, some, List, [], ◌∷◌,
  ◌++◌,
}
use volum.Entries.{FileEntry}
use volum.Jobs.Commands.{Answer}

pub data PatternType : Type 0 where
  replace prefix suffix case : PatternType

-- The fields of the dialog.
pub record Fields : Type 0 where
  pub pattern_type : PatternType
  pub find : Text
  pub replacement : Text
  pub prefix_text : Text
  pub suffix_text : Text

-- `s.lastIndexOf('.')`, missing where it is -1.
abbrev pub later_dot : Option ℕ → Bool → Option ℕ
later_dot none is_dot = if is_dot then some 0 else none
later_dot (some i) is_dot = some (suc i)

abbrev pub last_dot : Text → Option ℕ
last_dot [] = none
last_dot (c ∷ s) = later_dot (last_dot s) (c == b'.')

-- `dot > 0 ? dot : name.length`
abbrev base_length : Option ℕ → ℕ → ℕ
base_length none n = n
base_length (some i) n = if ltb 0 i then i else n

unfoldable pub base_of : Text → Text
base_of name = take (base_length (last_dot name) (length name)) name

unfoldable pub ext_of : Text → Text
ext_of name = drop (base_length (last_dot name) (length name)) name

-- `s.split('').join(r)`
abbrev pub intersperse : Text → Text → Text
intersperse r [] = []
intersperse r (c ∷ []) = c ∷ []
intersperse r (c ∷ d ∷ s) = c ∷ r ++ intersperse r (d ∷ s)

-- `s.split(f).join(r)` for a text `f` that is not empty; the number counts the code units of a
-- match that are still to be passed over.
unfoldable pub replaced_from : Text → Text → ℕ → Text → Text
replaced_from f r k [] = []
replaced_from f r (suc k) (c ∷ s) = replaced_from f r k s
replaced_from f r zero (c ∷ s) =
    let matched = r ++ replaced_from f r (length f - 1) s in
    let passed = c ∷ replaced_from f r 0 s in if starts_with (c ∷ s) f then matched else passed

unfoldable pub replace_all : Text → Text → Text → Text
unfolding replaced_from
replace_all f r s = if is_empty f then intersperse r s else replaced_from f r 0 s

unfoldable pub new_base : (Text → Text) → Fields → Text → Text
unfolding replace_all
new_base change_case p base = elim p.pattern_type [
  | PatternType.replace ↦ replace_all p.find p.replacement base
  | PatternType.prefix ↦ p.prefix_text ++ base
  | PatternType.suffix ↦ base ++ p.suffix_text
  | PatternType.case ↦ change_case base
]

-- One of the `previews`.
pub record Preview : Type 0 where
  pub entry : FileEntry
  pub new_name : Text
  pub changed : Bool

unfoldable pub new_name_of : (Text → Text) → Fields → Text → Text
unfolding new_base base_of ext_of
new_name_of change_case p name = new_base change_case p (base_of name) ++ ext_of name

unfoldable pub preview : (Text → Text) → Fields → FileEntry → Preview
unfolding new_name_of
preview change_case p entry =
    let name = new_name_of change_case p entry.name in
    record { entry = entry; new_name = name; changed = not (text_eq name entry.name) }

-- The items that `batchRename` is sent: the paths and the new names.
unfoldable pub items_of : List Preview → List (Text × Text)
items_of [] = []
items_of (p ∷ ps) = if p.changed then (p.entry.path, p.new_name) ∷ items_of ps else items_of ps

-- The parts of the server's answer that are read; errors are missing where it sends none.
pub record BatchResult : Type 0 where
  pub complete : Option ℕ
  pub errors : Option (List (Text × Text))

pub record Modal : Type 0 where
  pub error : Option Text
  pub summary : Option (ℕ × ℕ × List (Text × Text))
  pub submitting : Bool

-- What `handleSubmit` calls: `onDone` with its numbers, and `onClose`.
pub data Call : Type 0 where
  done : ℕ → ℕ → Call
  close : Call

abbrev finish : ℕ → ℕ → List (Text × Text) → Modal → List Call × Modal
finish attempted renamed failures m =
    if is_empty failures
    then (Call.done renamed 0 ∷ Call.close ∷ [], record m { submitting = false })
    else (
      Call.done renamed (length failures) ∷ [],
      record m { summary = some (renamed, attempted, failures); submitting = false },
    )

abbrev answered : ℕ → Answer BatchResult → Modal → List Call × Modal
answered attempted (Answer.failed message) m = (
  [],
  record m { error = some (or_else message (codes "Batch rename failed")); submitting = false },
)
answered attempted (Answer.answered r) m =
    let failures = or_else r.errors [] in
    finish attempted (or_else r.complete (attempted - length failures)) failures m

-- `handleSubmit`, with the server's answer to the items.
unfoldable pub handle_submit :
    (List (Text × Text) → Answer BatchResult) → List Preview → Modal → List Call × Modal
unfolding items_of
handle_submit server previews m =
    let items = items_of previews in
    let cleared : Modal = record m { error = none; submitting = true } in
    if is_empty items
    then (
      [],
      record cleared {
        error = some (codes "No items will be changed with the current pattern.");
        submitting = false;
      },
    )
    else answered (length items) (server items) cleared
