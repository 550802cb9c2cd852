-- ===== src/Desk/Emptied.antt =====
-- Emptying the trash from the desktop.
use volum.Base.{
  ltb, ◌==◌, if◌then◌else◌, Bool-cases, is_some, length, filter, any, length-append,
  length-filter-le, Text, ℕ, suc, ◌-◌, ◌≡◌, refl, ap, ap₂, ◌∙◌, inl, inr, Bool, true, false, not,
  some, List, [], ◌∷◌, arith,
}
use volum.Desk.{emptied, DeskState, confirm_empty_trash}
use volum.Jobs.Commands.{Answer}
use volum.Entries.{TrashEntry}

-- The items that the server refuses to delete.
abbrev refused : (Text → Bool) → List TrashEntry → List TrashEntry
refused accepts es = filter (λ e. not (accepts e.id)) es

some_refused :
    (accepts : Text → Bool) (es : List TrashEntry)
    → (length (refused accepts es) == 0) ≡ not (any (λ e. not (accepts e.id)) es)
some_refused accepts [] = refl
some_refused accepts (e ∷ es) = ground (arith, some_refused accepts es)

some_deleted :
    (accepts : Text → Bool) (es : List TrashEntry)
    → ltb 0 (length es - length (refused accepts es)) ≡ any (λ e. accepts e.id) es
some_deleted accepts [] = refl
some_deleted accepts (e ∷ es) =
    ground (arith, some_deleted accepts es, length-filter-le (λ d. not (accepts d.id)) es)

not-not : (b : Bool) → not (not b) ≡ b
not-not true = refl
not-not false = refl

abbrev IsTold : DeskState → Bool → DeskState → Type 0
IsTold s has_error t =
    (t.trash_entries ≡ s.trash_entries)
    × (length t.toasts ≡ suc (length s.toasts))
    × (is_some t.error ≡ has_error)
    × (t.refreshes ≡ s.refreshes)

emptied-IsTold :
    (failed_count deleted_count : ℕ) (s : DeskState)
    → IsTold s (not (failed_count == 0)) (emptied failed_count deleted_count s)
emptied-IsTold failed_count deleted_count s = elim (Bool-cases (failed_count == 0)) [
  | inl e ↦ rw e (refl, omega (arith, length-append s.toasts (_ ∷ [])), refl, refl)
  | inr e ↦ rw e (refl, omega (arith, length-append s.toasts (_ ∷ [])), refl, refl)
]

-- Once the trash has been listed again, however the single requests were answered, one message is
-- shown, the list is the server's, an error stays exactly if an item was refused, and the files are
-- loaded again exactly if one was deleted.
confirm_empty_trash-IsTold :
    (accepts : Text → Bool) (entries : List TrashEntry) (s : DeskState)
    → let t = confirm_empty_trash accepts (Answer.answered (some entries)) s in
      (t.trash_entries ≡ entries)
      × (length t.toasts ≡ suc (length s.toasts))
      × (is_some t.error ≡ any (λ e. not (accepts e.id)) s.trash_entries)
      × (t.refreshes
          ≡ (if any (λ e. accepts e.id) s.trash_entries then suc s.refreshes else s.refreshes))
unfolding confirm_empty_trash
confirm_empty_trash-IsTold accepts entries s =
    let failed_count = length (refused accepts s.trash_entries) in
    let deleted_count = length s.trash_entries - failed_count in
    let start : DeskState = record s { trash_entries = entries; confirm_empty = false } in
    let (listed, told, error, refreshes) = emptied-IsTold failed_count deleted_count start in
    (
      listed,
      told,
      error ∙ ap not (some_refused accepts s.trash_entries) ∙ not-not _,
      ap₂ (λ (b : Bool) (n : ℕ). if b then suc n else n) (some_deleted accepts s.trash_entries)
          refreshes,
    )
