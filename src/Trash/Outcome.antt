-- ===== src/Trash/Outcome.antt =====
-- What the window shows and requests once items were deleted or restored.
use volum.Base.{
  none, ltb, if◌then◌else◌, Bool-cases, length, filter, any, length-filter-le, Text, is_empty, ℕ,
  ◌-◌, ◌≡◌, refl, ap, ◌∙◌, inl, inr, Bool, true, false, not, some, List, [], ◌∷◌, arith,
}
use volum.Transfer.{ToastVariant}
use volum.Trash.{
  Effect, TrashView, Confirmed, failed_ids, report, delete_ids, restore_selected, run_confirmed,
  confirm,
}

abbrev pub shows_success : ToastVariant → Bool
shows_success ToastVariant.success = true
shows_success variant = false

abbrev pub shows_error : ToastVariant → Bool
shows_error ToastVariant.error = true
shows_error variant = false

abbrev pub is_success : Effect → Bool
is_success (Effect.toast t) = shows_success t.variant
is_success Effect.load_trash = false

abbrev pub is_failure : Effect → Bool
is_failure (Effect.toast t) = shows_error t.variant
is_failure Effect.load_trash = false

abbrev pub is_load : Effect → Bool
is_load (Effect.toast t) = false
is_load Effect.load_trash = true

-- The identifiers that a dialog asks for.
abbrev pub asked : Confirmed → List Text
asked (Confirmed.confirm_delete entry) = entry.id ∷ []
asked (Confirmed.confirm_delete_selected ids) = ids
asked (Confirmed.confirm_empty ids) = ids

-- A message of success exactly if some request was accepted, one of failure exactly if one was
-- rejected, one reload, and the rejected identifiers are selected.
pub record IsSettled (accepts : Text → Bool) (ids : List Text) (r : List Effect × TrashView)
    : Type 0 where
  reported : length (filter is_success r.0) ≡ (if any accepts ids then 1 else 0)
  failed : length (filter is_failure r.0) ≡ (if any (λ id. not (accepts id)) ids then 1 else 0)
  loaded : length (filter is_load r.0) ≡ 1
  kept : TrashView.selected_trash_ids r.1 ≡ failed_ids accepts ids

some_failed :
    (accepts : Text → Bool) (ids : List Text)
    → ltb 0 (length (failed_ids accepts ids)) ≡ any (λ id. not (accepts id)) ids
some_failed accepts [] = refl
some_failed accepts (id ∷ ids) = ground (arith, some_failed accepts ids)

some_accepted :
    (accepts : Text → Bool) (ids : List Text)
    → ltb 0 (length ids - length (failed_ids accepts ids)) ≡ any accepts ids
some_accepted accepts [] = refl
some_accepted accepts (id ∷ ids) =
    ground (arith, some_accepted accepts ids, length-filter-le (λ i. not (accepts i)) ids)

filter-report :
    (accepted failed : ℕ) (title failure_title verb : Text)
    → let effects = report accepted failed title failure_title verb in
      (length (filter is_success effects) ≡ (if ltb 0 accepted then 1 else 0))
      × (length (filter is_failure effects) ≡ (if ltb 0 failed then 1 else 0))
      × (length (filter is_load effects) ≡ 1)
unfolding report
filter-report accepted failed title failure_title verb = elim (Bool-cases (ltb 0 accepted)) [
  | inl a ↦ elim (Bool-cases (ltb 0 failed)) [
    | inl f ↦ rw (a, f) (refl, refl, refl)
    | inr f ↦ rw (a, f) (refl, refl, refl)
  ]
  | inr a ↦ elim (Bool-cases (ltb 0 failed)) [
    | inl f ↦ rw (a, f) (refl, refl, refl)
    | inr f ↦ rw (a, f) (refl, refl, refl)
  ]
]

report-IsSettled :
    (accepts : Text → Bool) (ids : List Text) (title failure_title verb : Text) (v : TrashView)
    → IsSettled accepts ids (
      report
          (length ids - length (failed_ids accepts ids))
          (length (failed_ids accepts ids))
          title
          failure_title
          verb,
      record v { selected_trash_ids = failed_ids accepts ids },
    )
report-IsSettled accepts ids title failure_title verb v =
    let accepted = length ids - length (failed_ids accepts ids) in
    let failed = length (failed_ids accepts ids) in
    let (a, b, c) = filter-report accepted failed title failure_title verb in
    record {
      reported = a ∙ ap (λ t. if t then 1 else 0) (some_accepted accepts ids);
      failed = b ∙ ap (λ t. if t then 1 else 0) (some_failed accepts ids);
      loaded = c;
      kept = refl;
    }

delete_ids-IsSettled :
    (accepts : Text → Bool) (ids : List Text) (title : Text) (v : TrashView)
    → IsSettled accepts ids (delete_ids accepts ids title v)
unfolding delete_ids
delete_ids-IsSettled accepts ids title v = report-IsSettled accepts ids _ _ _ v

-- However the server answers, confirming a dialog settles the identifiers that it asked for.
pub confirm-IsSettled :
    (accepts : Text → Bool) (c : Confirmed) (v : TrashView)
    → IsSettled accepts (asked c) (confirm accepts (some c) v)
unfolding confirm run_confirmed
confirm-IsSettled accepts (Confirmed.confirm_delete entry) v =
    delete_ids-IsSettled accepts (entry.id ∷ []) _ (record v { confirm_dialog = none })
confirm-IsSettled accepts (Confirmed.confirm_delete_selected ids) v =
    delete_ids-IsSettled accepts ids _ (record v { confirm_dialog = none })
confirm-IsSettled accepts (Confirmed.confirm_empty ids) v =
    delete_ids-IsSettled accepts ids _ (record v { confirm_dialog = none })

-- However the server answers, restoring the selected items settles them.
restore_selected-IsSettled :
    (accepts : Text → Bool) (v : TrashView)
    → is_empty v.selected_trash_ids ≡ false
    → IsSettled accepts v.selected_trash_ids (restore_selected true accepts v)
unfolding restore_selected
restore_selected-IsSettled accepts v h =
    rw h (report-IsSettled accepts v.selected_trash_ids _ _ _ v)
