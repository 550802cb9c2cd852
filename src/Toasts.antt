-- ===== src/Toasts.antt =====
-- Short messages: frontend/src/hooks/useToasts.ts. The identifier, which the source makes of the
-- time and a random number, is an argument.
use volum.Base.{
  ◌==◌, or_else, length, drop, filter, All, length-append, length-drop, filter-All, Text, ℕ, ◌-◌,
  ◌≤◌, ◌≡◌, true, not, Option, List, [], ◌∷◌, ◌++◌, arith,
}

pub data ToastVariant : Type 0 where
  success error warning : ToastVariant

pub record Toast : Type 0 where
  pub id : ℕ
  pub title : Text
  pub message : Option Text
  pub variant : ToastVariant

-- `dismissToast`, which the timer of a toast calls too.
pub dismiss_toast : ℕ → List Toast → List Toast
dismiss_toast id items = filter (λ t. not (t.id == id)) items

-- `items.slice(-3)`
abbrev last_three : List Toast → List Toast
last_three items = drop (length items - 3) items

-- `showToastObj`
pub show_toast_obj : Toast → List Toast → List Toast
show_toast_obj toast items = last_three items ++ toast ∷ []

-- `showToast`
show_toast : ℕ → Text → Option ToastVariant → Option Text → List Toast → List Toast
unfolding show_toast_obj
show_toast id title variant message items =
    show_toast_obj
      (record {
        id = id;
        title = title;
        message = message;
        variant = or_else variant ToastVariant.success;
      })
      items

-- At most four messages are shown.
length-show_toast_obj :
    (toast : Toast) (items : List Toast) → length (show_toast_obj toast items) ≤ 4
unfolding show_toast_obj
length-show_toast_obj toast items =
    omega
      (arith, length-append (last_three items) (toast ∷ []), length-drop (length items - 3) items)

-- A message that is dismissed is not shown.
dismiss_toast-All :
    (id : ℕ) (items : List Toast) → All (λ t. not (t.id == id) ≡ true) (dismiss_toast id items)
unfolding dismiss_toast
dismiss_toast-All id items = filter-All (λ t. not (t.id == id)) items
