-- ===== src/Paths/Laws.antt =====
-- Normalised paths, and joining a parent and a name.
use mathlib.Core.List.{append-nil, reverse-reverse, append_assoc}
use mathlib.Core.Bool.{◌&&◌}
use volum.Base.{
  get_last?-concat, if_cases, or_text, sym, Bool-cases, get_last?, All, Text, drop_while,
  drop_end_while, split, split_at, ℕ, ◌≡◌, refl, ap, ◌∙◌, inl, inr, Bool, false, some, [], ◌∷◌,
  ◌++◌, reverse,
}
use volum.Paths.{slash, is_slash, normalize_folder_path, drop_last_slash, collapse, join_path}

drop_while_idempotent : (p : ℕ → Bool) (s : Text) → drop_while p (drop_while p s) ≡ drop_while p s
unfolding drop_while
drop_while_idempotent p [] = refl
drop_while_idempotent p (c ∷ s) = elim (Bool-cases (p c)) [
  | inl h ↦ rw h (drop_while_idempotent p s)
  | inr h ↦ rw h (rw h)
]

drop_end_while_idempotent :
    (p : ℕ → Bool) (s : Text) → drop_end_while p (drop_end_while p s) ≡ drop_end_while p s
unfolding drop_end_while
drop_end_while_idempotent p s =
    rw (reverse-reverse) (ap reverse (drop_while_idempotent p (reverse s)))

normalize_folder_path_of_stripped :
    (s : Text)
    → drop_end_while is_slash s ≡ s
    → normalize_folder_path (or_text s (slash ∷ [])) ≡ or_text s (slash ∷ [])
unfolding normalize_folder_path
normalize_folder_path_of_stripped [] h = refl
normalize_folder_path_of_stripped (c ∷ s) h = ap (λ t. or_text t (slash ∷ [])) h

-- Normalising a path twice is normalising it once.
pub normalize_folder_path_idempotent :
    (path : Text) → normalize_folder_path (normalize_folder_path path) ≡ normalize_folder_path path
unfolding normalize_folder_path
normalize_folder_path_idempotent path =
    normalize_folder_path_of_stripped (drop_end_while is_slash path)
      (drop_end_while_idempotent is_slash path)

-- Joining to a folder does not depend on the slashes at its end.
join_path-normalize :
    (parent name : Text) → join_path (normalize_folder_path parent) name ≡ join_path parent name
unfolding join_path
join_path-normalize parent name =
    ap (λ s. collapse (drop_last_slash s ++ slash ∷ name)) (normalize_folder_path_idempotent parent)

-- No code unit is a slash.
abbrev pub NoSlash : Text → Type 0
NoSlash s = All (λ c. is_slash c ≡ false) s

pub split_at-append :
    (cur u v : Text)
    → split_at slash cur (u ++ slash ∷ v) ≡ split_at slash cur u ++ split_at slash [] v
split_at-append cur [] v = refl
split_at-append cur (c ∷ u) v = elim (Bool-cases (is_slash c)) [
  | inl h ↦ rw h (ap (λ t. cur ∷ t) (split_at-append [] u v))
  | inr h ↦ rw h (split_at-append (cur ++ c ∷ []) u v)
]

pub split_at_of_NoSlash : (cur v : Text) → NoSlash v → split_at slash cur v ≡ (cur ++ v) ∷ []
split_at_of_NoSlash cur [] h = ap (λ t. t ∷ []) (sym (append-nil cur))
split_at_of_NoSlash cur (c ∷ v) (h, k) =
    rw h (split_at_of_NoSlash (cur ++ c ∷ []) v k ∙ ap (λ t. t ∷ []) (append_assoc cur (c ∷ []) v))

collapse_keeps :
    (u v : Text) → NoSlash v → (w : Text) × (collapse (u ++ slash ∷ v) ≡ w ++ slash ∷ v)
unfolding collapse
collapse_keeps [] [] h = ([], refl)
collapse_keeps [] (c ∷ v) (h, k) = ([], rw h)
collapse_keeps (c ∷ []) v h =
    if_cases (λ t. (w : Text) × (t ≡ w ++ slash ∷ v)) (is_slash c && is_slash slash)
      (λ e. ([], refl)) (λ e. (c ∷ [], refl))
collapse_keeps (c ∷ d ∷ u) v h =
    if_cases (λ t. (w : Text) × (t ≡ w ++ slash ∷ v)) (is_slash c && is_slash d)
      (λ e. (d ∷ u, refl)) (λ e. (c ∷ d ∷ u, refl))

-- A name without slashes is got back as the last part of the joined path, as
-- `path.split('/').pop()` computes it.
get_last?-split-join_path :
    (parent name : Text)
    → NoSlash name
    → get_last? (split slash (join_path parent name)) ≡ some name
unfolding join_path split
get_last?-split-join_path parent name h =
    let (w, e) = collapse_keeps (drop_last_slash (normalize_folder_path parent)) name h in
    let parts =
      split_at-append [] w name
      ∙ ap (λ t. split_at slash [] w ++ t) (split_at_of_NoSlash [] name h) in
    rw (e, parts) (get_last?-concat (split_at slash [] w) name)
