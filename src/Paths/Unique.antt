-- ===== src/Paths/Unique.antt =====
-- The lists of distinct folders that `uniquePaths` returns.
use volum.Base.{
  if◌then◌else◌, Bool-cases, if_cases, Text, text_eq, includes, IsDistinct, is_empty, or_text,
  drop_end_while, trim, text_eq_iff, includes-append, IsDistinct-concat, ◌≡◌, refl, sym, ◌∙◌, inl,
  inr, Bool, true, false, ◌||◌, List, [], ◌∷◌, ◌++◌, map, arith,
}
use volum.Paths.{is_slash, slash, normalize_folder_path, unique_from, unique_paths}

is_empty-or_text : (s : Text) → is_empty (or_text s (slash ∷ [])) ≡ false
is_empty-or_text [] = refl
is_empty-or_text (c ∷ s) = refl

is_empty-normalize_folder_path : (path : Text) → is_empty (normalize_folder_path path) ≡ false
unfolding normalize_folder_path
is_empty-normalize_folder_path path = is_empty-or_text (drop_end_while is_slash path)

unique_from-IsDistinct :
    (out paths : List Text) → IsDistinct out → IsDistinct (unique_from out paths)
unfolding unique_from
unique_from-IsDistinct out [] d = d
unique_from-IsDistinct out (path ∷ paths) d =
    let n = normalize_folder_path (trim path) in
    unique_from-IsDistinct (if is_empty n || includes out n then out else out ++ n ∷ []) paths (
      if_cases IsDistinct (is_empty n || includes out n) (λ e. d)
        (λ e. IsDistinct-concat out n d (ground (arith, e))))

includes-of-text_eq :
    (out : List Text) (n a : Text) (rest : Bool)
    → includes out n ≡ true
    → (includes out a || rest) ≡ (includes out a || (text_eq n a || rest))
includes-of-text_eq out n a rest h = elim (Bool-cases (text_eq n a)) [
  | inl e ↦ rw (sym ((text_eq_iff n a).0 e), h) refl
  | inr e ↦ rw e refl
]

includes-unique_from :
    (out paths : List Text) (a : Text)
    → includes (unique_from out paths) a
      ≡ (includes out a || includes (map (λ p. normalize_folder_path (trim p)) paths) a)
unfolding unique_from includes
includes-unique_from out [] a = ground arith
includes-unique_from out (path ∷ paths) a =
    let n = normalize_folder_path (trim path) in
    let rest = includes (map (λ p. normalize_folder_path (trim p)) paths) a in
    includes-unique_from (if is_empty n || includes out n then out else out ++ n ∷ []) paths a
    ∙ if_cases (λ o. (includes o a || rest) ≡ (includes out a || (text_eq n a || rest)))
        (is_empty n || includes out n)
        (λ e.
          includes-of-text_eq out n a rest
            (ground (arith, e, is_empty-normalize_folder_path (trim path))))
        (λ e. ground (arith, e, includes-append out (n ∷ []) a))

-- A path is in the result exactly when it is the normal form of a given path.
includes-unique_paths :
    (paths : List Text) (a : Text)
    → includes (unique_paths paths) a ≡ includes (map (λ p. normalize_folder_path (trim p)) paths) a
unfolding unique_paths includes
includes-unique_paths paths a = includes-unique_from [] paths a

-- No path stands twice in the result.
unique_paths-IsDistinct : (paths : List Text) → IsDistinct (unique_paths paths)
unfolding unique_paths
unique_paths-IsDistinct paths = unique_from-IsDistinct [] paths tt
