-- ===== src/Analyzer/Groups.antt =====
-- The groups of the duplicate files, and which files each one has.
use mathlib.Core.List.{append-nil, append_assoc}
use volum.Base.{
  ◌==◌, if◌then◌else◌, filter, any, ℕ, ◌≡◌, refl, sym, ◌∙◌, Bool, true, false, ◌||◌, List, [], ◌∷◌,
  ◌++◌, arith, sort, insert, any-sort,
}
use volum.Analyzer.Duplicates.{
  DuplicateFile, Group, add_to_group, groups_from, later_group, duplicate_groups,
}

-- The files of a group, by its number.
abbrev pub files_of : ℕ → List Group → List DuplicateFile
files_of id [] = []
files_of id (g ∷ groups) = if g.0 == id then g.1 else files_of id groups

abbrev pub in_group : ℕ → DuplicateFile → Bool
in_group id r = r.group_id == id

-- No two groups have the same number.
abbrev pub HasDistinctGroups : List Group → Type 0
HasDistinctGroups [] = Unit
HasDistinctGroups (g ∷ groups) = (any (λ h. h.0 == g.0) groups ≡ false) × HasDistinctGroups groups

files_of-add_to_group :
    (id : ℕ) (r : DuplicateFile) (groups : List Group)
    → files_of id (add_to_group r groups)
      ≡ (if r.group_id == id then files_of id groups ++ r ∷ [] else files_of id groups)
files_of-add_to_group id r [] = ground arith
files_of-add_to_group id r (g ∷ groups) = ground (arith, files_of-add_to_group id r groups)

any-add_to_group :
    (id : ℕ) (r : DuplicateFile) (groups : List Group)
    → any (λ h. h.0 == id) (add_to_group r groups)
      ≡ (any (λ h. h.0 == id) groups || r.group_id == id)
any-add_to_group id r [] = ground arith
any-add_to_group id r (g ∷ groups) = ground (arith, any-add_to_group id r groups)

add_to_group-HasDistinctGroups :
    (r : DuplicateFile) (groups : List Group)
    → HasDistinctGroups groups
    → HasDistinctGroups (add_to_group r groups)
add_to_group-HasDistinctGroups r [] d = (refl, tt)
add_to_group-HasDistinctGroups r (g ∷ groups) d =
    ground (arith, add_to_group-HasDistinctGroups r groups d.1, any-add_to_group g.0 r groups)

groups_from-HasDistinctGroups :
    (groups : List Group) (rs : List DuplicateFile)
    → HasDistinctGroups groups
    → HasDistinctGroups (groups_from groups rs)
groups_from-HasDistinctGroups groups [] d = d
groups_from-HasDistinctGroups groups (r ∷ rs) d =
    groups_from-HasDistinctGroups (add_to_group r groups) rs
      (add_to_group-HasDistinctGroups r groups d)

append_if :
    (b : Bool) (fs : List DuplicateFile) (r : DuplicateFile) (rs : List DuplicateFile)
    → (if b then fs ++ r ∷ [] else fs) ++ rs ≡ fs ++ (if b then r ∷ rs else rs)
append_if true fs r rs = append_assoc fs (r ∷ []) rs
append_if false fs r rs = refl

files_of-groups_from :
    (id : ℕ) (groups : List Group) (rs : List DuplicateFile)
    → files_of id (groups_from groups rs) ≡ files_of id groups ++ filter (in_group id) rs
files_of-groups_from id groups [] = sym (append-nil (files_of id groups))
files_of-groups_from id groups (r ∷ rs) =
    files_of-groups_from id (add_to_group r groups) rs
    ∙ rw (files_of-add_to_group id r groups)
        (append_if (r.group_id == id) (files_of id groups) r (filter (in_group id) rs))

files_of-insert :
    (id : ℕ) (g : Group) (groups : List Group)
    → any (λ h. h.0 == g.0) groups ≡ false
    → files_of id (insert later_group g groups) ≡ (if g.0 == id then g.1 else files_of id groups)
files_of-insert id g [] new = refl
files_of-insert id g (h ∷ groups) new = ground (arith, new, files_of-insert id g groups)

files_of-sort :
    (id : ℕ) (groups : List Group)
    → HasDistinctGroups groups
    → files_of id (sort later_group groups) ≡ files_of id groups
unfolding sort
files_of-sort id [] d = refl
files_of-sort id (g ∷ groups) d =
    files_of-insert id g (sort later_group groups)
      (any-sort later_group (λ h. h.0 == g.0) groups ∙ d.0)
    ∙ ground (arith, files_of-sort id groups d.1)

-- A group holds exactly the files with its number, in the order of the results.
pub files_of-duplicate_groups :
    (id : ℕ) (results : List DuplicateFile)
    → files_of id (duplicate_groups results) ≡ filter (in_group id) results
unfolding duplicate_groups
files_of-duplicate_groups id results =
    files_of-sort id (groups_from [] results) (groups_from-HasDistinctGroups [] results tt)
    ∙ files_of-groups_from id [] results
