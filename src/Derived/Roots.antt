-- ===== src/Derived/Roots.antt =====
-- The root that a path lies in, and the root that is opened first.
use volum.Base.{
  Bool-cases, or_else, get_elem?, find, any, Text, starts_with, is_empty, ℕ, zero, suc, ◌≡◌, refl,
  sym, ap, ◌∙◌, inl, inr, Bool, true, false, ◌&&◌, none, some, List, [], ◌∷◌, ◌++◌, arith,
}
use volum.Entries.{RootEntry}
use volum.Derived.{current_root, default_root_path}

find_of_any {ℓ} :
    {A : Type ℓ}
    → (p : A → Bool) (xs : List A) → any p xs ≡ true
    → (x : A) × ((k : ℕ) × (get_elem? xs k ≡ some x)) × (p x ≡ true) × (find p xs ≡ some x)
find_of_any p [] h = absurd (ground (arith, h))
find_of_any p (x ∷ xs) h = elim (Bool-cases (p x)) [
  | inl e ↦ (x, (0, refl), e, rw e refl)
  | inr e ↦
      let (y, (k, at), q, f) = find_of_any p xs (ground (arith, h, e)) in
      (y, (suc k, at), q, rw (e, f) refl)
]

find_of_none {ℓ} : {A : Type ℓ} → (p : A → Bool) (xs : List A) → any p xs ≡ false → find p xs ≡ none
find_of_none p [] h = refl
find_of_none p (x ∷ xs) h = ground (arith, h, find_of_none p xs)

false_of_any {ℓ} :
    {A : Type ℓ}
    → (p : A → Bool) (xs : List A) (k : ℕ) (x : A) → any p xs ≡ false
    → get_elem? xs k ≡ some x
    → p x ≡ false
false_of_any p [] k x h e = absurd (cc)
false_of_any p (y ∷ ys) zero x h e = ap p (sym (ap (λ o. or_else o y) e)) ∙ ground (arith, h)
false_of_any p (y ∷ ys) (suc k) x h e = false_of_any p ys k x (ground (arith, h)) e

abbrev pub is_home_available : RootEntry → Bool
is_home_available r = r.is_home && r.available

-- If some root is available, the one that is opened is available, and it is a home exactly when
-- some home is available.
default_root_path-available :
    (roots : List RootEntry)
    → any (λ r. r.available) roots ≡ true
    → (r : RootEntry) × ((k : ℕ) × (get_elem? roots k ≡ some r))
      × (default_root_path roots ≡ r.path)
      × (r.available ≡ true)
      × (r.is_home ≡ any is_home_available roots)
unfolding default_root_path
default_root_path-available roots h = elim (Bool-cases (any is_home_available roots)) [
  | inl e ↦
      let (r, at, p, f) = find_of_any is_home_available roots e in
      (r, at, rw f refl, ground (arith, p), rw e (ground (arith, p)))
  | inr e ↦
      let (r, at, p, f) = find_of_any (λ r. r.available) roots h in
      (
        r,
        at,
        rw (find_of_none is_home_available roots e, f) refl,
        p,
        rw e (ground (arith, p, false_of_any is_home_available roots at.0 r e at.1)),
      )
]

starts_with-append : (s t : Text) → starts_with (s ++ t) s ≡ true
unfolding starts_with
starts_with-append [] [] = refl
starts_with-append [] (c ∷ t) = refl
starts_with-append (c ∷ s) t = ground (arith, starts_with-append s t)

-- The first root is taken as that of every path that its path is the beginning of, whether or not
-- a slash follows.
current_root-append :
    (r : RootEntry) (roots : List RootEntry) (t : Text)
    → is_empty (r.path ++ t) ≡ false
    → current_root (r.path ++ t) (r ∷ roots) ≡ some r
unfolding current_root
current_root-append r roots t h = rw (h, starts_with-append r.path t) refl
