-- ===== src/Base/Positions.antt =====
-- Positions in lists of texts: the index of a text, and which texts a slice holds.
use mathlib.Core.List.{◌++◌, List, [], ◌∷◌}
use mathlib.Core.Path.{◌∙◌, ◌≡◌, refl, sym, ap}
use mathlib.Core.Bool.{Bool, ◌||◌, true, false, ◌&&◌}
use mathlib.Core.Logic.{inl, inr}
use mathlib.Core.Option.{Option, none, some}
use Prim.Native.Nat.{ℕ, zero, suc, ◌+◌, ◌-◌, min, max}
use native.Mathlib.Omega.{arith}
use volum.Base.Logic.{ltb, leb, Bool-cases, if◌then◌else◌, or_else}
use volum.Base.Lists.{All, get_elem?, take, drop, filter}
use volum.Base.Strings.{
  text_eq_refl, Text, text_eq, includes, IsDistinct, text_eq_iff, and_of_text_eq, includes-append,
}

abbrev pub next_index : Option ℕ → Option ℕ
next_index none = none
next_index (some i) = some (suc i)

-- `xs.indexOf(a)`, missing where it is -1.
abbrev pub index_of : Text → List Text → Option ℕ
index_of a [] = none
index_of a (x ∷ xs) = if text_eq x a then some 0 else next_index (index_of a xs)

-- The slice from the one index to the other, whichever comes first, both included.
unfoldable pub between : List Text → ℕ → ℕ → List Text
between xs i j = if ltb i j then take (j + 1 - i) (drop i xs) else take (i + 1 - j) (drop j xs)

includes-take-drop-false :
    (xs : List Text) (m n : ℕ) (a : Text)
    → includes xs a ≡ false
    → includes (take n (drop m xs)) a ≡ false
unfolding includes
includes-take-drop-false [] zero zero a h = refl
includes-take-drop-false [] zero (suc n) a h = refl
includes-take-drop-false [] (suc m) zero a h = refl
includes-take-drop-false [] (suc m) (suc n) a h = refl
includes-take-drop-false (x ∷ xs) zero zero a h = refl
includes-take-drop-false (x ∷ xs) zero (suc n) a h =
    ground (arith, includes-take-drop-false xs zero n a)
includes-take-drop-false (x ∷ xs) (suc m) n a h =
    includes-take-drop-false xs m n a (ground (arith, h))

first_eq : (x a : Text) (xs : List Text) → get_elem? (x ∷ xs) 0 ≡ some a → text_eq x a ≡ true
first_eq x a xs h = (text_eq_iff x a).1 (ap (λ o. or_else o x) h)

includes-get_elem? :
    (xs : List Text) (k : ℕ) (a : Text) → get_elem? xs k ≡ some a → includes xs a ≡ true
unfolding includes
includes-get_elem? [] k a h = absurd (cc)
includes-get_elem? (x ∷ xs) zero a h = ground (arith, first_eq x a xs h)
includes-get_elem? (x ∷ xs) (suc k) a h = ground (arith, includes-get_elem? xs k a h)

later_not_eq :
    (x a : Text) (xs : List Text) (k : ℕ)
    → includes xs x ≡ false
    → get_elem? xs k ≡ some a
    → text_eq x a ≡ false
later_not_eq x a xs k new h = elim (Bool-cases (text_eq x a)) [
  | inl p ↦ absurd (
      ground
        (arith, new, includes-get_elem? xs k a h, ap (λ t. includes xs t) ((text_eq_iff x a).0 p)))
  | inr p ↦ p
]

-- In a list of distinct texts, the text at an index is in a slice exactly when the index is.
pub includes-take-drop :
    (xs : List Text) (m n k : ℕ) (a : Text)
    → IsDistinct xs
    → get_elem? xs k ≡ some a
    → includes (take n (drop m xs)) a ≡ (leb m k && ltb k (m + n))
unfolding includes
includes-take-drop [] m n k a d h = absurd (cc)
includes-take-drop (x ∷ xs) zero zero k a d h = ground arith
includes-take-drop (x ∷ xs) zero (suc n) zero a d h = ground (arith, first_eq x a xs h)
includes-take-drop (x ∷ xs) zero (suc n) (suc k) a d h =
    ground (arith, includes-take-drop xs 0 n k a d.1 h, later_not_eq x a xs k d.0 h)
includes-take-drop (x ∷ xs) (suc m) n zero a d h =
    rw (sym ((text_eq_iff x a).0 (first_eq x a xs h)))
      (ground (arith, includes-take-drop-false xs m n x d.0))
includes-take-drop (x ∷ xs) (suc m) n (suc k) a d h =
    ground (arith, includes-take-drop xs m n k a d.1 h)

pub index_of-get_elem? :
    (xs : List Text) (k : ℕ) (a : Text)
    → IsDistinct xs
    → get_elem? xs k ≡ some a
    → index_of a xs ≡ some k
index_of-get_elem? [] k a d h = absurd (cc)
index_of-get_elem? (x ∷ xs) zero a d h = rw (first_eq x a xs h) refl
index_of-get_elem? (x ∷ xs) (suc k) a d h =
    rw (later_not_eq x a xs k d.0 h, index_of-get_elem? xs k a d.1 h) refl

pub includes-between :
    (xs : List Text) (i j k : ℕ) (a : Text)
    → IsDistinct xs
    → get_elem? xs k ≡ some a
    → includes (between xs i j) a ≡ (leb (min i j) k && leb k (max i j))
unfolding between
includes-between xs i j k a d h = ground (
  arith,
  includes-take-drop xs i (j + 1 - i) k a d h,
  includes-take-drop xs j (i + 1 - j) k a d h,
)

-- A text is in a filtered list exactly when it is in the list and passes the test.
pub includes-filter_text :
    (q : Text → Bool) (xs : List Text) (a : Text)
    → includes (filter q xs) a ≡ (includes xs a && q a)
unfolding includes
includes-filter_text q [] a = refl
includes-filter_text q (x ∷ xs) a =
    ground (arith, includes-filter_text q xs a, and_of_text_eq q x a)

includes_of_text_eq :
    (ids : List Text) (x a : Text) → text_eq x a ≡ true → includes ids x ≡ includes ids a
includes_of_text_eq ids x a h = ap (λ t. includes ids t) ((text_eq_iff x a).0 h)

-- `next.add(a)` for a set that keeps the order of insertion.
abbrev pub add_text : Text → List Text → List Text
add_text a xs = if includes xs a then xs else xs ++ a ∷ []

abbrev pub add_texts : List Text → List Text → List Text
add_texts [] xs = xs
add_texts (y ∷ ys) xs = add_texts ys (add_text y xs)

includes-add_text :
    (x : Text) (xs : List Text) (a : Text)
    → includes (add_text x xs) a ≡ (includes xs a || text_eq x a)
unfolding includes
includes-add_text x xs a = elim (Bool-cases (text_eq x a)) [
  | inl e ↦ ground (arith, e, includes-append xs (x ∷ []) a, includes_of_text_eq xs x a e)
  | inr e ↦ ground (arith, e, includes-append xs (x ∷ []) a)
]

pub includes-add_texts :
    (ys xs : List Text) (a : Text) → includes (add_texts ys xs) a ≡ (includes xs a || includes ys a)
unfolding includes
includes-add_texts [] xs a = ground arith
includes-add_texts (y ∷ ys) xs a =
    includes-add_texts ys (add_text y xs) a ∙ rw (includes-add_text y xs a) (ground arith)

pub All-of_includes :
    (P : Text → Type 0) (xs : List Text) → ((a : Text) → includes xs a ≡ true → P a) → All P xs
unfolding includes
All-of_includes P [] h = tt
All-of_includes P (x ∷ xs) h =
    (h x (ground (arith, text_eq_refl x)), All-of_includes P xs (λ a k. h a (ground (arith, k))))

pub IsDistinct-append :
    (xs ys : List Text)
    → IsDistinct xs
    → IsDistinct ys
    → All (λ x. includes ys x ≡ false) xs
    → IsDistinct (xs ++ ys)
IsDistinct-append [] ys d e h = e
IsDistinct-append (x ∷ xs) ys d e h =
    (includes-append xs ys x ∙ rw (d.0) (h.0), IsDistinct-append xs ys d.1 e h.1)

pub IsDistinct-filter_text :
    (q : Text → Bool) (xs : List Text) → IsDistinct xs → IsDistinct (filter q xs)
IsDistinct-filter_text q [] d = tt
IsDistinct-filter_text q (x ∷ xs) d =
    let rest = IsDistinct-filter_text q xs d.1 in
    ground (arith, d.0, rest, includes-filter_text q xs x)
