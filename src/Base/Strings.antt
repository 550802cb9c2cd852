-- ===== src/Base/Strings.antt =====
-- JavaScript strings as their code units, with the string methods that the source calls.
use Prim.Native.Nat.{ℕ}
use Prim.Native.Char.{code}
use Prim.Native.String.{String}
use mathlib.Core.Path.{◌≡◌, refl, ap}
use mathlib.Core.Logic.{◌↔◌, inl, inr}
use mathlib.Core.Bool.{Bool, true, false, ◌&&◌, ◌||◌}
use mathlib.Core.List.{List, [], ◌∷◌, ◌++◌, map, reverse}
use native.Mathlib.Omega.{arith}
use volum.Base.Lists.{filter}
use volum.Base.Logic.{Bool-cases, ◌==◌, leb, if◌then◌else◌}

abbrev pub Text : Type 0
Text = List ℕ

-- The code units of an ASCII literal.
abbrev pub codes : String → Text
codes String.[] = []
codes (String.◌∷◌ c s) = code c ∷ codes s

-- `a === b`
unfoldable pub text_eq : Text → Text → Bool
text_eq [] [] = true
text_eq [] (d ∷ t) = false
text_eq (c ∷ s) [] = false
text_eq (c ∷ s) (d ∷ t) = c == d && text_eq s t

pub text_eq_iff : (s t : Text) → (text_eq s t ≡ true) ↔ (s ≡ t)
unfolding text_eq
text_eq_iff [] [] = ground arith
text_eq_iff [] (d ∷ t) = ground arith
text_eq_iff (c ∷ s) [] = ground arith
text_eq_iff (c ∷ s) (d ∷ t) = ground (arith, text_eq_iff s t)

pub text_eq_refl : (s : Text) → text_eq s s ≡ true
text_eq_refl s = (text_eq_iff s s).1 refl

-- `xs.includes(a)`
unfoldable pub includes : List Text → Text → Bool
includes [] a = false
includes (x ∷ xs) a = text_eq x a || includes xs a

-- No text stands twice in the list.
abbrev pub IsDistinct : List Text → Type 0
IsDistinct [] = Unit
IsDistinct (x ∷ xs) = (includes xs x ≡ false) × IsDistinct xs

-- `s.startsWith(t)`
unfoldable pub starts_with : Text → Text → Bool
starts_with s [] = true
starts_with [] (d ∷ t) = false
starts_with (c ∷ s) (d ∷ t) = c == d && starts_with s t

-- `s.endsWith(t)`
unfoldable pub ends_with : Text → Text → Bool
unfolding starts_with
ends_with s t = starts_with (reverse s) (reverse t)

-- The empty string is the only falsy one.
abbrev pub is_empty {ℓ} : {A : Type ℓ} → List A → Bool
is_empty [] = true
is_empty (c ∷ s) = false

-- `s || d`
abbrev pub or_text : Text → Text → Text
or_text [] d = d
or_text (c ∷ s) d = c ∷ s

-- White space and line terminators of ECMAScript, which `trim` strips.
unfoldable pub is_space : ℕ → Bool
is_space c =
    leb 9 c && leb c 13
    || c == 32
    || c == 160
    || c == 0x1680
    || leb 0x2000 c && leb c 0x200a
    || c == 0x2028
    || c == 0x2029
    || c == 0x202f
    || c == 0x205f
    || c == 0x3000
    || c == 0xfeff

-- The longest suffix that does not begin with a code unit that passes the test.
unfoldable pub drop_while : (ℕ → Bool) → Text → Text
drop_while p [] = []
drop_while p (c ∷ s) = if p c then drop_while p s else c ∷ s

-- Strips the code units at the end that pass the test.
unfoldable pub drop_end_while : (ℕ → Bool) → Text → Text
unfolding drop_while
drop_end_while p s = reverse (drop_while p (reverse s))

-- `s.trim()`
unfoldable pub trim : Text → Text
unfolding drop_while drop_end_while is_space
trim s = drop_end_while is_space (drop_while is_space s)

abbrev pub split_at : ℕ → Text → Text → List Text
split_at sep cur [] = cur ∷ []
split_at sep cur (c ∷ s) =
    let closed = cur ∷ split_at sep [] s in
    let longer = split_at sep (cur ++ c ∷ []) s in if c == sep then closed else longer

-- `s.split(sep)` at a separator of one code unit.
unfoldable pub split : ℕ → Text → List Text
split sep s = split_at sep [] s

pub includes-append :
    (xs ys : List Text) (a : Text) → includes (xs ++ ys) a ≡ (includes xs a || includes ys a)
unfolding includes
includes-append [] ys a = refl
includes-append (x ∷ xs) ys a = ground (arith, includes-append xs ys a)

pub and_of_text_eq : (g : Text → Bool) (x a : Text) → (text_eq x a && g x) ≡ (text_eq x a && g a)
and_of_text_eq g x a = elim (Bool-cases (text_eq x a)) [
  | inl h ↦ rw h (ap g ((text_eq_iff x a).0 h))
  | inr h ↦ rw h refl
]

pub text_eq_comm : (s t : Text) → text_eq s t ≡ text_eq t s
unfolding text_eq
text_eq_comm [] [] = refl
text_eq_comm [] (d ∷ t) = refl
text_eq_comm (c ∷ s) [] = refl
text_eq_comm (c ∷ s) (d ∷ t) = ground (arith, text_eq_comm s t)

-- A new text at the end keeps the texts distinct.
pub IsDistinct-concat :
    (xs : List Text) (a : Text) → IsDistinct xs → includes xs a ≡ false → IsDistinct (xs ++ a ∷ [])
unfolding includes
IsDistinct-concat [] a d h = (refl, tt)
IsDistinct-concat (x ∷ xs) a (new, d) h = ground (
  arith,
  IsDistinct-concat xs a d,
  includes-append xs (a ∷ []) x,
  text_eq_iff x a,
  text_eq_iff a x,
)

module _ {ℓ} {A : Type ℓ} (key : A → Text) (p : A → Bool) where
  pub includes-filter :
      (xs : List A) (a : Text)
      → includes (map key xs) a ≡ false
      → includes (map key (filter p xs)) a ≡ false
  unfolding includes
  includes-filter [] a h = refl
  includes-filter (x ∷ xs) a h = ground (arith, includes-filter xs a)

  -- Leaving elements out keeps their keys distinct.
  pub IsDistinct-filter :
      (xs : List A) → IsDistinct (map key xs) → IsDistinct (map key (filter p xs))
  IsDistinct-filter [] d = tt
  IsDistinct-filter (x ∷ xs) (new, d) =
      ground (arith, IsDistinct-filter xs d, includes-filter xs (key x) new)
