-- ===== src/Base/Decimal.antt =====
-- Numbers as decimal text, as template literals write them.
use Prim.Native.Nat.{ℕ, zero, suc, ◌+◌, ◌-◌, ◌*◌, ◌/◌, ◌%◌, ◌≤◌, ◌<◌}
use mathlib.Core.Path.{◌≡◌, refl, sym, ap, ◌∙◌}
use mathlib.Core.List.{[], ◌∷◌, ◌++◌}
use native.Mathlib.Omega.{arith}
use volum.Base.Logic.{ltb, if◌then◌else◌, if_cases, ltb→lt, ltb→le}
use volum.Base.Lists.{All, All-append}
use volum.Base.Strings.{Text}

-- The digits of a number, with fuel for its length.
pub print_digits : ℕ → ℕ → Text
print_digits zero n = []
print_digits (suc fuel) n =
    let front = print_digits fuel (n / 10) in
    if ltb n 10 then (48 + n) ∷ [] else front ++ (48 + n % 10) ∷ []

unfoldable pub print : ℕ → Text
unfolding print_digits
print n = print_digits (suc n) n

parse_from : ℕ → Text → ℕ
parse_from acc [] = acc
parse_from acc (c ∷ s) = parse_from (acc * 10 + (c - 48)) s

parse_from-append :
    (acc : ℕ) (s : Text) (c : ℕ) → parse_from acc (s ++ c ∷ []) ≡ parse_from acc s * 10 + (c - 48)
unfolding parse_from
parse_from-append acc [] c = refl
parse_from-append acc (d ∷ s) c = parse_from-append (acc * 10 + (d - 48)) s c

parse-print_digits : (fuel n : ℕ) → n < fuel → parse_from 0 (print_digits fuel n) ≡ n
unfolding print_digits parse_from
parse-print_digits zero n h = absurd (omega arith)
parse-print_digits (suc fuel) n h =
    if_cases (λ s. parse_from 0 s ≡ n) (ltb n 10) (λ _. omega arith)
      (λ long.
        parse_from-append 0 (print_digits fuel (n / 10)) (48 + n % 10)
        ∙ let big = ltb→le n 10 long in
          omega (arith, parse-print_digits fuel (n / 10) (omega arith)))

-- Different numbers are written differently.
pub print-injective : (m n : ℕ) → print m ≡ print n → m ≡ n
unfolding print
print-injective m n e =
    sym (parse-print_digits (suc m) m (omega arith))
    ∙ ap (parse_from 0) e
    ∙ parse-print_digits (suc n) n (omega arith)

-- The code unit is a digit, and so not a dash.
abbrev pub IsDigit : ℕ → Type 0
IsDigit c = (48 ≤ c) × (c ≤ 57)

print_digits-IsDigit : (fuel n : ℕ) → All IsDigit (print_digits fuel n)
unfolding print_digits
print_digits-IsDigit zero n = tt
print_digits-IsDigit (suc fuel) n =
    if_cases (All IsDigit) (ltb n 10)
      (λ short. let small = ltb→lt n 10 short in ((omega arith, omega arith), tt))
      (λ _.
        All-append IsDigit (print_digits fuel (n / 10)) _ (print_digits-IsDigit fuel (n / 10))
          ((omega arith, omega arith), tt))

pub print-IsDigit : (n : ℕ) → All IsDigit (print n)
unfolding print
print-IsDigit n = print_digits-IsDigit (suc n) n
