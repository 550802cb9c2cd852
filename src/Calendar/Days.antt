-- ===== src/Calendar/Days.antt =====
-- Lists of days.
use mathlib.Core.List.{append-nil, append_assoc}
use volum.Base.{
  length, length-append, ℕ, zero, suc, ◌+◌, ◌≡◌, refl, sym, ap, ◌∙◌, List, [], ◌∷◌, ◌++◌, arith,
}

-- The numbers from `d` on.
abbrev pub days_from : ℕ → ℕ → List ℕ
days_from d zero = []
days_from d (suc n) = d ∷ days_from (d + 1) n

abbrev pub joined : List (List ℕ) → List ℕ
joined [] = []
joined (w ∷ ws) = w ++ joined ws

pub joined-append : (ws : List (List ℕ)) (w : List ℕ) → joined (ws ++ w ∷ []) ≡ joined ws ++ w
joined-append [] w = append-nil w
joined-append (v ∷ ws) w =
    ap (λ l. v ++ l) (joined-append ws w) ∙ sym (append_assoc v (joined ws) w)

pub days_from-add : (a b d : ℕ) → days_from d a ++ days_from (d + a) b ≡ days_from d (a + b)
days_from-add zero b d =
    let same : d + 0 ≡ d = omega arith in let sum : 0 + b ≡ b = omega arith in rw (same, sum) refl
days_from-add (suc a) b d =
    let next : d + suc a ≡ d + 1 + a = omega arith in
    let sum : suc a + b ≡ suc (a + b) = omega arith in
    rw (next, sum) (ap (λ l. d ∷ l) (days_from-add a b (d + 1)))

length-days_from : (k d : ℕ) → length (days_from d k) ≡ k
length-days_from zero d = refl
length-days_from (suc k) d = ap suc (length-days_from k (d + 1))

pub length-fill : (w : List ℕ) (k d : ℕ) → length (w ++ days_from d k) ≡ length w + k
length-fill w k d = length-append w (days_from d k) ∙ ap (λ n. length w + n) (length-days_from k d)
