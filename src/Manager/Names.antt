-- ===== src/Manager/Names.antt =====
-- The identifiers that `toggleWindow` makes tell the type and the count apart.
use mathlib.Core.List.{tail-eq_of_cons-eq}
use volum.Base.{
  ℕ, ◌≡◌, refl, sym, subst, [], ◌∷◌, ◌++◌, Text, arith, All, print, print-injective, IsDigit,
  print-IsDigit,
}
use volum.Manager.{window_id}

not-All-IsDigit : (s rest : Text) → ¬ All IsDigit (s ++ b'-' ∷ rest)
not-All-IsDigit [] rest h = absurd (omega arith)
not-All-IsDigit (c ∷ s) rest h = not-All-IsDigit s rest h.1

dash_split :
    (s t u v : Text)
    → All IsDigit u
    → All IsDigit v
    → s ++ b'-' ∷ u ≡ t ++ b'-' ∷ v
    → (s ≡ t) × (u ≡ v)
dash_split [] [] u v h k e = (refl, cc)
dash_split [] (d ∷ t) u v h k e =
    absurd (not-All-IsDigit t v (subst (All IsDigit) (tail-eq_of_cons-eq e) h))
dash_split (c ∷ s) [] u v h k e =
    absurd (not-All-IsDigit s u (subst (All IsDigit) (sym (tail-eq_of_cons-eq e)) k))
dash_split (c ∷ s) (d ∷ t) u v h k e =
    let (p, q) = dash_split s t u v h k (tail-eq_of_cons-eq e) in (cc, q)

-- Two windows get the same identifier only for the same type and the same count.
pub window_id-injective : (s t : Text) (m n : ℕ) → window_id s m ≡ window_id t n → (s ≡ t) × (m ≡ n)
unfolding window_id
window_id-injective s t m n e =
    let (p, q) = dash_split s t (print m) (print n) (print-IsDigit m) (print-IsDigit n) e in
    (p, print-injective m n q)
