-- ===== src/Renaming/Replaced.antt =====
-- What the patterns make of a name.
use volum.Base.{
  Bool-cases, length, take, drop, Text, starts_with, is_empty, ℕ, zero, suc, ◌-◌, ◌≡◌, refl, ap,
  ap₂, ◌⊎◌, inl, inr, true, false, [], ◌∷◌, ◌++◌, arith,
}
use volum.Derived.{contains}
use volum.Renaming.{
  Fields, PatternType, replaced_from, replace_all, base_of, ext_of, new_name_of, new_base,
}

take-drop : (n : ℕ) (s : Text) → take n s ++ drop n s ≡ s
take-drop zero s = refl
take-drop (suc n) [] = refl
take-drop (suc n) (c ∷ s) = ap (λ l. c ∷ l) (take-drop n s)

starts_with-drop : (s f : Text) → starts_with s f ≡ true → f ++ drop (length f) s ≡ s
unfolding starts_with
starts_with-drop s [] h = refl
starts_with-drop [] (d ∷ f) h = absurd (ground (arith, h))
starts_with-drop (c ∷ s) (d ∷ f) h =
    let first : d ≡ c = ground (arith, h) in
    ap₂ (λ (a : ℕ) (l : Text). a ∷ l) first (starts_with-drop s f (ground (arith, h)))

replaced_from-same :
    (f : Text) (k : ℕ) (s : Text) → is_empty f ≡ false → replaced_from f f k s ≡ drop k s
unfolding replaced_from
replaced_from-same f zero [] h = refl
replaced_from-same f (suc k) [] h = refl
replaced_from-same f (suc k) (c ∷ s) h = replaced_from-same f k s h
replaced_from-same [] zero (c ∷ s) h = absurd (ground (arith, h))
replaced_from-same (d ∷ f) zero (c ∷ s) h =
    let before : suc (length f) - 1 ≡ length f = omega arith in
    elim (Bool-cases (starts_with (c ∷ s) (d ∷ f))) [
      | inl e ↦
          rw (e, before, replaced_from-same (d ∷ f) (length f) s h)
            (starts_with-drop (c ∷ s) (d ∷ f) e)
      | inr e ↦ rw e (ap (λ l. c ∷ l) (replaced_from-same (d ∷ f) 0 s h))
    ]

replaced_from-missing : (f r s : Text) → contains s f ≡ false → replaced_from f r 0 s ≡ s
unfolding replaced_from contains
replaced_from-missing f r [] h = refl
replaced_from-missing f r (c ∷ s) h =
    let here : starts_with (c ∷ s) f ≡ false = ground (arith, h) in
    rw here (ap (λ l. c ∷ l) (replaced_from-missing f r s (ground (arith, h))))

-- A name keeps its form under the replacement of a non-empty text, when it is replaced by itself or
-- does not occur in the part of the name before the extension.
new_name_of-replace :
    (change_case : Text → Text) (p : Fields) (name : Text)
    → p.pattern_type ≡ PatternType.replace
    → is_empty p.find ≡ false
    → (p.replacement ≡ p.find) ⊎ (contains (base_of name) p.find ≡ false)
    → new_name_of change_case p name ≡ name
unfolding new_name_of new_base replace_all base_of ext_of
new_name_of-replace change_case p name h full (inl e) =
    rw (h, e, full, replaced_from-same p.find 0 (base_of name) full) (take-drop _ name)
new_name_of-replace change_case p name h full (inr e) =
    rw (h, full, replaced_from-missing p.find p.replacement (base_of name) e) (take-drop _ name)
