-- ===== src/Desktop/Order.antt =====
-- Where a dropped icon comes to stand.
use volum.Base.{
  Bool-cases, or_else, length, get_elem?, filter, Text, text_eq, IsDistinct, is_empty, text_eq_refl,
  ℕ, zero, suc, ◌≤◌, ◌<◌, ◌≡◌, refl, ap, ◌∙◌, inl, inr, Bool, false, not, some, List, [], ◌∷◌,
  arith, index_of-get_elem?,
}
use volum.Desktop.{Desktop, moved, handle_drop, insert_at, remove_at}

filter-remove_at :
    (q : Text → Bool) (xs : List Text) (i : ℕ) (a : Text)
    → get_elem? xs i ≡ some a
    → q a ≡ false
    → filter q (remove_at i xs) ≡ filter q xs
filter-remove_at q [] i a h k = absurd (cc)
filter-remove_at q (x ∷ xs) zero a h k =
    let e : x ≡ a = ap (λ o. or_else o x) h in rw (ap q e, k) refl
filter-remove_at q (x ∷ xs) (suc i) a h k =
    let rest = filter-remove_at q xs i a h k in
    elim (Bool-cases (q x)) [ inl e ↦ rw e (ap (λ l. x ∷ l) rest) | inr e ↦ rw e rest ]

filter-insert_at :
    (q : Text → Bool) (xs : List Text) (i : ℕ) (a : Text)
    → q a ≡ false
    → filter q (insert_at i a xs) ≡ filter q xs
filter-insert_at q [] zero a k = rw k refl
filter-insert_at q [] (suc i) a k = rw k refl
filter-insert_at q (x ∷ xs) zero a k = rw k refl
filter-insert_at q (x ∷ xs) (suc i) a k =
    let rest = filter-insert_at q xs i a k in
    elim (Bool-cases (q x)) [ inl e ↦ rw e (ap (λ l. x ∷ l) rest) | inr e ↦ rw e rest ]

get_elem?-insert_at :
    (xs : List Text) (i : ℕ) (a : Text) → i ≤ length xs → get_elem? (insert_at i a xs) i ≡ some a
get_elem?-insert_at [] zero a h = refl
get_elem?-insert_at [] (suc i) a h = absurd (omega (arith, h))
get_elem?-insert_at (x ∷ xs) zero a h = refl
get_elem?-insert_at (x ∷ xs) (suc i) a h = get_elem?-insert_at xs i a (omega (arith, h))

length-remove_at :
    (xs : List Text) (i : ℕ) (a : Text)
    → get_elem? xs i ≡ some a
    → suc (length (remove_at i xs)) ≡ length xs
length-remove_at [] i a h = absurd (cc)
length-remove_at (x ∷ xs) zero a h = refl
length-remove_at (x ∷ xs) (suc i) a h = ap suc (length-remove_at xs i a h)

lt-length_of_get_elem? :
    (xs : List Text) (i : ℕ) (a : Text) → get_elem? xs i ≡ some a → i < length xs
lt-length_of_get_elem? [] i a h = absurd (cc)
lt-length_of_get_elem? (x ∷ xs) zero a h = omega arith
lt-length_of_get_elem? (x ∷ xs) (suc i) a h = omega (arith, lt-length_of_get_elem? xs i a h)

-- An icon that is dropped on another one comes to stand at the place of that one, and the others
-- keep their order.
icon_order-handle_drop :
    (ids : List Text) (i j : ℕ) (a b : Text) (d : Desktop)
    → IsDistinct ids
    → get_elem? ids i ≡ some a
    → get_elem? ids j ≡ some b
    → text_eq a b ≡ false
    → is_empty a ≡ false
    → let next = Desktop.icon_order (handle_drop ids a b d) in
      (get_elem? next j ≡ some a)
      × (filter (λ id. not (text_eq id a)) next ≡ filter (λ id. not (text_eq id a)) ids)
unfolding handle_drop moved
icon_order-handle_drop ids i j a b d distinct p q other full =
    let gone : not (text_eq a a) ≡ false = ap not (text_eq_refl a) in
    rw (full, other, index_of-get_elem? ids i a distinct p, index_of-get_elem? ids j b distinct q)
      (
        get_elem?-insert_at (remove_at i ids) j a
            (omega (arith, length-remove_at ids i a p, lt-length_of_get_elem? ids j b q)),
        filter-insert_at (λ id. not (text_eq id a)) (remove_at i ids) j a gone
            ∙ filter-remove_at (λ id. not (text_eq id a)) ids i a p gone,
      )
