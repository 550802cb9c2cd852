-- ===== src/Services/Order.antt =====
-- Reordering and removing services.
use volum.Base.{
  Bool-cases, All, Text, text_eq, includes, text_eq_iff, ◌≡◌, refl, ap₂, inl, inr, true, some, List,
  [], ◌∷◌, map, arith,
}
use volum.Services.{ServiceShortcut, Services, found, ordered, reorder_services}

abbrev pub ids_of : List ServiceShortcut → List Text
ids_of services = map ServiceShortcut.id services

found_of_includes :
    (services : List ServiceShortcut) (id : Text)
    → includes (ids_of services) id ≡ true
    → (s : ServiceShortcut) × (found services id ≡ some s) × (s.id ≡ id)
unfolding includes
found_of_includes [] id h = absurd (ground (arith, h))
found_of_includes (s ∷ services) id h = elim (Bool-cases (text_eq s.id id)) [
  | inl e ↦ (s, rw e refl, (text_eq_iff s.id id).0 e)
  | inr e ↦ rw e (found_of_includes services id (ground (arith, h, e)))
]

-- Reordering by identifiers that are all known gives the services in the given order.
ids_of-reorder_services :
    (ids : List Text) (s : Services)
    → All (λ id. includes (ids_of s.services) id ≡ true) ids
    → ids_of (Services.services (reorder_services ids s)) ≡ ids
unfolding reorder_services ordered
ids_of-reorder_services [] s h = refl
ids_of-reorder_services (id ∷ ids) s h =
    let (x, at, e) = found_of_includes s.services id h.0 in
    rw at (ap₂ (λ a rest. a ∷ rest) e (ids_of-reorder_services ids s h.1))
