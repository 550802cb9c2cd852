-- ===== src/Picker/Walk.antt =====
-- The way back, and the way up.
use volum.Base.{
  leb, if_cases, length, take, get_last?, All, length-append, length-take, take_of_length-le,
  get_last?-concat, Text, text_eq, starts_with, split, text_eq_iff, ℕ, zero, suc, ◌-◌, ◌≤◌, ◌≡◌,
  refl, sym, ap, ◌∙◌, false, some, List, [], ◌∷◌, ◌++◌, arith,
}
use volum.Paths.{slash}
use volum.Derived.{join_slash}
use volum.Derived.Crumbs.{IsName, path_parts-join_slash}
use volum.Picker.{parent_of, go_up, Picker, Loaded, loaded, navigate_to, go_back, set_current_dir}

-- Answers, one after the other.
abbrev pub loaded_all : List Loaded → Picker → Picker
loaded_all [] p = p
loaded_all (e ∷ es) p = loaded_all es (loaded e p)

loaded_all-keeps :
    (es : List Loaded) (p : Picker)
    → ((loaded_all es p).current_dir ≡ p.current_dir) × ((loaded_all es p).history ≡ p.history)
unfolding loaded
loaded_all-keeps [] p = (refl, refl)
loaded_all-keeps (Loaded.entries x ∷ es) p = loaded_all-keeps es (loaded (Loaded.entries x) p)
loaded_all-keeps (Loaded.failed m ∷ es) p = loaded_all-keeps es (loaded (Loaded.failed m) p)

set_current_dir-keeps :
    (path : Text) (p : Picker)
    → ((set_current_dir path p).current_dir ≡ path) × ((set_current_dir path p).history ≡ p.history)
unfolding set_current_dir
set_current_dir-keeps path p =
    if_cases {A = Picker} (λ q. (q.current_dir ≡ path) × (q.history ≡ p.history))
      (text_eq path p.current_dir) (λ e. (sym ((text_eq_iff path p.current_dir).0 e), refl))
      (λ e. (refl, refl))

take-length {ℓ} : {A : Type ℓ} → (xs ys : List A) → take (length xs) (xs ++ ys) ≡ xs
take-length [] ys = refl
take-length (x ∷ xs) ys = ap (λ l. x ∷ l) (take-length xs ys)

take-concat : (xs : List Text) (x : Text) → take (length (xs ++ x ∷ []) - 1) (xs ++ x ∷ []) ≡ xs
take-concat xs x =
    let e : length (xs ++ x ∷ []) - 1 ≡ length xs = omega (arith, length-append xs (x ∷ [])) in
    rw e (take-length xs (x ∷ []))

back_to-keeps :
    (q : Picker) (path : Text) (history : List Text)
    → q.history ≡ history ++ path ∷ []
    → ((go_back q).current_dir ≡ path) × ((go_back q).history ≡ history)
unfolding go_back
back_to-keeps q path history e =
    let last : get_last? q.history ≡ some path =
      ap (λ h. get_last? h) e ∙ get_last?-concat history path in
    let rest : take (length q.history - 1) q.history ≡ history =
      ap (λ (h : List Text). take (length h - 1) h) e ∙ take-concat history path in
    let kept =
      set_current_dir-keeps path (record q { history = take (length q.history - 1) q.history }) in
    rw last (kept.0, kept.1 ∙ rest)

-- Whatever is answered meanwhile, going to a folder and back leads to the folder where one was, with
-- the history that there was.
pub go_back-navigate_to :
    (path : Text) (es : List Loaded) (p : Picker)
    → let q = go_back (loaded_all es (navigate_to path p)) in
      (q.current_dir ≡ p.current_dir) × (q.history ≡ p.history)
unfolding navigate_to
go_back-navigate_to path es p =
    let moved = record p { history = p.history ++ p.current_dir ∷ [] } in
    back_to-keeps (loaded_all es (navigate_to path p)) p.current_dir p.history
      ((loaded_all-keeps es (navigate_to path p)).1 ∙ (set_current_dir-keeps path moved).1)

-- Going up some times.
abbrev pub ups : ℕ → Picker → Picker
ups zero p = p
ups (suc n) p = ups n (go_up p)

All-take : (n : ℕ) (xs : List Text) → All IsName xs → All IsName (take n xs)
All-take zero xs h = tt
All-take (suc n) [] h = tt
All-take (suc n) (x ∷ xs) h = (h.0, All-take n xs h.1)

parent_of-join_slash :
    (parts : List Text)
    → All IsName parts
    → parent_of (slash ∷ join_slash parts) ≡ slash ∷ join_slash (take (length parts - 1) parts)
unfolding parent_of join_slash split starts_with
parent_of-join_slash [] h = refl
parent_of-join_slash (x ∷ []) h = rw (path_parts-join_slash x [] h) refl
parent_of-join_slash (x ∷ y ∷ ys) h =
    let long : leb (length (x ∷ y ∷ ys)) 1 ≡ false = ground arith in
    rw (path_parts-join_slash x (y ∷ ys) h, long) refl

take-take : (m k : ℕ) (xs : List Text) → m ≤ k → take m (take k xs) ≡ take m xs
take-take zero k xs h = refl
take-take (suc m) zero xs h = absurd (omega (arith, h))
take-take (suc m) (suc k) [] h = refl
take-take (suc m) (suc k) (x ∷ xs) h = ap (λ l. x ∷ l) (take-take m k xs (omega (arith, h)))

-- From a folder that is written by the names on the way to it, going up some times leads to the
-- folder of the names without as many at the end, and to the root if there are not as many.
pub ups-take :
    (n : ℕ) (parts : List Text) (p : Picker)
    → All IsName parts
    → p.current_dir ≡ slash ∷ join_slash parts
    → (ups n p).current_dir ≡ slash ∷ join_slash (take (length parts - n) parts)
unfolding go_up
ups-take zero parts p h e =
    e
    ∙ ap (λ l. slash ∷ join_slash l)
        (sym (take_of_length-le (length parts - 0) parts (omega arith)))
ups-take (suc n) parts p h e =
    let k = length parts - 1 in
    let shorter : length (take k parts) ≡ k = length-take k parts ∙ omega arith in
    let rest : length (take k parts) - n ≡ length parts - suc n = omega (arith, shorter) in
    ups-take n (take k parts) (go_up p) (All-take k parts h) (
      (set_current_dir-keeps (parent_of p.current_dir) p).0
      ∙ ap (λ t. parent_of t) e
      ∙ parent_of-join_slash parts h)
    ∙ ap (λ m. slash ∷ join_slash (take m (take k parts))) rest
    ∙ ap (λ l. slash ∷ join_slash l) (take-take (length parts - suc n) k parts (omega arith))
