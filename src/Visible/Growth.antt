-- ===== src/Visible/Growth.antt =====
-- How the rendered part grows.
use volum.Base.{
  ltb, Bool-cases, all, text_eq, ℕ, ◌≤◌, ◌<◌, min, max, ◌≡◌, refl, sym, ◌∙◌, ◌⊎◌, inl, inr, true,
  false, ◌||◌, arith,
}
use volum.Visible.{
  Given, Visible, total_count, incremental, initial_visible, reset_effect, full_effect,
  growth_effect, after_rendering, load_more, rendered_count, has_more,
}

-- No more is counted as visible than is loaded, or than is shown at first.
abbrev pub IsBounded : Given → Visible → Type 0
IsBounded g v = v.visible_count ≤ max 240 g.loaded

below_total :
    (v l t : ℕ)
    → v ≤ max 240 l
    → ltb v l ≡ false
    → ltb (min v l) t ≡ true
    → (ltb 600 t || ltb 600 l) ≡ true
    → ltb v t ≡ true
below_total v l t bounded all more large = ground (arith, bounded, all, more, large)

progress_of_bounded :
    (g : Given) (v : Visible)
    → IsBounded g v
    → has_more g v ≡ true
    → incremental g ≡ true
    → g.loading_more ≡ false
    → (rendered_count g v < rendered_count g (load_more g v).1) ⊎ ((load_more g v).0 ≡ true)
unfolding load_more has_more rendered_count
progress_of_bounded g v bounded more inc idle = elim (Bool-cases (ltb v.visible_count g.loaded)) [
  | inl e ↦ rw (inc, e) (inl (ground (arith, e)))
  | inr e ↦
      let m : ltb (min v.visible_count g.loaded) (total_count g) ≡ true =
        sym (rw inc refl) ∙ more in
      rw (inc, e, idle, below_total v.visible_count g.loaded (total_count g) bounded e m inc)
        (inr refl)
]

load_more-IsBounded : (g : Given) (v : Visible) → IsBounded g v → IsBounded g (load_more g v).1
unfolding load_more
load_more-IsBounded g v h = ground (arith, h)

reset_effect-IsBounded : (g : Given) (v : Visible) → IsBounded g v → IsBounded g (reset_effect g v)
unfolding reset_effect
reset_effect-IsBounded g v h = ground (arith, h)

reset_effect-IsBounded_of_new :
    (g : Given) (v : Visible)
    → text_eq v.last_reset_key g.reset_key ≡ false
    → IsBounded g (reset_effect g v)
unfolding reset_effect
reset_effect-IsBounded_of_new g v h = ground (arith, h)

full_effect-IsBounded : (g : Given) (v : Visible) → IsBounded g v → IsBounded g (full_effect g v)
unfolding full_effect
full_effect-IsBounded g v h = ground (arith, h)

growth_effect-IsBounded :
    (g : Given) (v : Visible) → IsBounded g v → IsBounded g (growth_effect g v)
unfolding growth_effect
growth_effect-IsBounded g v h = ground (arith, h)

-- The states of the hook: it starts, is rendered with a list that is not shorter or with another
-- key, and loads more.
pub data Reach : Given → Visible → Type 0 where
  start : (g : Given) → Reach g (initial_visible g)
  render :
      {g : Given} {v : Visible}
      → (next : Given)
      → (g.loaded ≤ next.loaded) ⊎ (text_eq v.last_reset_key next.reset_key ≡ false)
      → Reach g v
      → Reach next (after_rendering next v)
  more : {g : Given} {v : Visible} → Reach g v → Reach g (load_more g v).1

after_rendering-IsBounded :
    (g next : Given) (v : Visible)
    → (g.loaded ≤ next.loaded) ⊎ (text_eq v.last_reset_key next.reset_key ≡ false)
    → IsBounded g v
    → IsBounded next (after_rendering next v)
unfolding after_rendering
after_rendering-IsBounded g next v h bounded =
    let first : IsBounded next (reset_effect next v) = elim h [
      | inl grown ↦ reset_effect-IsBounded next v (omega (arith, grown, bounded))
      | inr new ↦ reset_effect-IsBounded_of_new next v new
    ] in
    growth_effect-IsBounded next (full_effect next (reset_effect next v))
      (full_effect-IsBounded next (reset_effect next v) first)

initial_visible-IsBounded : (g : Given) → IsBounded g (initial_visible g)
unfolding initial_visible
initial_visible-IsBounded g = ground arith

Reach-IsBounded : {g : Given} {v : Visible} → Reach g v → IsBounded g v
Reach-IsBounded (Reach.start g) = initial_visible-IsBounded g
Reach-IsBounded (Reach.render {g} {v} next h r) =
    after_rendering-IsBounded g next v h (Reach-IsBounded r)
Reach-IsBounded (Reach.more {g} {v} r) = load_more-IsBounded g v (Reach-IsBounded r)

-- If a long list has more to show and no page is being loaded, loading more renders more entries
-- or asks for the next page, in every state of the hook.
pub Reach-progress :
    {g : Given} {v : Visible}
    → Reach g v
    → has_more g v ≡ true
    → incremental g ≡ true
    → g.loading_more ≡ false
    → (rendered_count g v < rendered_count g (load_more g v).1) ⊎ ((load_more g v).0 ≡ true)
Reach-progress {g} {v} r rest inc idle = progress_of_bounded g v (Reach-IsBounded r) rest inc idle
