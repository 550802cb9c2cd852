-- ===== src/Visible/Tests.antt =====
-- A list of which one page of 600 of 1000 entries is loaded.
use volum.Base.{text_eq, ℕ, ◌<◌, ◌≡◌, refl, ◌⊎◌, inl, true, false, some, [], arith}
use volum.Visible.{
  Given, Visible, initial_visible, after_rendering, reset_effect, full_effect, growth_effect,
  load_more, rendered_count, has_more,
}
use volum.Visible.Growth.{Reach, Reach-progress}

abbrev given : ℕ → Given
given loaded = record {
  loaded = loaded;
  total_option = some 1000;
  reset_key = [];
  loading_more = false;
}

program : Unit {0}
unfolding initial_visible after_rendering reset_effect full_effect growth_effect load_more
    rendered_count has_more text_eq
program = tt

scrolled : (v : Visible) × Reach (given 600) v
scrolled = (_, Reach.more (Reach.render (given 600) (inl (omega arith)) (Reach.start (given 0))))

Reach-progress_example :
    (rendered_count (given 600) scrolled.0
      < rendered_count (given 600) (load_more (given 600) scrolled.0).1)
    ⊎ ((load_more (given 600) scrolled.0).0 ≡ true)
unfolding program scrolled
Reach-progress_example = Reach-progress scrolled.1 refl refl refl
