-- ===== src/Visible.antt =====
-- The part of a long list that is rendered: frontend/src/hooks/useIncrementalEntries.ts.
-- The observer of the sentinel calls `loadMore`, like a scroll; what it measures is an argument.
pub mod Growth
mod Tests
use volum.Base.{
  ltb, leb, if◌then◌else◌, or_else, take, Text, text_eq, leb_ℤ, ℤ, pos, ℕ, ◌+◌, min, Bool, false,
  ◌&&◌, ◌||◌, not, Option, List,
}

abbrev pub large_folder_threshold : ℕ
large_folder_threshold = 600

abbrev pub initial_visible_count : ℕ
initial_visible_count = 240

abbrev pub visible_count_batch : ℕ
visible_count_batch = 240

abbrev pub load_more_distance_px : ℤ
load_more_distance_px = ℤ.pos 720

-- What the hook is called with: `entries.length` and the options.
pub record Given : Type 0 where
  pub loaded : ℕ
  pub total_option : Option ℕ
  pub reset_key : Text
  pub loading_more : Bool

abbrev pub total_count : Given → ℕ
total_count g = or_else g.total_option g.loaded

abbrev pub incremental : Given → Bool
incremental g = ltb large_folder_threshold (total_count g) || ltb large_folder_threshold g.loaded

pub record Visible : Type 0 where
  pub visible_count : ℕ
  pub previous_loaded_count : ℕ
  pub last_reset_key : Text

pub initial_visible : Given → Visible
initial_visible g = record {
  visible_count = if incremental g then initial_visible_count else g.loaded;
  previous_loaded_count = g.loaded;
  last_reset_key = g.reset_key;
}

-- The effect of a new `resetKey`.
unfoldable pub reset_effect : Given → Visible → Visible
reset_effect g v = if text_eq v.last_reset_key g.reset_key then v else record {
  visible_count = if incremental g then min initial_visible_count g.loaded else g.loaded;
  previous_loaded_count = g.loaded;
  last_reset_key = g.reset_key;
}

-- The effect for a list that is not incremental.
unfoldable pub full_effect : Given → Visible → Visible
full_effect g v = if not (incremental g) then record v { visible_count = g.loaded } else v

-- The effect of a page that was loaded.
unfoldable pub growth_effect : Given → Visible → Visible
growth_effect g v =
    let v' = record v { previous_loaded_count = g.loaded } in
    if not (incremental g) || leb g.loaded v.previous_loaded_count
    then v'
    else if ltb v.visible_count v.previous_loaded_count
    then v'
    else record v' { visible_count = min g.loaded (v.visible_count + visible_count_batch) }

-- The effects after a rendering, in order.
unfoldable pub after_rendering : Given → Visible → Visible
unfolding reset_effect full_effect growth_effect
after_rendering g v = growth_effect g (full_effect g (reset_effect g v))

-- `loadMore`: whether `onLoadMore` is called, and the new state.
unfoldable pub load_more : Given → Visible → Bool × Visible
load_more g v =
    if not (incremental g)
    then (false, v)
    else if ltb v.visible_count g.loaded
    then (false, record v { visible_count = min g.loaded (v.visible_count + visible_count_batch) })
    else (ltb v.visible_count (total_count g) && not g.loading_more, v)

-- `handleScroll`, at the distance from the end.
unfoldable pub handle_scroll : Given → ℤ → Visible → Bool × Visible
unfolding load_more
handle_scroll g remaining v =
    if not (incremental g) || g.loading_more
    then (false, v)
    else if leb_ℤ load_more_distance_px remaining
    then (false, v)
    else load_more g v

-- What the observer of the sentinel measures.
pub record Sentinel : Type 0 where
  pub reached : Bool
  pub has_scrolled : Bool
  pub needs_initial_fill : Bool
  pub remaining : ℤ

-- The observer's callback.
pub sentinel_observed : Given → Sentinel → Visible → Bool × Visible
unfolding load_more
sentinel_observed g o v =
    if o.reached
      && (o.needs_initial_fill || o.has_scrolled && not (leb_ℤ load_more_distance_px o.remaining))
      && not g.loading_more
    then load_more g v
    else (false, v)

unfoldable pub rendered_count : Given → Visible → ℕ
rendered_count g v = if incremental g then min v.visible_count g.loaded else g.loaded

-- `visibleEntries`
unfoldable pub visible_entries {ℓ} : {A : Type ℓ} → Given → List A → Visible → List A
unfolding rendered_count
visible_entries g entries v = take (rendered_count g v) entries

-- `hasMore`
unfoldable pub has_more : Given → Visible → Bool
unfolding rendered_count
has_more g v = ltb (rendered_count g v) (total_count g)
