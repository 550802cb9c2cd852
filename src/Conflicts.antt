-- ===== src/Conflicts.antt =====
-- The dialog for the conflicts of a job: frontend/src/components/overlay/ConflictDialog.tsx.
pub mod Resolved
mod Tests
use volum.Base.{
  if◌then◌else◌, or_else, is_some, all, Text, codes, text_eq, is_empty, ℕ, Bool, true, false, ◌&&◌,
  not, Option, none, some, List, [], ◌∷◌, ◌++◌,
}
use volum.Jobs.{JobStatus}

pub data ConflictResolution : Type 0 where
  skip overwrite rename : ConflictResolution

-- `ConflictItem`
pub record ConflictItem : Type 0 where
  pub id : Text
  pub job_id : Text
  pub source_path : Text
  pub destination_path : Text
  pub size_bytes : ℕ
  pub processed_bytes : ℕ
  pub status : JobStatus
  pub error_message : Option Text

-- The state of the dialog. The resolutions are an object with the identifiers of the items, which
-- the server makes, as its keys.
pub record Conflicts : Type 0 where
  pub conflicts : List ConflictItem
  pub loading : Bool
  pub err_msg : Option Text
  pub resolutions : List (Text × ConflictResolution)
  pub default_resolution : Option ConflictResolution

abbrev pub initial : Conflicts
initial = record {
  conflicts = [];
  loading = true;
  err_msg = none;
  resolutions = [];
  default_resolution = none;
}

-- The end of `getJobConflicts`
pub data Loaded : Type 0 where
  found_items : Option (List ConflictItem) → Loaded
  failed : Option Text → Loaded

pub conflicts_loaded : Loaded → Conflicts → Conflicts
conflicts_loaded (Loaded.found_items items) c = record c {
  conflicts = or_else items [];
  loading = false;
}
conflicts_loaded (Loaded.failed message) c = record c {
  err_msg = some (or_else message (codes "Failed to load conflicts"));
  loading = false;
}

-- `resolutions[id]`
unfoldable pub resolution_of : List (Text × ConflictResolution) → Text → Option ConflictResolution
resolution_of [] id = none
resolution_of ((key, r) ∷ rest) id = if text_eq key id then some r else resolution_of rest id

-- `({ ...prev, [itemId]: resolution })`
unfoldable pub with_resolution :
    Text → ConflictResolution → List (Text × ConflictResolution) → List (Text × ConflictResolution)
with_resolution id r [] = (id, r) ∷ []
with_resolution id r ((key, s) ∷ rest) =
    if text_eq key id then (key, r) ∷ rest else (key, s) ∷ with_resolution id r rest

-- `setItemResolution`
unfoldable pub set_item_resolution : Text → ConflictResolution → Conflicts → Conflicts
set_item_resolution id r c = record c { resolutions = with_resolution id r c.resolutions }

-- `setDefaultResolution`
pub set_default_resolution : Option ConflictResolution → Conflicts → Conflicts
set_default_resolution r c = record c { default_resolution = r }

-- The loop of the button "Apply", which is there with a default resolution.
unfoldable pub all_with :
    ConflictResolution
    → List ConflictItem
    → List (Text × ConflictResolution)
    → List (Text × ConflictResolution)
unfolding with_resolution
all_with r [] done = done
all_with r (item ∷ items) done = all_with r items (with_resolution item.id r done)

abbrev applied : Option ConflictResolution → Conflicts → Conflicts
applied none c = c
applied (some r) c = record c { resolutions = all_with r c.conflicts [] }

unfoldable pub apply : Conflicts → Conflicts
apply c = applied c.default_resolution c

-- `allResolved`, and whether the dialog can be submitted.
unfoldable pub all_resolved : Conflicts → Bool
all_resolved c = all (λ item. is_some (resolution_of c.resolutions item.id)) c.conflicts

unfoldable pub can_submit : Conflicts → Bool
can_submit c = all_resolved c && not (is_empty c.conflicts)

-- The items of `handleSubmit`: the conflicts with a resolution.
abbrev pub resolved_item : Text → Option ConflictResolution → List (Text × ConflictResolution)
resolved_item id none = []
resolved_item id (some r) = (id, r) ∷ []

unfoldable pub resolved_items :
    List (Text × ConflictResolution) → List ConflictItem → List (Text × ConflictResolution)
resolved_items resolutions [] = []
resolved_items resolutions (item ∷ items) =
    resolved_item item.id (resolution_of resolutions item.id) ++ resolved_items resolutions items

-- `handleSubmit`: what `onResolve` is called with.
unfoldable pub handle_submit :
    Conflicts → List (Text × ConflictResolution) × Option ConflictResolution
handle_submit c = (resolved_items c.resolutions c.conflicts, c.default_resolution)
