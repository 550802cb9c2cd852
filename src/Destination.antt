-- ===== src/Destination.antt =====
-- The dialog for a copy or move: frontend/src/components/overlay/TransferDialog.tsx.
pub mod Fates
pub mod Root
mod Tests
use volum.Base.{
  ◌==◌, if◌then◌else◌, or_else, length, filter, all, Text, codes, includes, is_empty, or_text,
  drop_end_while, trim, split, ℕ, Bool, true, false, ◌&&◌, ◌||◌, not, Option, none, some, List, [],
  ◌∷◌, ◌++◌, map,
}
use volum.Entries.{FileEntry, is_file}
use volum.Paths.{slash}
use volum.Transfer.{Mode, TransferDialog, is_move, destinations_of}

-- `ConflictPolicy`
pub data ConflictPolicy : Type 0 where
  ask skip overwrite rename cancel skip_identical : ConflictPolicy

-- The texts of `fate`.
pub data Fate : Type 0 where
  new_file skipped overwritten renamed cancelled asked : Fate

-- The state of the dialog.
pub record Destination : Type 0 where
  pub destination : Text
  pub conflict_policy : ConflictPolicy
  pub error : Option Text
  pub picker_open : Bool
  pub preview_mode : Bool
  pub preview_items : Option (List (Text × Fate))
  pub preview_loading : Bool
  pub preview_error : Option Text

unfoldable pub initial : TransferDialog → Destination
initial dialog = record {
  destination = dialog.initial_destination;
  conflict_policy = ConflictPolicy.ask;
  error = none;
  picker_open = false;
  preview_mode = false;
  preview_items = none;
  preview_loading = false;
  preview_error = none;
}

-- `supportsSkipIdentical`, and the effect on the policy.
pub supports_skip_identical : TransferDialog → Bool
supports_skip_identical dialog =
    not (is_move dialog.mode) && all (λ (e : FileEntry). is_file e.type) dialog.entries

abbrev pub is_skip_identical : ConflictPolicy → Bool
is_skip_identical ConflictPolicy.skip_identical = true
is_skip_identical policy = false

unfoldable pub policy_effect : TransferDialog → Destination → Destination
policy_effect dialog d =
    if not (supports_skip_identical dialog) && is_skip_identical d.conflict_policy
    then record d { conflict_policy = ConflictPolicy.ask }
    else d

abbrev required : Text
required = codes "Destination folder path is required."

-- `handleSubmit`: whether `onSubmit` is called.
unfoldable pub handle_submit : Destination → Bool × Destination
unfolding split trim
handle_submit d =
    if is_empty (filter (λ s. not (is_empty s)) (map trim (split b'|' d.destination)))
    then (false, record d { error = some required })
    else (true, d)

-- The fate of an entry whose name is there already.
unfoldable pub conflict_fate : ConflictPolicy → Fate
conflict_fate ConflictPolicy.skip = Fate.skipped
conflict_fate ConflictPolicy.skip_identical = Fate.skipped
conflict_fate ConflictPolicy.overwrite = Fate.overwritten
conflict_fate ConflictPolicy.rename = Fate.renamed
conflict_fate ConflictPolicy.cancel = Fate.cancelled
conflict_fate ConflictPolicy.ask = Fate.asked

-- The loop of requests: the names that are listed, or the message of the one that failed. The server
-- answers `getFiles(path, showHidden)` with the names that it lists.
pub data Listing : Type 0 where
  names : List Text → Listing
  failed : Option Text → Listing

abbrev add_names : List Text → Listing → Listing
add_names xs (Listing.names ys) = Listing.names (xs ++ ys)
add_names xs (Listing.failed message) = Listing.failed message

abbrev listed : Listing → Listing → Listing
listed (Listing.names xs) rest = add_names xs rest
listed (Listing.failed message) rest = Listing.failed message

unfoldable pub existing_names : (Text → Bool → Listing) → List Text → Listing
existing_names server [] = Listing.names []
existing_names server (dest ∷ dests) = listed (server dest false) (existing_names server dests)

-- `items`
unfoldable pub items_of : ConflictPolicy → List Text → List FileEntry → List (Text × Fate)
items_of policy existing entries =
    map
      (λ (e : FileEntry).
        (e.name, if includes existing e.name then conflict_fate policy else Fate.new_file))
      entries

abbrev previewed : List FileEntry → Listing → Destination → Destination
previewed entries (Listing.names existing) d = record d {
  error = none;
  preview_error = none;
  preview_loading = false;
  preview_items = some (items_of d.conflict_policy existing entries);
  preview_mode = true;
}
previewed entries (Listing.failed message) d = record d {
  error = none;
  preview_error = some (or_else message (codes "Failed to preview destination"));
  preview_loading = false;
}

-- `handlePreview`, with its requests answered.
unfoldable pub handle_preview : (Text → Bool → Listing) → TransferDialog → Destination → Destination
unfolding destinations_of existing_names
handle_preview server dialog d =
    let dests = destinations_of d.destination in
    if is_empty dests
    then record d { error = some required }
    else previewed dialog.entries (existing_names server dests) d

-- `previewSummary`
pub record PreviewSummary : Type 0 where
  pub total : ℕ
  pub new_files : ℕ
  pub skipped_files : ℕ
  pub overwritten_files : ℕ
  pub renamed_files : ℕ
  pub cancelled_files : ℕ

abbrev pub is_new_file : Fate → Bool
is_new_file Fate.new_file = true
is_new_file fate = false

abbrev pub is_skipped : Fate → Bool
is_skipped Fate.skipped = true
is_skipped fate = false

abbrev pub is_overwritten : Fate → Bool
is_overwritten Fate.overwritten = true
is_overwritten fate = false

abbrev pub is_renamed : Fate → Bool
is_renamed Fate.renamed = true
is_renamed fate = false

abbrev pub is_cancelled : Fate → Bool
is_cancelled Fate.cancelled = true
is_cancelled fate = false

abbrev pub count_of : (Fate → Bool) → List (Text × Fate) → ℕ
count_of p items = length (filter (λ (item : Text × Fate). p item.1) items)

unfoldable pub preview_summary : List (Text × Fate) → PreviewSummary
preview_summary items = record {
  total = length items;
  new_files = count_of is_new_file items;
  skipped_files = count_of is_skipped items;
  overwritten_files = count_of is_overwritten items;
  renamed_files = count_of is_renamed items;
  cancelled_files = count_of is_cancelled items;
}

-- `onChange` of the input, and `onSelect` of the folder picker.
pub change_destination : Text → Destination → Destination
change_destination path d = record d { destination = path; error = none }

pub select_folder : Text → Destination → Destination
select_folder path d = record d { destination = path; error = none; picker_open = false }

-- A suggestion: `path.replace(/\/+$/, '') || '/'`
pub choose_suggestion : Text → Destination → Destination
unfolding drop_end_while
choose_suggestion path d = record d {
  destination = or_text (drop_end_while (λ c. c == slash) path) (slash ∷ []);
  error = none;
}
