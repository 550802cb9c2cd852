-- ===== src/Destination/Fates.antt =====
-- What the preview says.
use mathlib.Core.Path.{fun_ext}
use volum.Base.{
  if◌then◌else◌, filter, any, Text, text_eq, includes, is_empty, includes-append, ◌+◌, ◌≡◌, refl,
  ap, ◌∙◌, Bool, false, ◌&&◌, ◌||◌, not, some, List, [], ◌∷◌, ◌++◌, map, arith,
}
use volum.Entries.{FileEntry}
use volum.Transfer.{TransferDialog, destinations_of}
use volum.Destination.{
  Destination, Fate, Listing, conflict_fate, existing_names, items_of, handle_preview,
  preview_summary, count_of, is_new_file, is_skipped, is_overwritten, is_renamed, is_cancelled,
}

-- How a server that knows what is in the folders answers.
abbrev pub listing_of : (Text → List FileEntry) → Text → Bool → Listing
listing_of folders dest show_hidden =
    Listing.names (map (λ e. e.name) (filter (λ e. show_hidden || not e.hidden) (folders dest)))

-- Whether some of the folders has an entry of the name that is not hidden.
abbrev pub is_in_one : (Text → List FileEntry) → List Text → Text → Bool
is_in_one folders dests name =
    any (λ dest. any (λ e. not e.hidden && text_eq e.name name) (folders dest)) dests

abbrev all_names : (Text → List FileEntry) → List Text → List Text
all_names folders [] = []
all_names folders (dest ∷ dests) =
    map (λ e. e.name) (filter (λ e. not e.hidden) (folders dest)) ++ all_names folders dests

existing_names_all :
    (folders : Text → List FileEntry) (dests : List Text)
    → existing_names (listing_of folders) dests ≡ Listing.names (all_names folders dests)
unfolding existing_names
existing_names_all folders [] = refl
existing_names_all folders (dest ∷ dests) = rw (existing_names_all folders dests) refl

includes-shown :
    (es : List FileEntry) (name : Text)
    → includes (map (λ e. e.name) (filter (λ e. not e.hidden) es)) name
      ≡ any (λ e. not e.hidden && text_eq e.name name) es
unfolding includes
includes-shown [] name = refl
includes-shown (e ∷ es) name = ground (arith, includes-shown es name)

includes-all_names :
    (folders : Text → List FileEntry) (dests : List Text) (name : Text)
    → includes (all_names folders dests) name ≡ is_in_one folders dests name
unfolding includes
includes-all_names folders [] name = refl
includes-all_names folders (dest ∷ dests) name =
    includes-append _ (all_names folders dests) name
    ∙ rw (includes-shown (folders dest) name, includes-all_names folders dests name) refl

-- With at least one destination, and all folders listed, the preview says of each selected entry that
-- it is new exactly when none of the destinations has an entry of its name that is not hidden, and
-- otherwise what the chosen policy does; a hidden entry of the name is not seen.
pub handle_preview-fates :
    (folders : Text → List FileEntry) (dialog : TransferDialog) (d : Destination)
    → is_empty (destinations_of d.destination) ≡ false
    → (handle_preview (listing_of folders) dialog d).preview_items
      ≡ some (
          map
            (λ (e : FileEntry). (
              e.name,
              if is_in_one folders (destinations_of d.destination) e.name
                  then conflict_fate d.conflict_policy
                  else Fate.new_file,
            ))
            dialog.entries)
unfolding handle_preview items_of
handle_preview-fates folders dialog d h =
    rw (h, existing_names_all folders (destinations_of d.destination))
      (ap
        (λ (p : Text → Bool). some (
          map
            (λ (e : FileEntry).
              (e.name, if p e.name then conflict_fate d.conflict_policy else Fate.new_file))
            dialog.entries))
        (fun_ext (includes-all_names folders (destinations_of d.destination))))

-- Whether a fate is in none of the numbers of the summary.
abbrev pub is_asked : Fate → Bool
is_asked fate = not (
    is_new_file fate
    || is_skipped fate
    || is_overwritten fate
    || is_renamed fate
    || is_cancelled fate)

-- The numbers of the summary add up to the total, but for the entries that will be asked about.
pub preview_summary-total :
    (items : List (Text × Fate))
    → let s = preview_summary items in
      s.new_files
        + s.skipped_files
        + s.overwritten_files
        + s.renamed_files
        + s.cancelled_files
        + count_of is_asked items
      ≡ s.total
unfolding preview_summary
preview_summary-total [] = refl
preview_summary-total ((name, Fate.new_file) ∷ items) = omega (arith, preview_summary-total items)
preview_summary-total ((name, Fate.skipped) ∷ items) = omega (arith, preview_summary-total items)
preview_summary-total ((name, Fate.overwritten) ∷ items) =
    omega (arith, preview_summary-total items)
preview_summary-total ((name, Fate.renamed) ∷ items) = omega (arith, preview_summary-total items)
preview_summary-total ((name, Fate.cancelled) ∷ items) = omega (arith, preview_summary-total items)
preview_summary-total ((name, Fate.asked) ∷ items) = omega (arith, preview_summary-total items)
