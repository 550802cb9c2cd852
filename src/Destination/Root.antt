-- ===== src/Destination/Root.antt =====
-- The root as a destination.
use volum.Base.{
  filter, Text, codes, is_empty, trim, split, ℕ, suc, ◌≡◌, refl, ap, ◌∙◌, Bool, true, false, not,
  none, some, List, [], map,
}
use volum.Transfer.{destinations_of, TransferDialog, JobRequest, Transfers, handle_transfer_submit}
use volum.Transfer.Submit.{
  trim-slashes, split_at-slashes, slashes, handle_transfer_submit-slashes, destinations_of-slashes,
}
use volum.Destination.{Destination, Listing, handle_submit, handle_preview}

abbrev has_none : Text → Bool
has_none text = is_empty (filter (λ s. not (is_empty s)) (map trim (split b'|' text)))

has_none-slashes : (n : ℕ) → has_none (slashes (suc n)) ≡ false
unfolding split
has_none-slashes n =
    ap (λ (parts : List Text). is_empty (filter (λ s. not (is_empty s)) (map trim parts)))
      (split_at-slashes [] (suc n))
    ∙ rw (trim-slashes (suc n)) refl

-- A destination of slashes alone, such as the root, is submitted by the dialog without a message,
-- and nothing comes of it; the preview calls it missing.
handle_submit-slashes :
    (server : JobRequest → Bool) (list : Text → Bool → Listing) (dialog : TransferDialog) (n : ℕ)
    (policy : Text) (s : Transfers) (d : Destination)
    → d.destination ≡ slashes (suc n)
    → (handle_submit d ≡ (true, d))
      × (handle_transfer_submit server (some dialog) d.destination policy s ≡ ([], none, s))
      × ((handle_preview list dialog d).error ≡ some (codes "Destination folder path is required."))
unfolding handle_submit handle_preview split
handle_submit-slashes server list dialog n policy s d e = (
  rw (ap has_none e ∙ has_none-slashes n) refl,
  ap (λ (t : Text). handle_transfer_submit server (some dialog) t policy s) e
      ∙ handle_transfer_submit-slashes server dialog (suc n) policy s,
  rw
      (ap (λ (t : Text). is_empty (destinations_of t)) e
        ∙ ap (λ (parts : List Text). is_empty parts) (destinations_of-slashes (suc n)))
      refl,
)
