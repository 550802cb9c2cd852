-- ===== src/Transfer/Tests.antt =====
-- A transfer of two entries to two folders.
use volum.Base.{
  length, get_elem?, Text, codes, is_space, drop_while, drop_end_while, trim, split, ◌+◌, ◌*◌, ◌≡◌,
  refl, Bool, true, false, none, some, [], ◌∷◌,
}
use volum.Entries.{FileType, FileEntry}
use volum.Paths.{join_path}
use volum.Transfer.{
  Mode, TransferDialog, Transfers, JobRequest, destinations_of, handle_transfer_submit,
}
use volum.Transfer.Submit.{handle_transfer_submit-sent}

abbrev entry : Text → FileEntry
entry name = record {
  name = name;
  path = b'/' ∷ name;
  type = FileType.file;
  size = 3;
  modified_at = [];
  permissions = [];
  owner = [];
  group = [];
  hidden = false;
}

abbrev dialog : TransferDialog
dialog = record {
  mode = Mode.move;
  entries = entry (codes "a") ∷ entry (codes "b") ∷ [];
  initial_destination = codes "/";
}

abbrev opened : Transfers
opened = record {
  context_menu = none;
  transfer_dialog = some dialog;
  file_clipboard = none;
  toasts = [];
}

abbrev takes_all : JobRequest → Bool
takes_all r = true

handle_transfer_submit-sent_example :
    let r = handle_transfer_submit takes_all (some dialog) (codes "/x|/y/") (codes "ask") opened in
    (get_elem? r.0 (1 * length (destinations_of (codes "/x|/y/")) + 1)
      ≡ some (record {
        mode = Mode.move;
        source_path = codes "/b";
        destination_path = join_path (codes "/y") (codes "b");
        conflict_policy = codes "ask";
        verify_mode = codes "size";
      }))
    × (length r.0 ≡ 2 * length (destinations_of (codes "/x|/y/")))
    × (Transfers.transfer_dialog r.2 ≡ none)
    × (Transfers.file_clipboard r.2 ≡ none)
unfolding destinations_of split trim drop_end_while drop_while is_space
handle_transfer_submit-sent_example =
    handle_transfer_submit-sent takes_all dialog (codes "/x|/y/") (codes "ask") opened 1 1
      (entry (codes "b")) (codes "/y") refl refl refl
