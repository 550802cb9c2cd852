-- ===== src/Trash/Tests.antt =====
-- The theorems on the window of the trash at concrete items.
use volum.Base.{Text, codes, text_eq, Bool, some, [], ◌∷◌}
use volum.Trash.{TrashView, Confirmed, initial, confirm}
use volum.Entries.{FileType, TrashEntry}
use volum.Trash.Outcome.{IsSettled, confirm-IsSettled}

abbrev item : Text → TrashEntry
item id = record {
  id = id;
  name = codes "a.txt";
  original_path = codes "/a.txt";
  trash_path = codes "/.trash/a.txt";
  type = FileType.file;
  size = 3;
  deleted_at = codes "2024";
  root_path = codes "/";
}

abbrev three_items : TrashView
three_items = record initial {
  trash_entries = item (codes "1") ∷ item (codes "2") ∷ item (codes "3") ∷ [];
  selected_trash_ids = codes "3" ∷ [];
}

abbrev takes_only_2 : Text → Bool
takes_only_2 id = text_eq id (codes "2")

confirm-IsSettled_example :
    IsSettled takes_only_2 (codes "1" ∷ codes "2" ∷ []) (
      confirm takes_only_2
        (some (Confirmed.confirm_empty (codes "1" ∷ codes "2" ∷ [])))
        three_items)
confirm-IsSettled_example =
    confirm-IsSettled takes_only_2 (Confirmed.confirm_empty (codes "1" ∷ codes "2" ∷ []))
      three_items
