-- ===== src/Commands/Tests.antt =====
-- The theorems on the commands at concrete files.
use volum.Base.{if◌then◌else◌, Text, codes, text_eq, refl, false, some, [], ◌∷◌}
use volum.Commands.{initial}
use volum.Commands.Keyboard.{Given, key_down}
use volum.Commands.Guarded.{IsReadOnly, key_down-IsReadOnly}
use volum.Entries.{FileEntry, FileType}
use volum.Jobs.Commands.{Answer}

abbrev file : Text → Text → FileEntry
file name path = record {
  name = name;
  path = path;
  type = FileType.file;
  size = 1;
  modified_at = [];
  permissions = [];
  owner = [];
  group = [];
  hidden = false;
}

-- A server that refuses one path.
abbrev all_but_b : FileEntry → Answer (Unit {0})
all_but_b e =
    if text_eq e.path (codes "/b") then Answer.failed (some (codes "busy")) else Answer.answered tt

abbrev reader : Given
reader = record {
  current_path = codes "/";
  can_write = false;
  selected_entries = file (codes "a") (codes "/a") ∷ [];
  to_lower_case = λ t. t;
  is_previewable = λ t. false;
}

key_down-IsReadOnly_example :
    IsReadOnly initial
      (key_down reader (record { key = codes "Delete"; modified = false }) initial).1
key_down-IsReadOnly_example =
    key_down-IsReadOnly reader (record { key = codes "Delete"; modified = false }) initial refl
