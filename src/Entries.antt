-- ===== src/Entries.antt =====
-- The data that the server sends: the types of frontend/src/api/client-files.ts that the rest
-- reads. Sizes and counts are natural numbers, `null` and missing fields are `none`.
use volum.Base.{ℕ, Bool, true, false, Option, List, Text}

pub data FileType : Type 0 where
  file directory : FileType

abbrev pub is_file : FileType → Bool
is_file FileType.file = true
is_file FileType.directory = false

pub record FileEntry : Type 0 where
  pub name : Text
  pub path : Text
  pub type : FileType
  pub size : ℕ
  pub modified_at : Text
  pub permissions : Text
  pub owner : Text
  pub group : Text
  pub hidden : Bool

pub record FileResponse : Type 0 where
  pub entries : Option (List FileEntry)
  pub total : Option ℕ
  pub limit : Option ℕ
  pub offset : Option ℕ
  pub has_more : Option Bool

pub record TrashEntry : Type 0 where
  pub id : Text
  pub name : Text
  pub original_path : Text
  pub trash_path : Text
  pub type : FileType
  pub size : ℕ
  pub deleted_at : Text
  pub root_path : Text

pub record RootEntry : Type 0 where
  pub path : Text
  pub label : Option Text
  pub available : Bool
  pub is_home : Bool

pub record SearchResult : Type 0 where
  pub name : Text
  pub path : Text
  pub type : FileType
  pub size : ℕ
  pub modified_at : Text
  pub root : Text
  pub line_match : Option Text
