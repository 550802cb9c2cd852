-- ===== src/Conflicts/Tests.antt =====
-- A job with two conflicts.
use volum.Base.{none, if◌then◌else◌, Text, codes, text_eq, ◌≡◌, refl, true, some, [], ◌∷◌, map}
use volum.Jobs.{JobStatus}
use volum.Conflicts.{
  ConflictResolution, ConflictItem, Conflicts, initial, handle_submit, set_item_resolution, apply,
  all_resolved,
}
use volum.Conflicts.Resolved.{handle_submit-apply}

abbrev item : Text → ConflictItem
item id = record {
  id = id;
  job_id = codes "j1";
  source_path = codes "/data/a";
  destination_path = codes "/backup/a";
  size_bytes = 10;
  processed_bytes = 0;
  status = JobStatus.needs_attention;
  error_message = none;
}

abbrev two_conflicts : Conflicts
two_conflicts = record initial {
  conflicts = item (codes "i1") ∷ item (codes "i2") ∷ [];
  default_resolution = some ConflictResolution.skip;
}

handle_submit-apply_example :
    (all_resolved (apply two_conflicts) ≡ true)
    × ((handle_submit
          (set_item_resolution (codes "i2") ConflictResolution.rename (apply two_conflicts))).0
        ≡ map
            (λ (i : ConflictItem). (
              i.id,
              if text_eq (codes "i2") i.id
                  then ConflictResolution.rename
                  else ConflictResolution.skip,
            ))
            two_conflicts.conflicts)
handle_submit-apply_example =
    handle_submit-apply two_conflicts ConflictResolution.skip ConflictResolution.rename (codes "i2")
      refl
