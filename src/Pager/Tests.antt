-- ===== src/Pager/Tests.antt =====
-- The pages of a list of one job.
use volum.Base.{codes, ◌≡◌, none, List, [], ◌∷◌}
use volum.Pager.{total_pages}
use volum.Pager.Parts.{pages_up_to, pages_up_to-total_pages}
use volum.Jobs.{Job, JobType, JobStatus}

abbrev one_job : List Job
one_job =
    record {
      id = codes "1";
      type = JobType.copy;
      status = JobStatus.running;
      source_path = none;
      destination_path = none;
      total_bytes = 9;
      processed_bytes = 3;
      total_items = 1;
      processed_items = 0;
      error_message = none;
      conflict_policy = codes "ask";
      verify_mode = [];
      created_at = [];
      updated_at = [];
    }
    ∷ []

pages_up_to-total_pages_example : pages_up_to one_job (total_pages one_job) ≡ one_job
pages_up_to-total_pages_example = pages_up_to-total_pages one_job
