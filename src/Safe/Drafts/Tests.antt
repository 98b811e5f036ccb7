-- ===== src/Safe/Drafts/Tests.antt =====
-- A job made from a concrete draft.
use distributed_job_platform.Base.{◌≤◌, ◌≡◌, true, none, some, truthy}
use distributed_job_platform.Json.{null}
use distributed_job_platform.Safe.Drafts.{JobDraft, Host, nonneg, finite, create_job_from_draft}
use distributed_job_platform.Safe.Drafts.Bounds.{Fits, create_job_from_draft-Fits}

abbrev pub host : Host
host = record {
  number_of = λ s. some (finite (nonneg 40));
  time_of = λ s. none;
  iso = λ n. "now";
  now = 5;
  id = "job-1";
}

abbrev pub draft : JobDraft
draft = record {
  type = "";
  queue = " low ";
  tenant_id = "";
  priority = "40";
  max_attempts = "40";
  timeout_seconds = "40";
  delay_seconds = "40";
  scheduled_at = "";
  workflow_id = "";
  dependencies = "a, b";
  idempotency_key = "";
  dedupe_window_seconds = "900";
  payload = "{}";
}

create_job_from_draft-Fits_example :
    let job = create_job_from_draft host draft null in
    (job.priority ≤ 9)
    × (1 ≤ job.max_attempts)
    × (truthy job.type ≡ true)
    × (truthy job.queue ≡ true)
    × (truthy job.tenant_id ≡ true)
    × Fits host draft job.state
create_job_from_draft-Fits_example = create_job_from_draft-Fits host draft null
