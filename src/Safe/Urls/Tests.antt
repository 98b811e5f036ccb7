-- ===== src/Safe/Urls/Tests.antt =====
-- Paths of concrete addresses.
use distributed_job_platform.Base.{◌≡◌, refl, trim, trim_start, trim_end, split_by}
use distributed_job_platform.Safe.Urls.{
  segments, strip_leading, strip_trailing, normalize_url_pathname, join_url_path, shift_repeats,
  join_segments,
}
use distributed_job_platform.Safe.Urls.Segments.{Joins, join_url_path-Joins}

-- The segment that the base ends with is not repeated.
two_prefix : join_url_path "/platform/api" "/api/v1/jobs" ≡ "/platform/api/v1/jobs"
unfolding join_url_path normalize_url_pathname strip_leading strip_trailing shift_repeats
    join_segments trim trim_start trim_end split_by
two_prefix = refl

join_url_path-Joins_example :
    Joins
      (segments (strip_leading (normalize_url_pathname "/platform/api")))
      (segments (strip_leading (trim "/api/v1/jobs")))
      (join_url_path "/platform/api" "/api/v1/jobs")
join_url_path-Joins_example = join_url_path-Joins "/platform/api" "/api/v1/jobs"
