-- ===== src/Meta/S3Scanner/Buckets/Reported.antt =====
-- Which items ScanPath can report.
use addp.Common.{String, true, false, List, ◌≡◌}
use addp.Text.{is_slash, after_prefix, trim_slashes, trim_left, ends_in_slash}
use addp.Text
use addp.Meta.Objects.{ObjectMetadata, is_bucket, has_reserved}
use addp.Meta.S3Scanner.Buckets.{contains_name}

-- an item that ScanPath may report, given the allowed buckets
pub record IsReported (allowed : List String) (m : ObjectMetadata) : Type 0 where
  pub allowed_bucket : contains_name m.bucket_name allowed ≡ true
  pub unreserved : has_reserved m.relative_path ≡ false
  pub is_item : is_bucket m.node_type ≡ false
