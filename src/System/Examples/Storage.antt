-- ===== src/System/Examples/Storage.antt =====
-- The test of a MinIO connection, at a server with one bucket.
use addp.Common.{String, true, none, some, List, [], ◌∷◌, ok, ◌≡◌, ◌≢◌, ◌↔◌}
use addp.System.Models.{ConnectionInfo, str}
use addp.System.StorageEngine.{Clients, text_at, credentials, test_minio}
use addp.System.StorageEngine.Buckets.{Occurs, test_minio_iff}

abbrev server : Clients
server = record {
  localhost_alias = "";
  atoi = λ s. none;
  opens = λ t. true;
  pings = λ t. true;
  answers = λ t. true;
  accepts = λ c. true;
  buckets = λ c. some ("data" ∷ []);
}

abbrev info : ConnectionInfo
info =
    ("endpoint", str "minio:9000")
    ∷ ("access_key", str "a")
    ∷ ("secret_key", str "k")
    ∷ ("bucket", str "data")
    ∷ []

test_minio_iff_example : (test_minio server info ≡ ok tt) ↔ (
    ((text_at "endpoint" info ≢ "")
      × (text_at "access_key" info ≢ "")
      × (text_at "secret_key" info ≢ ""))
    × (server.accepts (credentials server info) ≡ true)
    × ((names : List String) × (server.buckets (credentials server info) ≡ some names)
        × ((text_at "bucket" info ≢ "") → Occurs (text_at "bucket" info) names)))
test_minio_iff_example = test_minio_iff server info
