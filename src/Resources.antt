-- ===== src/Resources.antt =====
-- The resources of the process (internal/resource), the numbers of workers
-- (ddd/infrastructure/worker/component.go) and the settings of profiling (pkg/observability). Connections
-- are parameters; `none` is a panic. The databases are in Databases.
pub mod Databases
pub mod Opened
use go_video_transcode_servi.Common.{
  or_text, positive_or, ℕ, ◌*◌, ℤ, pos, ltb_ℤ, leb_ℤ, eq_ℤ, Text, codes, text_eq, trim_space,
  to_lower, is_empty, itoa_ℤ, Bool, true, false, not, ◌&&◌, ◌||◌, List, [], ◌∷◌, ◌++◌, Option, none,
  some, Error, plain, wrap, Result, ok, err, Op, if◌then◌else◌,
}
use go_video_transcode_servi.Runtime.{Runtime}
use go_video_transcode_servi.Config.{Config, MinioConfig}

pub record RustFsResource : Type 0 where
  pub endpoint : Text
  pub access : Text
  pub secret : Text

-- All three are required.
unfoldable pub rustfs_of : Text → Text → Text → Option RustFsResource
rustfs_of endpoint access secret =
    if is_empty endpoint
    then none
    else if is_empty access || is_empty secret
    then none
    else some (record { endpoint = endpoint; access = access; secret = secret })

-- The environment comes before the configuration.
unfoldable pub rustfs_must_open : (Text → Text) → Option Config → Option RustFsResource
unfolding rustfs_of
rustfs_must_open getenv none = none
rustfs_must_open getenv (some cfg) =
    rustfs_of (or_text (getenv (codes "RUSTFS_ENDPOINT")) cfg.rustfs.endpoint)
      (or_text (getenv (codes "RUSTFS_ACCESS_KEY")) cfg.rustfs.access_key)
      (or_text (getenv (codes "RUSTFS_SECRET_KEY")) cfg.rustfs.secret_key)

-- What the MinIO resource calls: the client's construction, and the calls of its bucket.
record MinioNet (S : Type 0) : Type 0 where
  pub new_client : MinioConfig → Option Error
  pub bucket_exists : Text → Op S (Result Error Bool)
  pub make_bucket : Text → Op S (Option Error)

module _ {S : Type 0} (net : MinioNet S) where
  abbrev bucket_made : Option Error → S → Option S
  bucket_made (some e) s = none
  bucket_made none s = some s

  ensured : Text → Result Error Bool → S → Option S
  ensured bucket (err e) s = none
  ensured bucket (ok true) s = some s
  ensured bucket (ok false) s = let (failed, s') = net.make_bucket bucket s in bucket_made failed s'

  ensure_bucket : Text → S → Option S
  unfolding ensured
  ensure_bucket bucket s = let (found, s') = net.bucket_exists bucket s in ensured bucket found s'

  abbrev with_client : Option Error → Text → S → Option S
  with_client (some e) bucket s = none
  with_client none bucket s = ensure_bucket bucket s

  minio_must_open : Option Config → S → Option S
  unfolding ensure_bucket
  minio_must_open none s = none
  minio_must_open (some cfg) s =
      if is_empty cfg.minio.endpoint
      then none
      else if is_empty cfg.minio.bucket_name
      then none
      else with_client (net.new_client cfg.minio) cfg.minio.bucket_name s

-- The workers that MustCreateComponent makes: how many of each, and their identifier.
pub record WorkerSettings : Type 0 where
  pub worker_count : ℤ
  pub hls_worker_count : ℤ
  pub worker_id : Text

unfoldable pub worker_settings : Option Config → WorkerSettings
worker_settings none = record {
  worker_count = pos 1;
  hls_worker_count = pos 1;
  worker_id = codes "transcode-worker";
}
worker_settings (some cfg) =
    let count = positive_or cfg.worker.max_concurrent_tasks (pos 1) in
    record {
      worker_count = count;
      hls_worker_count = positive_or cfg.worker.hls_max_concurrent_tasks count;
      worker_id = or_text cfg.worker.worker_id (codes "transcode-worker");
    }

is_enabled : Runtime → Text → Bool
is_enabled rt v =
    let w = trim_space (to_lower rt.lower_table v) in
    text_eq w (codes "1")
    || text_eq w (codes "true")
    || text_eq w (codes "yes")
    || text_eq w (codes "y")

first_nonempty : List Text → Text
first_nonempty [] = []
first_nonempty (v ∷ rest) = if is_empty (trim_space v) then first_nonempty rest else v

-- The server and the environment with which profiling is started, if it is.
profiling_of : Runtime → (Text → Text) → Option (Text × Text)
unfolding is_enabled first_nonempty
profiling_of rt getenv =
    let server = trim_space (getenv (codes "PROFILE_SERVER")) in
    let env =
      first_nonempty
        (getenv (codes "PROFILE_ENV") ∷ getenv (codes "ENV") ∷ getenv (codes "APP_ENV") ∷ []) in
    if is_enabled rt (getenv (codes "PROFILE_ENABLED"))
    then (if is_empty server then none else some (server, or_text env (codes "prod")))
    else none
