-- ===== src/Config/Normalize.antt =====
-- What `normalize` makes of a configuration.
use go_video_transcode_servi.Common.{
  ℕ, ℤ, pos, ◌<ℤ◌, Text, codes, to_int64, pos_part, ◌*◌, List, [], ◌∷◌, ◌≡◌, ◌≢◌, refl, arith,
}
use go_video_transcode_servi.Config.{
  Config, MinioConfig, FfmpegConfig, WorkerConfig, GrpcClientConfig, DependencyConfig,
  normalize_minio, normalize_worker, normalize_ffmpeg, normalize_grpc_client, normalize_dependency,
  normalize, or_text, or_positive, or_nonzero, at_least_zero, default_servers, default_tasks,
  default_capacity,
}

or_text_again : (v default : Text) → or_text (or_text v default) default ≡ or_text v default
or_text_again [] [] = refl
or_text_again [] (c ∷ default) = refl
or_text_again (c ∷ v) default = refl

or_positive_again : (v d : ℤ) → or_positive (or_positive v d) d ≡ or_positive v d
or_positive_again v d = ground arith

or_nonzero_again : (v d : ℤ) → or_nonzero (or_nonzero v d) d ≡ or_nonzero v d
or_nonzero_again v d = ground arith

at_least_zero_again : (v : ℤ) → at_least_zero (at_least_zero v) ≡ at_least_zero v
at_least_zero_again v = ground arith

default_servers_again : (ss : List Text) → default_servers (default_servers ss) ≡ default_servers ss
default_servers_again [] = refl
default_servers_again (s ∷ ss) = refl

normalize_minio_again : (c : MinioConfig) → normalize_minio (normalize_minio c) ≡ normalize_minio c
unfolding normalize_minio
normalize_minio_again c =
    cc (or_text_again c.access_key_id c.access_key, or_text_again c.secret_access_key c.secret_key)

or_positive_positive : (v d : ℤ) → pos 0 <ℤ d → pos 0 <ℤ or_positive v d
or_positive_positive v d h = ground arith

or_positive_keeps : (v d : ℤ) → pos 0 <ℤ v → or_positive v d ≡ v
or_positive_keeps v d h = ground arith

or_nonzero_keeps : (v d : ℤ) → v ≢ pos 0 → or_nonzero v d ≡ v
or_nonzero_keeps v d h = ground arith

or_nonzero_nonzero : (v d : ℤ) → d ≢ pos 0 → or_nonzero v d ≢ pos 0
or_nonzero_nonzero v d h e = ground arith

-- A worker's configuration that is complete.
pub record IsComplete (w : WorkerConfig) : Type 0 where
  pub tasks : pos 0 <ℤ w.max_concurrent_tasks
  pub hls_tasks : pos 0 <ℤ w.hls_max_concurrent_tasks
  pub capacity : pos 0 <ℤ w.queue_capacity
  pub grace : w.shutdown_grace_period ≢ pos 0

normalize_worker-IsComplete :
    (f : FfmpegConfig) (c : WorkerConfig) → IsComplete (normalize_worker f c)
unfolding normalize_worker
normalize_worker-IsComplete f c =
    let tasks = or_positive c.max_concurrent_tasks (default_tasks f) in
    let tasks_positive =
      or_positive_positive c.max_concurrent_tasks (default_tasks f) (ground arith) in
    record {
      tasks = tasks_positive;
      hls_tasks = or_positive_positive c.hls_max_concurrent_tasks tasks tasks_positive;
      capacity =
          or_positive_positive c.queue_capacity (default_capacity tasks)
            (or_positive_positive (to_int64 (pos_part tasks * 10)) (pos 100) (omega arith));
      grace = or_nonzero_nonzero c.shutdown_grace_period (pos (10 * 1_000_000_000)) (λ e. cc);
    }

normalize_worker_kept :
    (g : FfmpegConfig) (w : WorkerConfig) → IsComplete w → normalize_worker g w ≡ w
unfolding normalize_worker
normalize_worker_kept g w v = cc (
  or_positive_keeps w.max_concurrent_tasks _ v.tasks,
  or_positive_keeps w.hls_max_concurrent_tasks _ v.hls_tasks,
  or_positive_keeps w.queue_capacity _ v.capacity,
  or_nonzero_keeps w.shutdown_grace_period _ v.grace,
)

normalize_ffmpeg_again :
    (c : FfmpegConfig) → normalize_ffmpeg (normalize_ffmpeg c) ≡ normalize_ffmpeg c
unfolding normalize_ffmpeg
normalize_ffmpeg_again c = cc (
  or_text_again c.temp_dir _,
  or_text_again c.binary_path _,
  or_text_again c.video_codec _,
  or_text_again c.video_preset _,
  at_least_zero_again c.threads,
  or_nonzero_again c.timeout _,
)

normalize_grpc_client_again :
    (c : GrpcClientConfig)
    → normalize_grpc_client (normalize_grpc_client c) ≡ normalize_grpc_client c
unfolding normalize_grpc_client
normalize_grpc_client_again c = ground arith

normalize_dependency_again :
    (name : Text) (port : ℕ) (timeout : ℤ) (c : DependencyConfig)
    → normalize_dependency name port timeout (normalize_dependency name port timeout c)
      ≡ normalize_dependency name port timeout c
unfolding normalize_dependency
normalize_dependency_again name port timeout c = cc (
  or_text_again c.service_name name,
  or_positive_again c.port (pos port),
  or_positive_again c.timeout timeout,
)

-- Completing a configuration twice is completing it once: what `normalize` fills in, it leaves alone.
normalize-normalize : (c : Config) → normalize (normalize c) ≡ normalize c
unfolding normalize
normalize-normalize c =
    let client = normalize_grpc_client c.grpc_client in
    cc (
      normalize_minio_again c.minio,
      or_text_again c.rustfs.endpoint c.minio.endpoint,
      normalize_worker_kept (normalize_ffmpeg c.ffmpeg) (normalize_worker c.ffmpeg c.worker)
          (normalize_worker-IsComplete c.ffmpeg c.worker),
      normalize_ffmpeg_again c.ffmpeg,
      or_text_again c.grpc_server.host (codes "0.0.0.0"),
      or_nonzero_again c.grpc_server.port (pos 9092),
      or_nonzero_again c.service_registry.ttl (pos (30 * 1_000_000_000)),
      or_nonzero_again c.service_registry.refresh_interval (pos (10 * 1_000_000_000)),
      normalize_grpc_client_again c.grpc_client,
      normalize_dependency_again (codes "upload-service") 9093 client.timeout c.upload_service,
      normalize_dependency_again (codes "video-service") 9094 client.timeout c.video_service,
      default_servers_again c.kafka.bootstrap_servers,
      or_text_again c.kafka.client_id (codes "transcode-service"),
    )
