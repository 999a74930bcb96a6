-- ===== src/Config.antt =====
-- The configuration (pkg/config/config.go): the parts that `normalize` completes, and those that the
-- other modules read. Durations are in nanoseconds. Reading the file is viper's.
pub mod Normalize
use go_video_transcode_servi.Common.{
  second, or_text, ℕ, ◌*◌, ℤ, pos, negsuc, leb_ℤ, ltb_ℤ, eq_ℤ, pos_part, to_int64, Text, codes,
  Bool, true, false, List, [], ◌∷◌, ◌++◌, is_empty, itoa, if◌then◌else◌,
}

pub record MinioConfig : Type 0 where
  pub endpoint : Text
  pub access_key_id : Text
  pub access_key : Text
  pub secret_access_key : Text
  pub secret_key : Text
  pub use_ssl : Bool
  pub bucket_name : Text

pub record RustFsConfig : Type 0 where
  pub endpoint : Text
  pub access_key : Text
  pub secret_key : Text
  pub use_ssl : Bool

pub record FfmpegConfig : Type 0 where
  pub binary_path : Text
  pub temp_dir : Text
  pub max_concurrent_tasks : ℤ
  pub timeout : ℤ
  pub video_codec : Text
  pub hardware_accel : Text
  pub video_preset : Text
  pub threads : ℤ
  pub use_hardware_decode : Bool
  pub decoder_threads : ℤ
  pub cuvid_surfaces : ℤ

pub record WorkerConfig : Type 0 where
  pub enabled : Bool
  pub worker_id : Text
  pub heartbeat_interval : ℤ
  pub task_poll_interval : ℤ
  pub max_concurrent_tasks : ℤ
  pub hls_max_concurrent_tasks : ℤ
  pub queue_capacity : ℤ
  pub shutdown_grace_period : ℤ

pub record GrpcServerConfig : Type 0 where
  pub host : Text
  pub port : ℤ

pub record GrpcClientConfig : Type 0 where
  pub timeout : ℤ
  pub max_recv_msg_size : ℤ
  pub max_send_msg_size : ℤ
  pub retry_times : ℤ

pub record ServiceRegistryConfig : Type 0 where
  pub enabled : Bool
  pub service_name : Text
  pub service_id : Text
  pub register_host : Text
  pub ttl : ℤ
  pub refresh_interval : ℤ

-- UploadServiceConfig and VideoServiceConfig
pub record DependencyConfig : Type 0 where
  pub service_name : Text
  pub address : Text
  pub host : Text
  pub port : ℤ
  pub timeout : ℤ

pub record KafkaConfig : Type 0 where
  pub bootstrap_servers : List Text
  pub client_id : Text
  pub group_id : Text
  pub enabled : Bool
  pub transcode_tasks_topic : Text
  pub commit_on_decode_error : Bool
  pub commit_on_process_error : Bool

pub record Config : Type 0 where
  pub minio : MinioConfig
  pub rustfs : RustFsConfig
  pub ffmpeg : FfmpegConfig  -- Transcode.FFmpeg
  pub worker : WorkerConfig
  pub grpc_server : GrpcServerConfig
  pub service_registry : ServiceRegistryConfig
  pub grpc_client : GrpcClientConfig
  pub upload_service : DependencyConfig  -- Dependencies.UploadService
  pub video_service : DependencyConfig  -- Dependencies.VideoService
  pub kafka : KafkaConfig
  pub storage_base : Text  -- Public.StorageBase

-- A value that stands in for a number that is not positive, and for a zero.
abbrev or_positive : ℤ → ℤ → ℤ
or_positive v default = if leb_ℤ v (pos 0) then default else v

abbrev or_nonzero : ℤ → ℤ → ℤ
or_nonzero v default = if eq_ℤ v (pos 0) then default else v

abbrev at_least_zero : ℤ → ℤ
at_least_zero v = if ltb_ℤ v (pos 0) then pos 0 else v

unfoldable pub normalize_minio : MinioConfig → MinioConfig
normalize_minio c = record c {
  access_key_id = or_text c.access_key_id c.access_key;
  secret_access_key = or_text c.secret_access_key c.secret_key;
}

abbrev default_tasks : FfmpegConfig → ℤ
default_tasks ffmpeg =
    if ltb_ℤ (pos 0) ffmpeg.max_concurrent_tasks then ffmpeg.max_concurrent_tasks else pos 2

-- The product is an int of 64 bits.
abbrev default_capacity : ℤ → ℤ
default_capacity tasks = or_positive (to_int64 (pos_part tasks * 10)) (pos 100)

unfoldable pub normalize_worker : FfmpegConfig → WorkerConfig → WorkerConfig
normalize_worker ffmpeg c =
    let tasks = or_positive c.max_concurrent_tasks (default_tasks ffmpeg) in
    record c {
      max_concurrent_tasks = tasks;
      hls_max_concurrent_tasks = or_positive c.hls_max_concurrent_tasks tasks;
      queue_capacity = or_positive c.queue_capacity (default_capacity tasks);
      shutdown_grace_period = or_nonzero c.shutdown_grace_period (pos (10 * second));
    }

unfoldable pub normalize_ffmpeg : FfmpegConfig → FfmpegConfig
normalize_ffmpeg c = record c {
  temp_dir = or_text c.temp_dir (codes "/tmp/transcode");
  binary_path = or_text c.binary_path (codes "ffmpeg");
  video_codec = or_text c.video_codec (codes "libx264");
  video_preset = or_text c.video_preset (codes "medium");
  threads = at_least_zero c.threads;
  timeout = or_nonzero c.timeout (pos (3600 * second));
}

unfoldable pub normalize_grpc_client : GrpcClientConfig → GrpcClientConfig
normalize_grpc_client c = record c {
  timeout = or_positive c.timeout (pos (30 * second));
  retry_times = at_least_zero c.retry_times;
}

unfoldable pub normalize_dependency : Text → ℕ → ℤ → DependencyConfig → DependencyConfig
normalize_dependency name port timeout c = record c {
  service_name = or_text c.service_name name;
  port = or_positive c.port (pos port);
  timeout = or_positive c.timeout timeout;
}

abbrev default_servers : List Text → List Text
default_servers [] = codes "localhost:29092" ∷ []
default_servers (s ∷ ss) = s ∷ ss

unfoldable pub normalize : Config → Config
unfolding normalize_minio normalize_worker normalize_ffmpeg normalize_grpc_client
    normalize_dependency
normalize c =
    let client = normalize_grpc_client c.grpc_client in
    record c {
      minio = normalize_minio c.minio;
      rustfs = record c.rustfs { endpoint = or_text c.rustfs.endpoint c.minio.endpoint };
      worker = normalize_worker c.ffmpeg c.worker;
      ffmpeg = normalize_ffmpeg c.ffmpeg;
      grpc_server = record {
        host = or_text c.grpc_server.host (codes "0.0.0.0");
        port = or_nonzero c.grpc_server.port (pos 9092);
      };
      service_registry = record c.service_registry {
        ttl = or_nonzero c.service_registry.ttl (pos (30 * second));
        refresh_interval = or_nonzero c.service_registry.refresh_interval (pos (10 * second));
      };
      grpc_client = client;
      upload_service =
          normalize_dependency (codes "upload-service") 9093 client.timeout c.upload_service;
      video_service =
          normalize_dependency (codes "video-service") 9094 client.timeout c.video_service;
      kafka = record c.kafka {
        bootstrap_servers = default_servers c.kafka.bootstrap_servers;
        client_id = or_text c.kafka.client_id (codes "transcode-service");
      };
    }
