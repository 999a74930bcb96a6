-- ===== src/Tests/Settings.antt =====
-- The configuration at a concrete input.
use go_video_transcode_servi.Common.{pos, negsuc, codes, true, false, []}
use go_video_transcode_servi.Config.{Config, DependencyConfig}
use go_video_transcode_servi.Tests.Videos.{ffmpeg}

abbrev unset_service : DependencyConfig
unset_service = record { service_name = []; address = []; host = []; port = pos 0; timeout = pos 0 }

abbrev pub settings : Config
settings = record {
  minio = record {
    endpoint = codes "minio:9000";
    access_key_id = [];
    access_key = codes "key";
    secret_access_key = [];
    secret_key = codes "secret";
    use_ssl = false;
    bucket_name = codes "videos";
  };
  rustfs = record { endpoint = []; access_key = []; secret_key = []; use_ssl = true };
  ffmpeg = ffmpeg;
  worker = record {
    enabled = true;
    worker_id = codes "w";
    heartbeat_interval = pos 1;
    task_poll_interval = pos 1;
    max_concurrent_tasks = negsuc 0;
    hls_max_concurrent_tasks = pos 0;
    queue_capacity = pos 0;
    shutdown_grace_period = pos 0;
  };
  grpc_server = record { host = []; port = pos 0 };
  service_registry = record {
    enabled = false;
    service_name = [];
    service_id = [];
    register_host = [];
    ttl = pos 0;
    refresh_interval = pos 0;
  };
  grpc_client = record {
    timeout = pos 0;
    max_recv_msg_size = pos 0;
    max_send_msg_size = pos 0;
    retry_times = pos 0;
  };
  upload_service = unset_service;
  video_service = unset_service;
  kafka = record {
    bootstrap_servers = [];
    client_id = [];
    group_id = codes "g";
    enabled = true;
    transcode_tasks_topic = codes "tasks";
    commit_on_decode_error = true;
    commit_on_process_error = false;
  };
  storage_base = [];
}
