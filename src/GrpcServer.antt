-- ===== src/GrpcServer.antt =====
-- The gRPC server (ddd/adapter/grpc/transcode_grpc_server.go). Its answers are always responses: no
-- method returns an error of gRPC. The text of an error, which holds its caller, and the conversion of
-- a float to 32 bits are parameters.
pub mod Answers
use go_video_transcode_servi.Common.{
  ℤ, pos, Text, codes, text_eq, Bool, true, false, ◌&&◌, ◌||◌, List, [], ◌++◌, Option, none, some,
  Result, ok, err, Op, ◌>>=◌, ◌>>◌, pure, is_empty, if◌then◌else◌,
}
use go_video_transcode_servi.Runtime.{Runtime}
use go_video_transcode_servi.Errno.{
  Errno, task_not_found, task_exists, worker_not_available, queue_is_full, AppError, errno, biz,
  other,
}
use go_video_transcode_servi.Request.{CreateTranscodeTaskReq}
use go_video_transcode_servi.Dto.{TranscodeTaskDto}
use go_video_transcode_servi.App.{Services, create_transcode_task, get_transcode_task}

-- The messages of the service's protocol.
pub record CreateRequest : Type 0 where
  pub user_uuid : Text
  pub video_uuid : Text
  pub input_path : Text
  pub target_resolution : Text
  pub target_bitrate : Text

pub record CreateResponse : Type 0 where
  pub success : Bool
  pub task_uuid : Text
  pub message : Text

pub record GetResponse : Type 0 where
  pub success : Bool
  pub task_uuid : Text
  pub video_uuid : Text
  pub status : Text
  pub progress : ℤ
  pub output_path : Text
  pub error_message : Text

abbrev refuse_create : Text → CreateResponse
refuse_create message = record { success = false; task_uuid = []; message = message }

abbrev pub refuse_get : Text → GetResponse
refuse_get message = record {
  success = false;
  task_uuid = [];
  video_uuid = [];
  status = [];
  progress = pos 0;
  output_path = [];
  error_message = message;
}

-- The application's request: without HLS.
abbrev app_request : CreateRequest → CreateTranscodeTaskReq
app_request req = record {
  user_uuid = req.user_uuid;
  video_uuid = req.video_uuid;
  video_push_uuid = [];
  original_path = req.input_path;
  resolution = req.target_resolution;
  bitrate = req.target_bitrate;
  enable_hls = false;
  hls_resolutions = [];
  segment_duration = pos 0;
  list_size = pos 0;
  hls_format = [];
}

-- The message of an error.
abbrev create_failure : AppError → Text
create_failure (errno task_exists) = codes "transcode task already exists for this video"
create_failure (errno worker_not_available) =
    codes "service temporarily busy, please try again later"
create_failure (errno queue_is_full) = codes "service temporarily busy, please try again later"
create_failure _ = codes "failed to create transcode task"

create_answer : Result AppError TranscodeTaskDto → CreateResponse
create_answer (err e) = refuse_create (create_failure e)
create_answer (ok dto) = record {
  success = true;
  task_uuid = dto.task_uuid;
  message = codes "transcode task created successfully";
}

abbrev get_failure : (AppError → Text) → Text → AppError → Text
get_failure text_of task_uuid (errno task_not_found) =
    codes "transcode task not found: " ++ task_uuid
get_failure text_of task_uuid e = codes "failed to get transcode task: " ++ text_of e

get_answer : (AppError → Text) → (ℤ → ℤ) → Text → Result AppError TranscodeTaskDto → GetResponse
get_answer text_of to_int32 task_uuid (err e) = refuse_get (get_failure text_of task_uuid e)
get_answer text_of to_int32 task_uuid (ok dto) = record {
  success = true;
  task_uuid = dto.task_uuid;
  video_uuid = dto.video_uuid;
  status = dto.status;
  progress = to_int32 dto.progress;
  output_path = dto.output_path;
  error_message =
      if text_eq dto.status (codes "failed") && is_empty dto.error_message
      then codes "transcode task failed"
      else dto.error_message;
}

module _ {S : Type 0} (rt : Runtime) where
  -- `none` is a server without an application.
  pub serve_create : Option (Services S) → CreateRequest → Op S CreateResponse
  unfolding create_answer
  serve_create none req = pure (refuse_create (codes "service unavailable"))
  serve_create (some env) req =
      if is_empty req.user_uuid
      then pure (refuse_create (codes "user_uuid is required"))
      else if is_empty req.video_uuid
      then pure (refuse_create (codes "video_uuid is required"))
      else if is_empty req.input_path
      then pure (refuse_create (codes "input_path is required"))
      else (do made ← create_transcode_task rt env (app_request req); pure (create_answer made))

  pub serve_get : (AppError → Text) → (ℤ → ℤ) → Option (Services S) → Text → Op S GetResponse
  unfolding get_answer
  serve_get text_of to_int32 none task_uuid = pure (refuse_get (codes "service unavailable"))
  serve_get text_of to_int32 (some env) task_uuid =
      if is_empty task_uuid then pure (refuse_get (codes "task_uuid is required")) else (do
        found ← get_transcode_task rt env task_uuid
        pure (get_answer text_of to_int32 task_uuid found))
