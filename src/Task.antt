-- ===== src/Task.antt =====
-- A transcode task (ddd/domain/entity/transcode_task.go). A method that mutates the entity returns
-- the new one; the time that it reads from the clock is its argument `now`.
pub mod Lifecycle
use go_video_transcode_servi.Common.{
  ℕ, Text, codes, ◌++◌, ℤ, pos, Bool, true, false, Error, plain, Option, none, some, List, [], ◌∷◌,
  if◌then◌else◌,
}
use go_video_transcode_servi.Status.{
  TaskStatus, pending, processing, completed, failed, cancelled, value, same, can_transition_to,
}
use go_video_transcode_servi.Params.{TranscodeParams}

pub record Task : Type 0 where
  pub id : ℕ
  pub task_uuid : Text
  pub user_uuid : Text
  pub video_uuid : Text
  pub video_push_uuid : Text
  pub original_path : Text
  pub output_path : Text
  pub status : TaskStatus
  pub progress : ℤ
  pub error_message : Text
  pub params : TranscodeParams
  pub created_at : ℕ
  pub updated_at : ℕ

unfoldable generate_output_path : Text → Text → TranscodeParams → Text
generate_output_path user_uuid video_uuid params =
    codes "/transcoded/"
    ++ (user_uuid
        ++ (codes "/"
            ++ (video_uuid
                ++ (codes "_"
                    ++ (params.resolution ++ (codes "_" ++ (params.bitrate ++ codes ".mp4")))))))

unfoldable new_task : Text → Text → Text → Text → Text → ℕ → Task
new_task task_uuid user_uuid video_uuid original_path output_path now = record {
  id = 0;
  task_uuid = task_uuid;
  user_uuid = user_uuid;
  video_uuid = video_uuid;
  video_push_uuid = [];
  original_path = original_path;
  output_path = output_path;
  status = pending;
  progress = pos 0;
  error_message = [];
  params = record { resolution = []; bitrate = [] };
  created_at = now;
  updated_at = now;
}

-- `uuid` is the identifier that package uuid generates.
unfoldable pub default_task : Text → Text → Text → Text → TranscodeParams → Text → ℕ → Task
unfolding generate_output_path
default_task user_uuid video_uuid video_push_uuid original_path params uuid now = record {
  id = 0;
  task_uuid = uuid;
  user_uuid = user_uuid;
  video_uuid = video_uuid;
  video_push_uuid = video_push_uuid;
  original_path = original_path;
  output_path = generate_output_path user_uuid video_uuid params;
  status = pending;
  progress = pos 0;
  error_message = [];
  params = params;
  created_at = now;
  updated_at = now;
}

unfoldable pub new_task_with_details :
    ℕ → Text → Text → Text → Text → Text → TaskStatus → ℤ → Text → TranscodeParams → ℕ → ℕ → Task
new_task_with_details id task_uuid user_uuid video_uuid original_path output_path status progress
      error_message params created_at updated_at =
    record {
      id = id;
      task_uuid = task_uuid;
      user_uuid = user_uuid;
      video_uuid = video_uuid;
      video_push_uuid = [];
      original_path = original_path;
      output_path = output_path;
      status = status;
      progress = progress;
      error_message = error_message;
      params = params;
      created_at = created_at;
      updated_at = updated_at;
    }

abbrev pub set_video_push_uuid : Text → Task → Task
set_video_push_uuid uuid t = record t { video_push_uuid = uuid }

abbrev pub set_output_path : Text → ℕ → Task → Task
set_output_path path now t = record t { output_path = path; updated_at = now }

abbrev pub set_status : TaskStatus → ℕ → Task → Task
set_status s now t = record t { status = s; updated_at = now }

abbrev pub set_progress : ℤ → ℕ → Task → Task
set_progress p now t = record t { progress = p; updated_at = now }

abbrev pub set_error_message : Text → ℕ → Task → Task
set_error_message message now t = record t { error_message = message; updated_at = now }

unfoldable pub transition_to : TaskStatus → ℕ → Task → Task × Option Error
transition_to target now t =
    if can_transition_to t.status target
    then (record t { status = target; updated_at = now }, none)
    else (
      t,
      some (
          plain (
            codes "invalid status transition from "
            ++ (value t.status ++ (codes " to " ++ value target)))),
    )

-- IsCompleted, IsFailed, IsCancelled, IsProcessing, IsPending
abbrev pub is_completed : Task → Bool
is_completed t = same t.status completed

abbrev pub is_failed : Task → Bool
is_failed t = same t.status failed

abbrev pub is_cancelled : Task → Bool
is_cancelled t = same t.status cancelled

abbrev is_processing : Task → Bool
is_processing t = same t.status processing

abbrev is_pending : Task → Bool
is_pending t = same t.status pending
