-- ===== src/Store/Row.antt =====
-- The row of a job (ddd/infrastructure/database/po/transcode_job.go), and its conversion from and to
-- the entity (convertor/transcode_task_convertor.go). The columns that the convertor leaves alone
-- (worker_id, priority, retry counts, times, metadata) are not modelled.
use go_video_transcode_servi.Common.{
  ℕ, ℤ, Text, Bool, true, false, List, [], ◌∷◌, ◌≡◌, ◌≢◌, arith, Option, none, some, Result, ok,
  err, Error,
}
use go_video_transcode_servi.Runtime.{Runtime}
use go_video_transcode_servi.Status.{TaskStatus, pending, unset, value, new_task_status_from_string}
use go_video_transcode_servi.Status.Machine.{new_task_status_from_string-value}
use go_video_transcode_servi.Params.{TranscodeParams, new_transcode_params}
use go_video_transcode_servi.Task.{Task, new_task_with_details, set_video_push_uuid}

pub record TranscodeJob : Type 0 where
  pub id : ℕ
  pub created_at : ℕ
  pub updated_at : ℕ
  pub job_uuid : Text
  pub user_uuid : Text
  pub video_uuid : Text
  pub video_push_uuid : Text
  pub input_path : Text
  pub output_path : Text
  pub resolution : Text
  pub bitrate : Text
  pub status : Text
  pub progress : ℤ
  pub message : Text

-- Parameters that fail the check are taken as they stand.
abbrev params_of : Result Error TranscodeParams → TranscodeParams → TranscodeParams
params_of (ok p) raw = p
params_of (err e) raw = raw

-- A status that cannot be read is `pending`.
abbrev pub status_of : TaskStatus × Bool → TaskStatus
status_of (s, true) = s
status_of (s, false) = pending

to_entity_row : Runtime → TranscodeJob → Task
unfolding new_task_with_details
to_entity_row rt job = set_video_push_uuid job.video_push_uuid (
    new_task_with_details job.id job.job_uuid job.user_uuid job.video_uuid job.input_path
      job.output_path (status_of (new_task_status_from_string job.status)) job.progress job.message
      (params_of (new_transcode_params rt job.resolution job.bitrate)
        (record { resolution = job.resolution; bitrate = job.bitrate }))
      job.created_at job.updated_at)

unfoldable pub to_entity : Runtime → Option TranscodeJob → Option Task
unfolding to_entity_row
to_entity rt none = none
to_entity rt (some job) = some (to_entity_row rt job)

unfoldable pub to_po : Task → TranscodeJob
to_po t = record {
  id = t.id;
  created_at = t.created_at;
  updated_at = t.updated_at;
  job_uuid = t.task_uuid;
  user_uuid = t.user_uuid;
  video_uuid = t.video_uuid;
  video_push_uuid = t.video_push_uuid;
  input_path = t.original_path;
  output_path = t.output_path;
  resolution = t.params.resolution;
  bitrate = t.params.bitrate;
  status = value t.status;
  progress = t.progress;
  message = t.error_message;
}

-- nil entries are left out.
unfoldable pub to_entities : Runtime → List (Option TranscodeJob) → List (Option Task)
unfolding to_entity
to_entities rt [] = []
to_entities rt (none ∷ rest) = to_entities rt rest
to_entities rt (some job ∷ rest) = to_entity rt (some job) ∷ to_entities rt rest

params_unchanged :
    (rt : Runtime) (p : TranscodeParams)
    → params_of (new_transcode_params rt p.resolution p.bitrate) p ≡ p
unfolding new_transcode_params
params_unchanged rt p = ground arith

-- A task in one of the five states comes back from its row unchanged, valid parameters or not.
pub to_entity-to_po :
    (rt : Runtime) (t : Task) → t.status ≢ unset → to_entity rt (some (to_po t)) ≡ some t
unfolding to_entity to_po
to_entity-to_po rt t h =
    ground (arith, new_task_status_from_string-value t.status h, params_unchanged rt t.params)
