-- ===== src/Tests/Messages.antt =====
-- The Kafka consumer at concrete inputs.
use go_video_transcode_servi.Common.{
  ℕ, ◌*◌, length, to_int64, ◌≤◌, pos, Text, codes, true, false, [], ◌∷◌, ◌≡◌, ◌⊎◌, ◌↔◌, text_eq,
  to_lower, lower_char, has_suffix, trim_suffix, read_digits, refl, some, Result, Error, ok,
}
use go_video_transcode_servi.Queue.{new_queue, enqueue}
use go_video_transcode_servi.Consumer.{
  KafkaTask, CommitPolicy, limit_of, listed, should_pause, handle_message, to_request,
  handle_decoded,
}
use go_video_transcode_servi.Consumer.Intake.{fresh, should_pause_iff}
use go_video_transcode_servi.Request.{validate}
use go_video_transcode_servi.Params.{new_transcode_params}
use go_video_transcode_servi.Resolution.{
  validate_resolution, is_listed, validate_bitrate, bitrate_number,
}
use go_video_transcode_servi.App.{
  create_transcode_task, create_checked, find_active_by_video, find_active, answered, find_video,
  create_or_existing, with_params, create_new, store_created, with_row, enqueue_created,
}
use go_video_transcode_servi.Tests.Memory.{Db, runtime, services, empty_db, repository, with_status}
use go_video_transcode_servi.Tests.Core.{task}
use go_video_transcode_servi.Status.{processing}

-- A task in processing, touched three nanoseconds ago at the time 8.
abbrev busy_db : Db
busy_db = record empty_db { rows = record task { status = processing; updated_at = 5 } ∷ [] }

abbrev queue_size : Db → ℕ
queue_size db = length db.waiting.items

should_pause_iff_example :
    let (found, s') =
      repository.query_by_status processing (to_int64 (limit_of (pos 1) * 2)) busy_db in
    ((should_pause (some repository) queue_size (pos 1) 5 8 busy_db).0 ≡ true)
    ↔ ((limit_of (pos 1) ≤ fresh 5 8 (listed found)) ⊎ (limit_of (pos 1) ≤ queue_size s'))
should_pause_iff_example = should_pause_iff repository queue_size (pos 1) 5 8 busy_db

abbrev message : KafkaTask
message = record {
  user_uuid = codes "user";
  video_uuid = codes "video";
  video_push_uuid = [];
  input_path = codes "in.mp4";
  target_resolution = codes "720p";
  target_bitrate = codes "2000k";
}

abbrev pub policy : CommitPolicy
policy = record { commit_on_decode_error = false; commit_on_process_error = false }

abbrev pub unmarshal : Text → Result Error KafkaTask
unmarshal body = ok message

message_committed :
    (handle_message runtime services policy unmarshal (codes "{}") empty_db).0 ≡ true
unfolding handle_message handle_decoded to_request create_transcode_task validate create_checked
    find_active_by_video find_active answered find_video create_or_existing with_params
    new_transcode_params create_new store_created with_row enqueue_created enqueue new_queue
    services repository runtime validate_resolution is_listed to_lower lower_char text_eq
    validate_bitrate bitrate_number has_suffix trim_suffix read_digits with_status
message_committed = refl
