-- ===== src/Consumer.antt =====
-- The Kafka consumer (ddd/adapter/component/transcode_task_consumer.go): when it pauses, and what
-- it does with a message. `json.Unmarshal` and the Kafka reader are parameters; whether a message is
-- committed is the answer, and times are in nanoseconds, 0 for the zero time.
pub mod Intake
pub mod Loops
pub mod Settings
use go_video_transcode_servi.Common.{
  ℕ, suc, ◌+◌, ◌*◌, to_int64, ◌==◌, leb, ℤ, pos, leb_ℤ, pos_part, Text, Bool, true, false, not,
  ◌&&◌, ◌||◌, List, [], ◌∷◌, Option, none, some, Error, Result, ok, err, Op, ◌>>=◌, ◌>>◌, pure,
  if◌then◌else◌,
}
use go_video_transcode_servi.Runtime.{Runtime}
use go_video_transcode_servi.Status.{processing}
use go_video_transcode_servi.Store.{Repository}
use go_video_transcode_servi.Task.{Task}
use go_video_transcode_servi.Errno.{AppError}
use go_video_transcode_servi.Request.{CreateTranscodeTaskReq}
use go_video_transcode_servi.Dto.{TranscodeTaskDto}
use go_video_transcode_servi.App.{Services, create_transcode_task}

-- The task has been touched within the window.
abbrev pub is_fresh : ℕ → ℕ → Task → Bool
is_fresh window now t = not (t.updated_at == 0) && leb now (t.updated_at + window)

-- The loop over the tasks from a count on, which ends once the count reaches the limit.
unfoldable pub count_running : ℕ → ℕ → ℕ → ℕ → List (Option Task) → ℕ
count_running limit window now running [] = running
count_running limit window now running (none ∷ rest) = count_running limit window now running rest
count_running limit window now running (some t ∷ rest) =
    let counted = if is_fresh window now t then suc running else running in
    let later = count_running limit window now counted rest in
    if leb limit counted then counted else later

-- The tasks of the query; none if it has failed.
abbrev pub listed : Result Error (List (Option Task)) → List (Option Task)
listed (ok list) = list
listed (err e) = []

abbrev pub limit_of : ℤ → ℕ
limit_of max = if leb_ℤ max (pos 0) then 1 else pos_part max

-- What counts: the tasks in processing that have been listed, and the queue.
unfoldable pub is_busy : ℕ → ℕ → ℕ → Result Error (List (Option Task)) → ℕ → Bool
unfolding count_running
is_busy limit window now found size =
    if leb limit (count_running limit window now 0 (listed found)) then true else leb limit size

-- No more than twice the limit are asked for. Without a repository none are listed.
abbrev pub running_jobs :
    {S : Type 0} → Option (Repository S) → ℕ → Op S (Result Error (List (Option Task)))
running_jobs none limit s = (ok [], s)
running_jobs (some repo) limit s = repo.query_by_status processing (to_int64 (limit * 2)) s

-- `queue_size` is the queue's Size.
unfoldable pub should_pause : {S : Type 0} → Option (Repository S) → (S → ℕ) → ℤ → ℕ → ℕ → Op S Bool
unfolding is_busy
should_pause repo queue_size max window now s =
    let limit = limit_of max in
    let (found, s') = running_jobs repo limit s in
    (is_busy limit window now found (queue_size s'), s')

-- The body of a message.
pub record KafkaTask : Type 0 where
  pub user_uuid : Text
  pub video_uuid : Text
  pub video_push_uuid : Text
  pub input_path : Text
  pub target_resolution : Text
  pub target_bitrate : Text

unfoldable pub to_request : KafkaTask → CreateTranscodeTaskReq
to_request m = record {
  user_uuid = m.user_uuid;
  video_uuid = m.video_uuid;
  video_push_uuid = m.video_push_uuid;
  original_path = m.input_path;
  resolution = m.target_resolution;
  bitrate = m.target_bitrate;
  enable_hls = false;
  hls_resolutions = [];
  segment_duration = pos 0;
  list_size = pos 0;
  hls_format = [];
}

pub record CommitPolicy : Type 0 where
  pub commit_on_decode_error : Bool
  pub commit_on_process_error : Bool

abbrev pub is_committed : CommitPolicy → Result AppError TranscodeTaskDto → Bool
is_committed policy (ok dto) = true
is_committed policy (err e) = policy.commit_on_process_error

module _ {S : Type 0} (rt : Runtime) (env : Services S) (policy : CommitPolicy) where
  unfoldable pub handle_decoded : Result Error KafkaTask → Op S Bool
  unfolding to_request
  handle_decoded (err e) = pure policy.commit_on_decode_error
  handle_decoded (ok m) = do
    answer ← create_transcode_task rt env (to_request m)
    pure (is_committed policy answer)

  unfoldable pub handle_message : (Text → Result Error KafkaTask) → Text → Op S Bool
  unfolding handle_decoded
  handle_message unmarshal body = handle_decoded (unmarshal body)
