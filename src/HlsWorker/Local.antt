-- ===== src/HlsWorker/Local.antt =====
-- The worker's own state, and the names of its files (hls_worker.go).
use go_video_transcode_servi.Common.{
  ℕ, pos, pos_part, Text, codes, text_eq, true, List, [], ◌∷◌, ◌++◌, Option, none, some, Error,
  plain, Result, ok, err, Op, is_empty, trim_prefix, has_prefix, to_lower, if◌then◌else◌,
}
use go_video_transcode_servi.Runtime.{Runtime}
use go_video_transcode_servi.HlsStatus
use go_video_transcode_servi.Hls.{HlsJob}
use go_video_transcode_servi.HlsDatabase.{HlsRepository}
use go_video_transcode_servi.Worker.{TranscodeWorker}
use go_video_transcode_servi.Storage.{UploadObject}

-- Start, with the number of goroutines.
start_hls_worker : ℕ → TranscodeWorker → TranscodeWorker × Option Error × ℕ
start_hls_worker now w =
    if w.running
    then (w, some (plain (codes "worker " ++ (w.id ++ codes " is already running"))), 0)
    else (
      record w { running = true; stats = record w.stats { start_time = now } },
      none,
      pos_part w.worker_count,
    )

-- The stored jobs that are pending go to the queue, whose errors are dropped.
requeue_each : {S : Type 0} → (HlsJob → Op S (Option Error)) → List HlsJob → S → S
requeue_each enqueue [] s = s
requeue_each enqueue (job ∷ jobs) s = requeue_each enqueue jobs (enqueue job s).1

abbrev requeue_found :
    {S : Type 0} → (HlsJob → Op S (Option Error)) → Result Error (List HlsJob) → S → S
requeue_found enqueue (err e) s = s
requeue_found enqueue (ok jobs) s = requeue_each enqueue jobs s

-- The goroutine that `Start` launches first.
requeue_pending : {S : Type 0} → HlsRepository S → (HlsJob → Op S (Option Error)) → S → S
unfolding requeue_each
requeue_pending repo enqueue s =
    let (found, s') = repo.query_hls_jobs_by_status HlsStatus.pending (pos 100) s in
    requeue_found enqueue found s'

-- What filepath and the configuration give: `none` without a configuration.
record Paths : Type 0 where
  pub system_temp : Text
  pub configured_temp : Option Text
  pub join : List Text → Text
  pub base_of : Text → Text
  pub extension : Text → Text
  pub relative : Text → Option Text  -- filepath.Rel("storage", path)
  pub to_slash : Text → Text

abbrev temp_of : Paths → Text
temp_of ps = elim ps.configured_temp [
  | none ↦ ps.system_temp
  | some dir ↦ if is_empty dir then ps.system_temp else dir
]

get_local_input_path : Paths → HlsJob → Text
get_local_input_path ps job = ps.join (
    temp_of ps
    ∷ codes "inputs"
    ∷ (codes "hls_" ++ (job.job_uuid ++ (codes "_" ++ ps.base_of job.input_path)))
    ∷ [])

derive_local_candidate : Paths → Text → Text
derive_local_candidate ps remote_key =
    let key = trim_prefix remote_key (codes "/") in
    if is_empty key then [] else ps.join (temp_of ps ∷ key ∷ [])

detect_hls_content_type : Runtime → Paths → Text → Text
detect_hls_content_type rt ps path =
    let ext = to_lower rt.lower_table (ps.extension path) in
    if text_eq ext (codes ".m3u8")
    then codes "application/vnd.apple.mpegurl"
    else if text_eq ext (codes ".ts")
    then codes "video/mp2t"
    else if text_eq ext (codes ".mp4")
    then codes "video/mp4"
    else codes "application/octet-stream"

-- The object that a file below the output directory is uploaded as.
object_of : Runtime → Paths → Text → UploadObject
unfolding detect_hls_content_type
object_of rt ps path =
    let below : Text = elim (ps.relative path) [ none ↦ path | some rel ↦ rel ] in
    record {
      local_path = path;
      object_key = ps.to_slash (if has_prefix path (codes "storage/") then below else path);
      content_type = detect_hls_content_type rt ps path;
    }
