-- ===== src/Tests/HlsJobs.antt =====
-- The HLS worker at concrete inputs.
use go_video_transcode_servi.Common.{
  ◌+◌, ◌%◌, pos, codes, true, [], ◌∷◌, ◌≡◌, none, some, plain, ok, err,
}
use go_video_transcode_servi.HlsStatus
use go_video_transcode_servi.Hls.{HlsJob, new_hls_job, default_hls_config}
use go_video_transcode_servi.Worker.{WorkerStats, new_transcode_worker}
use go_video_transcode_servi.Worker.Counts.{Counted}
use go_video_transcode_servi.HlsWorker.{JobIo, handle_job, work_on}
use go_video_transcode_servi.HlsWorker.Calls.{
  statuses, told, final_status, MayHear, work_on-ends, handle_job-MayHear,
}

abbrev job : HlsJob
job =
    new_hls_job (codes "j1") (codes "user") (codes "video") (codes "in.mp4")
      (codes "storage/hls/j1") default_hls_config 3

abbrev io : JobIo
io = record {
  candidate = none;
  local_input = codes "/tmp/in.mp4";
  make_dir = none;
  download = none;
  has_executor = true;
  slice = λ path. ok (some (codes "storage/hls/j1/master.m3u8"));
  objects = codes "a.ts" ∷ [];
  upload = none;
  relative = λ path. some (codes "hls/j1/master.m3u8");
  clean = λ path. path;
  storage_base = some (codes "cdn.example.org/");
  has_client = true;
  has_reporter = true;
}

abbrev broken_io : JobIo
broken_io = record io { slice = λ path. err (plain (codes "no stream")) }

abbrev stats : WorkerStats
stats = (new_transcode_worker (codes "h") (pos 1) 7).stats

work_on-ends_example :
    let (calls, st') = work_on io job 9 stats in
    let failure = (handle_job io job io.candidate).1 in
    (statuses calls
      ≡ (job.job_uuid, HlsStatus.processing) ∷ (job.job_uuid, final_status failure) ∷ [])
    × (st'.processed_tasks ≡ (stats.processed_tasks + 1) % 0x10000000000000000)
    × (st'.currently_running ≡ stats.currently_running)
    × Counted stats st' failure
work_on-ends_example = work_on-ends io job 9 stats

handle_job-MayHear_example :
    let (calls, failure) = handle_job broken_io job none in MayHear failure (told calls)
handle_job-MayHear_example = handle_job-MayHear broken_io job none
